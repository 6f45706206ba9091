-- ===== src/Dns/Resolver/Fallback.antt =====
-- getaddrinfo_v6 on a name that the DNS64 servers do not resolve.
use personal_journal.Base.{
  ◌<◌, ◌≡◌, refl, ◌⊎◌, inl, inr, false, none, some, List, [], ◌∷◌, lt→ltb, length, All, ok,
}
use personal_journal.Dns.Memory.{Bytes}
use personal_journal.Dns.Answers.{IpInfo}
use personal_journal.Dns.Host.{failure}
use personal_journal.Dns.Resolver.{
  AddrInfo, World, is_valid_ipv4_address, results_loop, getaddrinfo_api, resolve_name,
  getaddrinfo_v6,
}

-- An entry that is not of the family AF_INET6.
abbrev pub IsOther : AddrInfo → Type 0
IsOther r = r.is_inet6 ≡ false

results_loop-none :
    (rs : List AddrInfo) (info : IpInfo)
    → All IsOther rs
    → results_loop rs info ≡ ok (info, failure)
unfolding results_loop
results_loop-none [] info a = refl
results_loop-none (x ∷ rs) info a = rw a.0 (results_loop-none rs info a.1)

-- When no DNS64 server has answered, and the system's resolver fails or knows no IPv6 address,
-- getaddrinfo_v6 returns -1 with the list as the queries have left it.
pub getaddrinfo_v6-unknown :
    (w : World) (host : Bytes) (info left : IpInfo)
    → length host < 64
    → w.inet_pton host ≡ none
    → w.th_gethostbyname host (record info { size = 0 }) ≡ ok (left, failure)
    → (w.getaddrinfo host ≡ none)
      ⊎ ((rs : List AddrInfo) × (w.getaddrinfo host ≡ some rs) × All IsOther rs)
    → getaddrinfo_v6 w (some host) (some info) ≡ ok (some left, failure)
unfolding getaddrinfo_v6 is_valid_ipv4_address resolve_name getaddrinfo_api
getaddrinfo_v6-unknown w host info left short name failed none_known =
    rw (lt→ltb (length host) 64 short, name, is_valid_ipv4_address, failed)
      (elim none_known [
        | inl e ↦ rw (e, getaddrinfo_api) refl
        | inr (rs, e, others) ↦ rw (e, getaddrinfo_api, results_loop-none rs left others) refl
      ])
