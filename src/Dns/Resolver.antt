-- ===== src/Dns/Resolver.antt =====
-- dns64_query_c/dns_v6/dnsquery.c: the library's entry point (getaddrinfo_v6), with
-- isValidIpv4Address and the fallback to the system's resolver (getaddrinfo_api).
pub mod Literal
pub mod Fallback
pub mod Size
use personal_journal.Base.{
  ℕ, ◌+◌, Bool, true, false, Option, none, some, List, [], ◌∷◌, ltb, if◌then◌else◌, get_elem?,
  length, set, take, drop, ◌++◌, Outcome, ok, fault, ◌>>=◌,
}
use personal_journal.Dns.Memory.{Bytes, mem_copy}
use personal_journal.Dns.Nat64.{Octets, is_nat64_addr_valid, replace_nat64_with_v4_ip}
use personal_journal.Dns.Answers.{IpInfo}
use personal_journal.Dns.Host.{Ret, success, failure}

-- `struct in_addr`, and an entry of the list that getaddrinfo makes.
pub record InAddr : Type 0 where
  pub s1 : ℕ
  pub s2 : ℕ
  pub s3 : ℕ
  pub s4 : ℕ

pub record AddrInfo : Type 0 where
  pub is_inet6 : Bool
  pub sin6_addr : Octets

-- What the functions call: inet_pton for AF_INET, with the address that it writes where it returns
-- 1; getaddrinfo, `none` for an error; and th_gethostbyname, whose runs Threads.antt describes.
pub record World : Type 0 where
  pub inet_pton : Bytes → Option InAddr
  pub getaddrinfo : Bytes → Option (List AddrInfo)
  pub th_gethostbyname : Bytes → IpInfo → Outcome (IpInfo × Ret)

unfoldable pub is_valid_ipv4_address : World → Bytes → Bool
is_valid_ipv4_address w ip = elim (w.inet_pton ip) [ none ↦ false | some a ↦ true ]

-- `struct in_addr _v4_addr = {0}; inet_pton(AF_INET, host, &_v4_addr);`
unfoldable pub v4_addr : World → Bytes → InAddr
v4_addr w host = elim (w.inet_pton host) [
  | none ↦ record { s1 = 0; s2 = 0; s3 = 0; s4 = 0 }
  | some a ↦ a
]

-- The copy takes twelve octets, and leaves the slot's last four.
unfoldable pub put_address_api : IpInfo → Octets → Outcome IpInfo
put_address_api info addr = elim (get_elem? info.v6_addr info.size) [
  | none ↦ fault
  | some old ↦ ok (record {
    size = info.size + 1;
    v6_addr = set info.v6_addr info.size (mem_copy old 0 (take 12 addr));
  })
]

-- The loop of getaddrinfo_api over the results; it ends at the first IPv6 address.
unfoldable pub results_loop : List AddrInfo → IpInfo → Outcome (IpInfo × Ret)
results_loop [] info = ok (info, failure)
results_loop (res ∷ rest) info =
    let on = results_loop rest info in
    if res.is_inet6
    then (put_address_api info res.sin6_addr >>= λ info'. ok (info', success))
    else on

unfoldable pub getaddrinfo_api : World → Bytes → IpInfo → Outcome (IpInfo × Ret)
getaddrinfo_api w host info = elim (w.getaddrinfo host) [
  | none ↦ ok (info, failure)
  | some results ↦ results_loop results info
]

-- "ipv4only.arpa".
abbrev pub ipv4_host : Bytes
ipv4_host = 105 ∷ 112 ∷ 118 ∷ 52 ∷ 111 ∷ 110 ∷ 108 ∷ 121 ∷ 46 ∷ 97 ∷ 114 ∷ 112 ∷ 97 ∷ []

-- `IsNat64AddrValid(&v6_addr[0])` and `ReplaceNat64WithV4IP(&v6_addr[0], &_v4_addr)`.
unfoldable pub replace_first : IpInfo → InAddr → Outcome (IpInfo × Ret)
replace_first info a = elim (get_elem? info.v6_addr 0) [
  | none ↦ fault
  | some addr ↦
      if is_nat64_addr_valid addr
      then ok (
        record info {
          v6_addr = set info.v6_addr 0 (replace_nat64_with_v4_ip addr a.s1 a.s2 a.s3 a.s4);
        },
        success,
      )
      else ok (info, failure)
]

-- The branch for an IPv4 address: the query, and what follows its result.
abbrev pub embed_address : InAddr → IpInfo × Ret → Outcome (IpInfo × Ret)
embed_address a (info, failure) = ok (info, failure)
embed_address a (info, success) = replace_first (record info { size = 1 }) a

unfoldable pub resolve_literal : World → InAddr → IpInfo → Outcome (IpInfo × Ret)
resolve_literal w a info = w.th_gethostbyname ipv4_host info >>= λ r. embed_address a r

-- The branch for a name.
abbrev pub fall_back : World → Bytes → IpInfo × Ret → Outcome (IpInfo × Ret)
fall_back w host (info, failure) = getaddrinfo_api w host info
fall_back w host (info, success) = ok (info, success)

unfoldable pub resolve_name : World → Bytes → IpInfo → Outcome (IpInfo × Ret)
resolve_name w host info = w.th_gethostbyname host info >>= λ r. fall_back w host r

-- getaddrinfo_v6: a NULL argument is `none`; the name goes into `char host[64]`.
unfoldable pub getaddrinfo_v6 : World → Option Bytes → Option IpInfo → Outcome (Option IpInfo × Ret)
getaddrinfo_v6 w none info = ok (info, failure)
getaddrinfo_v6 w (some host) none = ok (none, failure)
getaddrinfo_v6 w (some host) (some info) =
    if ltb (length host) 64 then (resolved >>= λ r. ok (some r.0, r.1)) else fault
  where
    resolved : Outcome (IpInfo × Ret)
    resolved =
        if is_valid_ipv4_address w host
        then resolve_literal w (v4_addr w host) (record info { size = 0 })
        else resolve_name w host (record info { size = 0 })
