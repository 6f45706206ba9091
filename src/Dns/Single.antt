-- ===== src/Dns/Single.antt =====
-- dns64_query_c/dnsquery.c: the older resolver, which asks one server and has no threads. Its
-- functions for names, packets and responses are those of dns_v6/dnsquery.c, word for word.
pub mod Answered
pub mod Literal
use personal_journal.Base.{
  ℕ, Bool, Option, none, some, ◌==◌, if◌then◌else◌, replicate, Outcome, ok, fault, ◌>>=◌, Ret,
  success, failure,
}
use personal_journal.Dns.Memory.{Bytes}
use personal_journal.Dns.Answers.{IpInfo, store_answers}
use personal_journal.Dns.Host.{Net, Asked, unasked, answered, ask_with}
use personal_journal.Dns.Resolver.{InAddr, ipv4_host, replace_first}

-- `unsigned char send_buf[65536] = {0};` and `recv_buf` likewise.
unfoldable pub wide_buf : Bytes
wide_buf = replicate 65536 0

-- The list starts again at `_ipinfo->size = 0`.
unfoldable pub keep_answers : IpInfo → Asked → Outcome (IpInfo × Ret)
keep_answers info unasked = ok (info, failure)
keep_answers info (answered recv_buf count records) =
    store_answers recv_buf count (record info { size = 0 }) records >>= λ info'.
    if info'.size == 0 then ok (info', failure) else ok (info', success)

-- What a call leaves in the caller's list and in the caller's host name, `none` being NULL.
pub record Left : Type 0 where
  pub info : Option IpInfo
  pub ret : Ret
  pub host : Option Bytes

-- socket_gethostbyname.
unfoldable pub single_gethostbyname : Net → Option Bytes → Option IpInfo → Outcome Left
single_gethostbyname net none info = ok (record { info = info; ret = failure; host = none })
single_gethostbyname net (some host) none =
    ok (record { info = none; ret = failure; host = some host })
single_gethostbyname net (some host) (some info) = do
  (asked, host') ← ask_with wide_buf net host
  (info', ret) ← keep_answers info asked
  ok (record { info = some info'; ret = ret; host = some host' })

-- What getaddrinfo_v6 does with the answer for ipv4only.arpa.
abbrev pub embed_single : InAddr → (host : Bytes) → Option IpInfo → Ret → Outcome Left
embed_single a host info failure = ok (record { info = info; ret = failure; host = some host })
embed_single a host none success = fault
embed_single a host (some info) success =
    replace_first (record info { size = 1 }) a >>= λ (info', ret).
    ok (record { info = some info'; ret = ret; host = some host })

-- getaddrinfo_v6, with inet_pton for AF_INET as in the newer resolver; a NULL name goes to inet_pton.
unfoldable pub single_getaddrinfo :
    (inet_pton : Bytes → Option InAddr) → Net → Option Bytes → Option IpInfo → Outcome Left
single_getaddrinfo inet_pton net none info = fault
single_getaddrinfo inet_pton net (some host) info = elim (inet_pton host) [
  | none ↦ single_gethostbyname net (some host) info
  | some a ↦ single_gethostbyname net (some ipv4_host) info >>= λ left.
      embed_single a host left.info left.ret
]
