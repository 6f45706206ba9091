-- ===== src/Dns/Tests/Resolving.antt =====
-- The entry point.
use personal_journal.Base.{true, false, none, some, List, [], ◌∷◌, replicate, ok}
use personal_journal.Dns.Memory.{Bytes}
use personal_journal.Dns.Tests.{nat64_address}
use personal_journal.Dns.Answers.Store.{ip_info}
use personal_journal.Dns.Host.{success, failure}
use personal_journal.Dns.Resolver.{InAddr, AddrInfo, World}

-- "9.8.7.6" and "a".
abbrev literal : Bytes
literal = 57 ∷ 46 ∷ 56 ∷ 46 ∷ 55 ∷ 46 ∷ 54 ∷ []

abbrev host : Bytes
host = 97 ∷ []

abbrev parsed : InAddr
parsed = record { s1 = 9; s2 = 8; s3 = 7; s4 = 6 }

-- A network with a DNS64 server.
abbrev dns64_world : World
dns64_world = record {
  inet_pton = λ ip. some parsed;
  getaddrinfo = λ ip. none;
  th_gethostbyname =
      λ ip info. ok (ip_info 1 (nat64_address ∷ replicate 19 (replicate 16 0)), success);
}

-- A network without one, and a system's resolver that knows an IPv6 address, or none.
abbrev other_entry : AddrInfo
other_entry = record { is_inet6 = false; sin6_addr = [] }

abbrev entry : AddrInfo
entry = record { is_inet6 = true; sin6_addr = nat64_address }

abbrev system_world : List AddrInfo → World
system_world results = record {
  inet_pton = λ ip. none;
  getaddrinfo = λ ip. some results;
  th_gethostbyname = λ ip info. ok (ip_info 0 info.v6_addr, failure);
}
