-- ===== src/Dns.antt =====
-- dns64_query_c/dns_v6/dnsquery.c: the DNS64 resolver.
pub mod Memory
pub mod Nat64
pub mod Name
pub mod Packet
pub mod Answers
pub mod Receive
pub mod Host
pub mod Threads
pub mod Resolver
pub mod Single
pub mod Dual
mod Tests
