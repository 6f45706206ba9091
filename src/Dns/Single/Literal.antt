-- ===== src/Dns/Single/Literal.antt =====
-- The older getaddrinfo_v6 on an IPv4 address, from the packet to the result.
use personal_journal.Base.{codes}
use personal_journal.Dns.Memory.{Bytes}
use personal_journal.Dns.Host.Reception.{Response}

-- The labels of ipv4only.arpa.
abbrev pub ipv4only : Bytes
ipv4only = codes "ipv4only"

abbrev pub arpa : Bytes
arpa = codes "arpa"
