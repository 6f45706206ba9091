-- ===== src/Dns/Threads/Refine.antt =====
-- What the three query threads do to the list, seen as one socket_gethostbyname.
use personal_journal.Base.{List}
use personal_journal.Dns.Memory.{Bytes}
use personal_journal.Dns.Answers.{IpInfo}
use personal_journal.Dns.Threads.Tells.{Tells}

abbrev pub empty_list : List Bytes → IpInfo
empty_list slots = record { size = 0; v6_addr = slots }
