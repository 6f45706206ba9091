-- ===== src/Dns/Dual/Answered.antt =====
-- From the choice of the family to the list, where only IPv6 works.
use personal_journal.Dns.Host.Reception.{Response}
