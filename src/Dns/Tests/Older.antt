-- ===== src/Dns/Tests/Older.antt =====
-- The older resolver: ipv4only.arpa is answered on the second attempt.
use personal_journal.Base.{
  true, false, Option, none, some, [], ◌∷◌, ◌++◌, replicate, codes, if◌then◌else◌,
}
use personal_journal.Dns.Memory.{Bytes, mem_copy, mem_eq}
use personal_journal.Dns.Tests.{label_a, rounding, nat64_address, reply, head_bytes, packet}
use personal_journal.Dns.Tests.Records.{rounding-IsRoomy, owner_name}
use personal_journal.Dns.Tests.Queries.{net}
use personal_journal.Dns.Receive.{Attempt, returned}
use personal_journal.Dns.Answers.Response.{Readable}
use personal_journal.Dns.Host.{Net}
use personal_journal.Dns.Host.Reception.{Response}
use personal_journal.Dns.Resolver.{InAddr}
use personal_journal.Dns.Single.{wide_buf}
use personal_journal.Dns.Single.Answered.{}
use personal_journal.Dns.Single.Literal.{ipv4only, arpa}

-- The packet, with its name and question.
abbrev asked_bytes : Bytes
asked_bytes = 8 ∷ (ipv4only ++ 4 ∷ (arpa ++ 0 ∷ 0 ∷ 28 ∷ 0 ∷ 1 ∷ []))

abbrev arpa_packet : Bytes
arpa_packet =
    head_bytes
    ++ 0
      ∷ 1
      ∷ (0
          ∷ 0
          ∷ 0
          ∷ 0
          ∷ (asked_bytes ++ 192 ∷ 12 ∷ 0 ∷ 28 ∷ 0 ∷ 1 ∷ 0 ∷ 0 ∷ 0 ∷ 60 ∷ 0 ∷ 16 ∷ nat64_address))

abbrev arpa_arrival : Attempt
arpa_arrival = record {
  sent = true;
  selects = returned false true ∷ [];
  received = some arpa_packet;
}

abbrev arpa_net : Net
arpa_net = record net { attempts = λ i. arpa_arrival; fuel = 40 }

abbrev zero_slot : Bytes
zero_slot = replicate 16 0

-- "192.0.2.33".
abbrev text : Bytes
text = codes "192.0.2.33"

abbrev pton : Bytes → Option InAddr
pton s = if mem_eq s 0 text then some (record { s1 = 192; s2 = 0; s3 = 2; s4 = 33 }) else none

pub names_wide :
    Readable rounding rounding-IsRoomy (mem_copy wide_buf 0 packet) 20 0 19 (reply ∷ [])
unfolding wide_buf
names_wide = ((label_a, owner_name (replicate 65489 0)), tt)
