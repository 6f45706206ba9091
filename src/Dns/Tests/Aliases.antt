-- ===== src/Dns/Tests/Aliases.antt =====
-- A response with an alias: "a" is "b", and "b" has an address.
use personal_journal.Base.{◌++◌, true, false, some, List, [], ◌∷◌}
use personal_journal.Dns.Memory.{Bytes}
use personal_journal.Dns.Tests.{reply, head_bytes, question_bytes}
use personal_journal.Dns.Tests.Queries.{net}
use personal_journal.Dns.Receive.{Attempt, returned}
use personal_journal.Dns.Host.{Net}
use personal_journal.Dns.Answers.Response.{Reply}
use personal_journal.Dns.Answers.Mixed.{Alias, Answer, address, alias, wires_of}

abbrev label_b : Bytes
label_b = 98 ∷ []

abbrev a_is_b : Alias
a_is_b = record {
  owner = 192 ∷ 12 ∷ [];
  type0 = 0;
  type1 = 5;
  middle = 0 ∷ 1 ∷ 0 ∷ 0 ∷ 0 ∷ 60 ∷ 0 ∷ 3 ∷ [];
  target = 1 ∷ 98 ∷ 0 ∷ [];
}

abbrev b_reply : Reply
b_reply = record reply { owner = 192 ∷ 31 ∷ [] }

abbrev answers : List Answer
answers = alias a_is_b ∷ address b_reply ∷ []

abbrev alias_packet : Bytes
alias_packet = head_bytes ++ 0 ∷ 2 ∷ (0 ∷ 0 ∷ 0 ∷ 0 ∷ (question_bytes ++ wires_of answers))

abbrev alias_arrival : Attempt
alias_arrival = record {
  sent = true;
  selects = returned false true ∷ [];
  received = some alias_packet;
}

abbrev alias_net : Net
alias_net = record net { attempts = λ i. alias_arrival }
