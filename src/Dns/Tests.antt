-- ===== src/Dns/Tests.antt =====
-- Examples for the resolver: the functions on concrete packets, and the theorems at them.
mod Names
mod Records
mod Queries
mod Runs
mod Races
mod Aliases
mod Older
mod Families
mod Resolving
use personal_journal.Base.{ℕ, Bool, true, Option, List, [], ◌∷◌, ◌++◌, replicate}
use personal_journal.Dns.Memory.{Bytes}
use personal_journal.Dns.Answers.{Allocator}
use personal_journal.Dns.Answers.Response.{Reply}

-- The label "a", and "ab.c" as labels.
abbrev label_a : Bytes
label_a = 97 ∷ []

abbrev label_ab : Bytes
label_ab = 97 ∷ 98 ∷ []

abbrev label_c : Bytes
label_c = 99 ∷ []

abbrev willing : ℕ → Bool
willing n = true

-- An allocator that rounds blocks up, and one that does not.
abbrev rounding : Allocator
rounding = record { for_name = λ i n. true; for_rdata = λ i n. true; usable = λ n. 24 }

abbrev exact : Allocator
exact = record { for_name = λ i n. true; for_rdata = λ i n. true; usable = λ n. n }

-- 64:ff9b::192.0.0.170, and the answer for "a" that carries it behind a compressed name.
abbrev nat64_address : Bytes
nat64_address = 0 ∷ 100 ∷ 255 ∷ 155 ∷ 0 ∷ 0 ∷ 0 ∷ 0 ∷ 0 ∷ 0 ∷ 0 ∷ 0 ∷ 192 ∷ 0 ∷ 0 ∷ 170 ∷ []

abbrev reply : Reply
reply = record {
  owner = 192 ∷ 12 ∷ [];
  class0 = 0;
  class1 = 1;
  ttl0 = 0;
  ttl1 = 0;
  ttl2 = 0;
  ttl3 = 60;
  address = nat64_address;
}

-- The packet: a header with one answer, the question, and the answer.
abbrev head_bytes : Bytes
head_bytes = 1 ∷ 2 ∷ 129 ∷ 128 ∷ 0 ∷ 1 ∷ []

abbrev question_bytes : Bytes
question_bytes = 1 ∷ 97 ∷ 0 ∷ 0 ∷ 28 ∷ 0 ∷ 1 ∷ []

abbrev before_answers : Bytes
before_answers = head_bytes ++ 0 ∷ 1 ∷ (0 ∷ 0 ∷ 0 ∷ 0 ∷ question_bytes)

abbrev answer_bytes : Bytes
answer_bytes = 192 ∷ 12 ∷ 0 ∷ 28 ∷ 0 ∷ 1 ∷ 0 ∷ 0 ∷ 0 ∷ 60 ∷ 0 ∷ 16 ∷ nat64_address

abbrev packet : Bytes
packet = before_answers ++ answer_bytes

abbrev empty_slots : List Bytes
empty_slots = replicate 20 (replicate 16 0)
