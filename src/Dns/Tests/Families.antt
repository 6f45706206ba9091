-- ===== src/Dns/Tests/Families.antt =====
-- The resolver for both families.
use personal_journal.Base.{◌≡◌, refl, true, false, some, List, [], ◌∷◌, replicate, ok, ◌>>=◌}
use personal_journal.Dns.Memory.{Bytes, byte}
use personal_journal.Dns.Tests.{label_a, empty_slots}
use personal_journal.Dns.Tests.Queries.{net}
use personal_journal.Dns.Answers.{u16_at}
use personal_journal.Dns.Single.{single_gethostbyname}
use personal_journal.Dns.Dual.{
  DualInfo, interrupted, connected, refused, store_answers_for, socketv6_gethostbyname,
  dual_gethostbyname,
}
use personal_journal.Dns.Dual.Same.{v6_part, as_called, socketv6_gethostbyname-same}
use personal_journal.Dns.Dual.FirstOctets.{
  V4Record, record_of_v4, dual_info, store_answers_for-first_only,
}
use personal_journal.Dns.Dual.Choice.{dual_gethostbyname-choice}

abbrev v4_slots : List Bytes
v4_slots = replicate 20 (0 ∷ 0 ∷ 0 ∷ 0 ∷ [])

abbrev both : DualInfo
both = dual_info 0 empty_slots v4_slots

socketv6_gethostbyname-same_example :
    socketv6_gethostbyname net (some label_a) (some both)
    ≡ (single_gethostbyname net (some label_a) (some (v6_part both)) >>= as_called both)
socketv6_gethostbyname-same_example = socketv6_gethostbyname-same net label_a both refl refl

-- 192.0.2.33.
abbrev a_buf : Bytes
a_buf = 0 ∷ 1 ∷ 0 ∷ 1 ∷ []

abbrev a_reply : V4Record
a_reply = record { at = 0; address = 192 ∷ 0 ∷ 2 ∷ 33 ∷ [] }

a_type : u16_at a_buf 0 ≡ ok 1
unfolding u16_at byte
a_type = refl

store_answers_for-first_only_example :
    store_answers_for true a_buf 1
      (dual_info 0 [] ((0 ∷ 0 ∷ 0 ∷ 0 ∷ []) ∷ []))
      (record_of_v4 a_reply ∷ [])
    ≡ ok (dual_info 1 [] ((192 ∷ 0 ∷ 0 ∷ 0 ∷ []) ∷ []))
store_answers_for-first_only_example =
    store_answers_for-first_only a_buf [] [] ((0 ∷ 0 ∷ 0 ∷ 0 ∷ []) ∷ []) [] (a_reply ∷ []) 1 0
      (record { type = a_type; size = refl }, tt) refl refl refl

dual_gethostbyname-choice_example :
    dual_gethostbyname
      (record {
        socket4 = true;
        calls4 = refused ∷ [];
        socket6 = true;
        calls6 = interrupted ∷ connected ∷ [];
      })
      net
      net
      (some label_a)
      (some both)
    ≡ socketv6_gethostbyname net (some label_a) (some both)
dual_gethostbyname-choice_example =
    dual_gethostbyname-choice true true false true 0 1 [] [] net net (some label_a) (some both)
