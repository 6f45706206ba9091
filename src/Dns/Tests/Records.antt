-- ===== src/Dns/Tests/Records.antt =====
-- Records of a response.
use personal_journal.Base.{◌≡◌, refl, some, ◌++◌, arith, ok}
use personal_journal.Dns.Memory.{Bytes, byte}
use personal_journal.Dns.Tests.{label_a, willing, rounding, packet}
use personal_journal.Dns.Name.{
  read_name, read_loop, read_round, advance, grow, finish_name, dot_loop, shift_label,
}
use personal_journal.Dns.Answers.{answer_count, u16_at}
use personal_journal.Dns.Answers.Response.{IsRoomy}
use personal_journal.Dns.Answers.Overrun.{}

abbrev pub rounding-IsRoomy : IsRoomy rounding
rounding-IsRoomy = record { names = λ i n. refl; datas = λ i n. refl; spare = omega arith }

-- The name of the answer is a pointer to the question's.
pub owner_name : (rest : Bytes) → read_name willing (packet ++ rest) 20 19 ≡ ok (some label_a, 2)
unfolding read_name read_loop read_round advance grow finish_name dot_loop shift_label byte
owner_name rest = refl

packet_answers : answer_count packet ≡ ok 1
unfolding answer_count u16_at byte
packet_answers = refl
