-- ===== src/Dns/Answers/Overrun.antt =====
-- The zero that ReadRecvAnswer stores behind the data of an address record.
use personal_journal.Base.{ℕ, ◌≡◌, refl, true, some, ◌++◌, arith, length, ok, fault, ge→ltb}
use personal_journal.Dns.Memory.{Bytes}
use personal_journal.Dns.Name.{read_name}
use personal_journal.Dns.Answers.{Allocator, read_address, read_answer}
use personal_journal.Dns.Answers.Response.{Reply, IsReply, wire, At-wire}

-- `rdata[data_len] = 0` is behind a block of `data_len` bytes: with an allocator whose blocks hold
-- what was asked for and no more, every address record whose name is read and whose block is granted
-- makes ReadRecvAnswer write past the block.
pub read_answer-overrun :
    (alloc : Allocator) (buf pre post name : Bytes) (fuel i : ℕ) (r : Reply)
    → alloc.usable 16 ≡ 16
    → alloc.for_rdata i 0 ≡ true
    → IsReply r
    → buf ≡ pre ++ (wire r ++ post)
    → read_name (alloc.for_name i) buf fuel (length pre) ≡ ok (some name, length r.owner)
    → read_answer alloc buf fuel i (length pre) ≡ fault
unfolding read_answer read_address
read_answer-overrun alloc buf pre post name fuel i r exact granted h e named =
    let here = At-wire buf pre post (length pre) r h e refl in
    rw (named, here.type, here.size, granted, here.bytes, ge→ltb 16 (alloc.usable 16) (omega arith))
