-- ===== src/Dns/Answers/Response.antt =====
-- ReadRecvAnswer on a response whose records are IPv6 addresses.
use personal_journal.Base.{
  ℕ, zero, suc, ◌+◌, ◌*◌, ◌<◌, ◌≡◌, refl, sym, ap, ◌∙◌, true, some, List, [], ◌∷◌, ◌++◌,
  append_assoc, arith, length, length-append, get_elem?-append, All, ok, lt→ltb, ◌>>=◌,
}
use personal_journal.Dns.Memory.{Bytes, byte-ok}
use personal_journal.Dns.Name.{read_name}
use personal_journal.Dns.Packet.{aaaa}
use personal_journal.Dns.Answers.{
  ResRecord, Allocator, u16_at, copy_rdata, stored, read_address, read_answer, read_answers,
}

-- An address record: the form of its name, its class and time to live, and its sixteen bytes.
pub record Reply : Type 0 where
  pub owner : Bytes
  pub class0 : ℕ
  pub class1 : ℕ
  pub ttl0 : ℕ
  pub ttl1 : ℕ
  pub ttl2 : ℕ
  pub ttl3 : ℕ
  pub address : Bytes

abbrev pub fixed : Reply → Bytes
fixed r = 0 ∷ 28 ∷ r.class0 ∷ r.class1 ∷ r.ttl0 ∷ r.ttl1 ∷ r.ttl2 ∷ r.ttl3 ∷ 0 ∷ 16 ∷ []

abbrev pub wire : Reply → Bytes
wire r = r.owner ++ (fixed r ++ r.address)

abbrev pub wires : List Reply → Bytes
wires [] = []
wires (r ∷ rs) = wire r ++ wires rs

abbrev pub IsReply : Reply → Type 0
IsReply r = length r.address ≡ 16

pub u16_at-append :
    (buf pre post : Bytes) (high low i : ℕ)
    → buf ≡ pre ++ high ∷ low ∷ post
    → i ≡ length pre
    → u16_at buf i ≡ ok (high * 256 + low)
unfolding u16_at
u16_at-append buf pre post high low i e ei = rw (
  byte-ok buf i high (rw e (get_elem?-append pre high (low ∷ post) i ei)),
  byte-ok buf (i + 1) low (
      rw (e, ← append_assoc pre (high ∷ []) (low ∷ post))
        (get_elem?-append (pre ++ high ∷ []) low post (i + 1)
          (omega (arith, length-append pre (high ∷ []))))),
)

copy_rdata-append :
    (buf pre xs post : Bytes) (n i : ℕ)
    → buf ≡ pre ++ (xs ++ post)
    → i ≡ length pre
    → n ≡ length xs
    → copy_rdata buf n i ≡ ok xs
unfolding copy_rdata
copy_rdata-append buf pre [] post zero i e ei en = refl
copy_rdata-append buf pre [] post (suc n) i e ei en = absurd (omega arith)
copy_rdata-append buf pre (x ∷ xs) post zero i e ei en = absurd (omega arith)
copy_rdata-append buf pre (x ∷ xs) post (suc n) i e ei en = rw (
  byte-ok buf i x (rw e (get_elem?-append pre x (xs ++ post) i ei)),
  copy_rdata-append buf (pre ++ x ∷ []) xs post n (i + 1)
      (e ∙ sym (append_assoc pre (x ∷ []) (xs ++ post))) (omega (arith, length-append pre (x ∷ [])))
      (omega arith),
)

-- What stands where the fixed part of a reply begins: its type, its length and its address.
pub record At (buf : Bytes) (at : ℕ) (r : Reply) : Type 0 where
  pub type : u16_at buf at ≡ ok aaaa
  pub size : u16_at buf (at + 8) ≡ ok 16
  pub bytes : copy_rdata buf 16 (at + 10) ≡ ok r.address

pub At-append :
    (buf pre post : Bytes) (at : ℕ) (r : Reply)
    → IsReply r
    → buf ≡ pre ++ (fixed r ++ (r.address ++ post))
    → at ≡ length pre
    → At buf at r
At-append buf pre post at r h e ea = record {
  type =
      u16_at-append buf pre
        (r.class0 ∷ r.class1 ∷ r.ttl0 ∷ r.ttl1 ∷ r.ttl2 ∷ r.ttl3 ∷ 0 ∷ 16 ∷ (r.address ++ post)) 0
        28 at e ea;
  size =
      u16_at-append buf (pre ++ front) (r.address ++ post) 0 16 (at + 8)
        (e ∙ sym (append_assoc pre front (0 ∷ 16 ∷ (r.address ++ post))))
        (omega (arith, length-append pre front));
  bytes =
      copy_rdata-append buf (pre ++ fixed r) r.address post 16 (at + 10)
        (e ∙ sym (append_assoc pre (fixed r) (r.address ++ post)))
        (omega (arith, length-append pre (fixed r))) (sym h);
}
  where
    front : Bytes
    front = 0 ∷ 28 ∷ r.class0 ∷ r.class1 ∷ r.ttl0 ∷ r.ttl1 ∷ r.ttl2 ∷ r.ttl3 ∷ []

-- The same behind the record's name.
pub At-wire :
    (buf pre post : Bytes) (at : ℕ) (r : Reply)
    → IsReply r
    → buf ≡ pre ++ (wire r ++ post)
    → at ≡ length pre
    → At buf (at + length r.owner) r
At-wire buf pre post at r h e ea =
    At-append buf (pre ++ r.owner) post (at + length r.owner) r h (e ∙ simp append_assoc)
      (omega (arith, length-append pre r.owner))

-- The record that is stored for a reply whose fixed part stands at an index.
abbrev pub record_of : Bytes → ℕ → Reply → ResRecord
record_of name at r = record {
  name = some name;
  resource = some at;
  rdata = some (r.address ++ 0 ∷ []);
}

-- The allocations for the records succeed, and a block of sixteen bytes has room for one more.
pub record IsRoomy (alloc : Allocator) : Type 0 where
  pub names : (i n : ℕ) → alloc.for_name i n ≡ true
  pub datas : (i n : ℕ) → alloc.for_rdata i n ≡ true
  pub spare : 16 < alloc.usable 16

module _ (alloc : Allocator) (roomy : IsRoomy alloc) (buf : Bytes) (fuel : ℕ) where
  -- ReadName makes out the names of the records, the i-th at its place, and counts their bytes.
  abbrev pub Readable : (i at : ℕ) → List Reply → Type 0
  Readable i at [] = Unit
  Readable i at (r ∷ rs) =
      ((name : Bytes) × (read_name (alloc.for_name i) buf fuel at ≡ ok (some name, length r.owner)))
      × Readable (i + 1) (at + length (wire r)) rs

  read_address-reply :
      (name : Bytes) (i at : ℕ) (r : Reply)
      → At buf at r
      → read_address alloc buf fuel i (at + 10) (some name) at
        ≡ ok (stored (record_of name at r) (at + 10 + 16))
  unfolding read_address
  read_address-reply name i at r here =
      rw (here.size, roomy.datas i 0, here.bytes, lt→ltb 16 (alloc.usable 16) roomy.spare)

  pub read_answer-reply :
      (name : Bytes) (i at : ℕ) (r : Reply)
      → At buf (at + length r.owner) r
      → read_name (alloc.for_name i) buf fuel at ≡ ok (some name, length r.owner)
      → read_answer alloc buf fuel i at
        ≡ ok (stored (record_of name (at + length r.owner) r) (at + length r.owner + 10 + 16))
  unfolding read_answer
  read_answer-reply name i at r here named =
      rw (named, here.type) (read_address-reply name i (at + length r.owner) r here)

  -- What ReadRecvAnswer stores for the replies, one record for each, in order.
  abbrev pub records_of : (i at : ℕ) (rs : List Reply) → Readable i at rs → List ResRecord
  records_of i at [] names = []
  records_of i at (r ∷ rs) names =
      record_of names.0.0 (at + length r.owner) r
      ∷ records_of (i + 1) (at + length (wire r)) rs names.1

  -- ReadRecvAnswer takes a response apart: where address records stand one behind the other, with
  -- names that ReadName makes out, and the allocator is roomy, it stores one record for each, in
  -- order, with its name, the place of its fixed part, and its sixteen bytes and a zero as its data.
  pub read_answers-replies :
      (pre post : Bytes) (rs : List Reply) (n i at : ℕ) (names : Readable i at rs)
      → All IsReply rs
      → buf ≡ pre ++ (wires rs ++ post)
      → at ≡ length pre
      → n ≡ length rs
      → read_answers alloc buf fuel n i at ≡ ok (records_of i at rs names)
  unfolding read_answers
  read_answers-replies pre post [] zero i at names a e ea en = refl
  read_answers-replies pre post [] (suc n) i at names a e ea en = absurd (omega arith)
  read_answers-replies pre post (r ∷ rs) zero i at names a e ea en = absurd (omega arith)
  read_answers-replies pre post (r ∷ rs) (suc n) i at names a e ea en =
      let e' : buf ≡ pre ++ (wire r ++ (wires rs ++ post)) =
        e ∙ ap (λ x. pre ++ x) (append_assoc (wire r) (wires rs) post) in
      let next : at + length r.owner + 10 + 16 ≡ at + length (wire r) = omega (
        arith,
        length-append r.owner (fixed r ++ r.address),
        length-append (fixed r) r.address,
        a.0,
      ) in
      rw
        (
          read_answer-reply names.0.0 i at r (At-wire buf pre (wires rs ++ post) at r a.0 e' ea)
              names.0.1,
          next,
        )
        (ap (λ o. o >>= λ rest. ok (record_of names.0.0 (at + length r.owner) r ∷ rest))
          (read_answers-replies (pre ++ wire r) post rs n (i + 1) (at + length (wire r)) names.1 a.1
            (e' ∙ sym (append_assoc pre (wire r) (wires rs ++ post)))
            (omega (arith, length-append pre (wire r))) (omega arith)))
