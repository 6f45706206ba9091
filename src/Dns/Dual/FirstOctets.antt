-- ===== src/Dns/Dual/FirstOctets.antt =====
-- The list of IPv4 addresses that socketv4_gethostbyname fills.
use personal_journal.Base.{
  ℕ, zero, suc, ◌+◌, ◌≡◌, refl, ap, ap₂, ◌∙◌, true, some, List, [], ◌∷◌, ◌++◌, append_assoc, map,
  arith, length, length-append, get_or, set-append, All, ok, lt→ltb, ge→ltb,
}
use personal_journal.Dns.Memory.{Bytes}
use personal_journal.Dns.Answers.{ResRecord, u16_at}
use personal_journal.Dns.Dual.{
  DualInfo, a_record, first_octet, put_v4, store_answer_for, store_answers_for,
}

-- A record with an IPv4 address, and where its type stands in the buffer.
pub record V4Record : Type 0 where
  pub at : ℕ
  pub address : Bytes

-- As ReadRecvAnswer leaves it: the address, and a zero behind it.
abbrev pub record_of_v4 : V4Record → ResRecord
record_of_v4 r = record { name = some []; resource = some r.at; rdata = some (r.address ++ 0 ∷ []) }

pub record IsV4 (buf : Bytes) (r : V4Record) : Type 0 where
  pub type : u16_at buf r.at ≡ ok a_record
  pub size : length r.address ≡ 4

-- The first octet, and three zeros.
abbrev pub first_only : V4Record → Bytes
first_only r = get_or r.address 0 0 ∷ 0 ∷ 0 ∷ 0 ∷ []

abbrev pub dual_info : (size : ℕ) (v6_addr v4_addr : List Bytes) → DualInfo
dual_info n v6 v4 = record { size = n; v6_addr = v6; v4_addr = v4 }

get_or-append : (xs ys : Bytes) (d : ℕ) → length xs ≡ 4 → get_or (xs ++ ys) 0 d ≡ get_or xs 0 d
get_or-append [] ys d e = absurd (omega arith)
get_or-append (x ∷ xs) ys d e = refl

store_answer_for-v4 :
    (buf : Bytes) (v6 front back : List Bytes) (old : Bytes) (n : ℕ) (r : V4Record)
    → IsV4 buf r
    → n ≡ length front
    → store_answer_for true buf (dual_info n v6 (front ++ old ∷ back)) (record_of_v4 r)
      ≡ ok (dual_info (n + 1) v6 (front ++ first_only r ∷ back))
unfolding store_answer_for first_octet put_v4
store_answer_for-v4 buf v6 front back old n r h e = rw (
  h.type,
  ge→ltb (length (r.address ++ 0 ∷ [])) 4 (omega (arith, h.size, length-append r.address (0 ∷ []))),
  get_or-append r.address (0 ∷ []) 0 h.size,
  lt→ltb n (length (front ++ old ∷ back)) (omega (arith, length-append front (old ∷ back))),
  set-append front old back n (first_only r) e,
)

-- The addresses that answer an IPv4 query keep their first octet only: from records of type 1 with
-- four-octet addresses, into as many free places, the loop over the answers stores for a.b.c.d the
-- octets a.0.0.0, in the order of the records, and `size` grows by their number.
pub store_answers_for-first_only :
    (buf : Bytes) (v6 front old back : List Bytes) (rs : List V4Record) (n m : ℕ)
    → All (IsV4 buf) rs
    → n ≡ length rs
    → length old ≡ length rs
    → m ≡ length front
    → store_answers_for true buf n (dual_info m v6 (front ++ (old ++ back))) (map record_of_v4 rs)
      ≡ ok (dual_info (m + length rs) v6 (front ++ (map first_only rs ++ back)))
unfolding store_answers_for
store_answers_for-first_only buf v6 front [] back [] zero m a en eo em =
    ap (λ k. ok (dual_info k v6 (front ++ back))) (omega arith)
store_answers_for-first_only buf v6 front [] back [] (suc n) m a en eo em = absurd (omega arith)
store_answers_for-first_only buf v6 front [] back (r ∷ rs) n m a en eo em = absurd (omega arith)
store_answers_for-first_only buf v6 front (o ∷ old) back [] n m a en eo em = absurd (omega arith)
store_answers_for-first_only buf v6 front (o ∷ old) back (r ∷ rs) zero m a en eo em =
    absurd (omega arith)
store_answers_for-first_only buf v6 front (o ∷ old) back (r ∷ rs) (suc n) m a en eo em =
    rw
      (
        store_answer_for-v4 buf v6 front (old ++ back) o m r a.0 em,
        ← append_assoc front (first_only r ∷ []) (old ++ back),
      )
      (store_answers_for-first_only buf v6 (front ++ first_only r ∷ []) old back rs n (m + 1) a.1
          (omega arith) (omega arith) (omega (arith, length-append front (first_only r ∷ [])))
        ∙ ap₂ (λ k l. ok (dual_info k v6 l)) (omega arith)
            (append_assoc front (first_only r ∷ []) (map first_only rs ++ back)))
