-- ===== src/Dns/Answers/Mixed.antt =====
-- Responses with other records among the addresses, as that of an alias has.
use personal_journal.Base.{
  ℕ, zero, suc, ◌+◌, ◌*◌, ◌≡◌, ◌≢◌, refl, sym, ap, ap₂, ◌∙◌, Option, some, List, [], ◌∷◌, ◌++◌,
  append_assoc, arith, length, length-append, All, ok, ◌>>=◌, ne→==,
}
use personal_journal.Dns.Memory.{Bytes}
use personal_journal.Dns.Name.{read_name}
use personal_journal.Dns.Packet.{aaaa}
use personal_journal.Dns.Answers.{
  IpInfo, ResRecord, Allocator, stored, u16_at, read_other, read_answer, read_answers, store_answer,
  store_answers,
}
use personal_journal.Dns.Answers.Response.{
  Reply, IsReply, fixed, wire, At-wire, IsRoomy, record_of, read_answer-reply, u16_at-append,
}
use personal_journal.Dns.Answers.Store.{ip_info, store_answer-record}

-- A record of another type: the form of its name, its type, the eight bytes up to its data, and the
-- form of the name that is its data.
pub record Alias : Type 0 where
  pub owner : Bytes
  pub type0 : ℕ
  pub type1 : ℕ
  pub middle : Bytes
  pub target : Bytes

pub data Answer : Type 0 where
  address : Reply → Answer
  alias : Alias → Answer

abbrev pub wire_of : Answer → Bytes
wire_of (address r) = wire r
wire_of (alias r) = r.owner ++ r.type0 ∷ r.type1 ∷ (r.middle ++ r.target)

abbrev pub wires_of : List Answer → Bytes
wires_of [] = []
wires_of (a ∷ xs) = wire_of a ++ wires_of xs

abbrev pub IsAnswer : Answer → Type 0
IsAnswer (address r) = IsReply r
IsAnswer (alias r) = (r.type0 * 256 + r.type1 ≢ aaaa) × (length r.middle ≡ 8)

-- The addresses among the answers, in order.
abbrev pub wanted : List Answer → List Bytes
wanted [] = []
wanted (address r ∷ xs) = r.address ∷ wanted xs
wanted (alias r ∷ xs) = wanted xs

module _ (alloc : Allocator) (roomy : IsRoomy alloc) (buf : Bytes) (fuel : ℕ) where
  -- What ReadName makes of the names of the i-th record, which it counts with their bytes.
  abbrev pub Names : (i at : ℕ) → Answer → Type 0
  Names i at (address r) =
      (name : Bytes) × (read_name (alloc.for_name i) buf fuel at ≡ ok (some name, length r.owner))
  Names i at (alias r) =
      ((name : Option Bytes) × (read_name (alloc.for_name i) buf fuel at
          ≡ ok (name, length r.owner)))
      × ((text : Option Bytes) × (read_name (alloc.for_rdata i) buf fuel (at + length r.owner + 10)
            ≡ ok (text, length r.target)))

  abbrev pub AllNames : (i at : ℕ) → List Answer → Type 0
  AllNames i at [] = Unit
  AllNames i at (a ∷ xs) = Names i at a × AllNames (i + 1) (at + length (wire_of a)) xs

  abbrev pub kept : (i at : ℕ) (a : Answer) → Names i at a → ResRecord
  kept i at (address r) names = record_of names.0 (at + length r.owner) r
  kept i at (alias r) names = record {
    name = names.0.0;
    resource = some (at + length r.owner);
    rdata = names.1.0;
  }

  abbrev pub all_kept : (i at : ℕ) (xs : List Answer) → AllNames i at xs → List ResRecord
  all_kept i at [] names = []
  all_kept i at (a ∷ xs) names =
      kept i at a names.0 ∷ all_kept (i + 1) (at + length (wire_of a)) xs names.1

  alias-type :
      (pre post : Bytes) (at : ℕ) (r : Alias)
      → buf ≡ pre ++ (wire_of (alias r) ++ post)
      → at ≡ length pre
      → u16_at buf (at + length r.owner) ≡ ok (r.type0 * 256 + r.type1)
  alias-type pre post at r e ea =
      u16_at-append buf (pre ++ r.owner) ((r.middle ++ r.target) ++ post) r.type0 r.type1
        (at + length r.owner) (e ∙ simp append_assoc) (omega (arith, length-append pre r.owner))

  read_answer-kept :
      (pre post : Bytes) (i at : ℕ) (a : Answer) (names : Names i at a)
      → IsAnswer a
      → buf ≡ pre ++ (wire_of a ++ post)
      → at ≡ length pre
      → read_answer alloc buf fuel i at ≡ ok (stored (kept i at a names) (at + length (wire_of a)))
  unfolding read_answer read_other
  read_answer-kept pre post i at (address r) names h e ea =
      read_answer-reply alloc roomy buf fuel names.0 i at r (At-wire buf pre post at r h e ea)
        names.1
      ∙ ap (λ k. ok (stored (record_of names.0 (at + length r.owner) r) k))
          (omega (
            arith,
            length-append r.owner (fixed r ++ r.address),
            length-append (fixed r) r.address,
            h,
          ))
  read_answer-kept pre post i at (alias r) names h e ea =
      rw
        (
          names.0.1,
          alias-type pre post at r e ea,
          ne→== (r.type0 * 256 + r.type1) aaaa h.0,
          names.1.1,
        )
        (ap (λ k. ok (stored (kept i at (alias r) names) k))
          (omega (
            arith,
            length-append r.owner (r.type0 ∷ r.type1 ∷ (r.middle ++ r.target)),
            length-append r.middle r.target,
            h.1,
          )))

  step_in :
      (pre post : Bytes) (x : Answer) (xs : List Answer)
      → buf ≡ pre ++ (wires_of (x ∷ xs) ++ post)
      → (buf ≡ pre ++ (wire_of x ++ (wires_of xs ++ post)))
        × (buf ≡ (pre ++ wire_of x) ++ (wires_of xs ++ post))
  step_in pre post x xs e =
      let e' = e ∙ ap (λ r. pre ++ r) (append_assoc (wire_of x) (wires_of xs) post) in
      (e', e' ∙ sym (append_assoc pre (wire_of x) (wires_of xs ++ post)))

  pub read_answers-kept :
      (pre post : Bytes) (xs : List Answer) (n i at : ℕ) (names : AllNames i at xs)
      → All IsAnswer xs
      → buf ≡ pre ++ (wires_of xs ++ post)
      → at ≡ length pre
      → n ≡ length xs
      → read_answers alloc buf fuel n i at ≡ ok (all_kept i at xs names)
  unfolding read_answers
  read_answers-kept pre post [] zero i at names a e ea en = refl
  read_answers-kept pre post [] (suc n) i at names a e ea en = absurd (omega arith)
  read_answers-kept pre post (x ∷ xs) zero i at names a e ea en = absurd (omega arith)
  read_answers-kept pre post (x ∷ xs) (suc n) i at names a e ea en =
      let (e1, e2) = step_in pre post x xs e in
      rw (read_answer-kept pre (wires_of xs ++ post) i at x names.0 a.0 e1 ea) (
        ap (λ o. o >>= λ rest. ok (kept i at x names.0 ∷ rest))
          (read_answers-kept (pre ++ wire_of x) post xs n (i + 1) (at + length (wire_of x)) names.1
            a.1 e2 (omega (arith, length-append pre (wire_of x))) (omega arith)))

  store_answer-alias :
      (pre post : Bytes) (i at : ℕ) (r : Alias) (names : Names i at (alias r)) (info : IpInfo)
      → IsAnswer (alias r)
      → buf ≡ pre ++ (wire_of (alias r) ++ post)
      → at ≡ length pre
      → store_answer buf info (kept i at (alias r) names) ≡ ok info
  unfolding store_answer
  store_answer-alias pre post i at r names info h e ea =
      rw (alias-type pre post at r e ea, ne→== (r.type0 * 256 + r.type1) aaaa h.0)

  pub store_answers-kept :
      (pre post : Bytes) (front old back : List Bytes) (xs : List Answer) (n m i at : ℕ)
      (names : AllNames i at xs)
      → All IsAnswer xs
      → buf ≡ pre ++ (wires_of xs ++ post)
      → at ≡ length pre
      → n ≡ length xs
      → length old ≡ length (wanted xs)
      → m ≡ length front
      → store_answers buf n (ip_info m (front ++ (old ++ back))) (all_kept i at xs names)
        ≡ ok (ip_info (m + length (wanted xs)) (front ++ (wanted xs ++ back)))
  unfolding store_answers
  store_answers-kept pre post front [] back [] zero m i at names a e ea en eo em =
      ap (λ k. ok (ip_info k (front ++ back))) (omega arith)
  store_answers-kept pre post front (o ∷ old) back [] zero m i at names a e ea en eo em =
      absurd (omega arith)
  store_answers-kept pre post front old back [] (suc n) m i at names a e ea en eo em =
      absurd (omega arith)
  store_answers-kept pre post front old back (x ∷ xs) zero m i at names a e ea en eo em =
      absurd (omega arith)
  store_answers-kept pre post front old back (alias r ∷ xs) (suc n) m i at names a e ea en eo em =
      let (e1, e2) = step_in pre post (alias r) xs e in
      rw
        (store_answer-alias pre (wires_of xs ++ post) i at r names.0
          (ip_info m (front ++ (old ++ back))) a.0 e1 ea)
        (store_answers-kept (pre ++ wire_of (alias r)) post front old back xs n m (i + 1)
          (at + length (wire_of (alias r))) names.1 a.1 e2
          (omega (arith, length-append pre (wire_of (alias r)))) (omega arith) eo em)
  store_answers-kept pre post front [] back (address r ∷ xs) (suc n) m i at names a e ea en eo em =
      absurd (omega arith)
  store_answers-kept pre post front (o ∷ old) back (address r ∷ xs) (suc n) m i at names a e ea en
        eo em =
      let (e1, e2) = step_in pre post (address r) xs e in
      rw
        (
          store_answer-record buf front (old ++ back) o names.0.0 m (at + length r.owner) r a.0
              (At-wire buf pre (wires_of xs ++ post) at r a.0 e1 ea) em,
          ← append_assoc front (r.address ∷ []) (old ++ back),
        )
        (store_answers-kept (pre ++ wire r) post (front ++ r.address ∷ []) old back xs n (m + 1)
            (i + 1) (at + length (wire r)) names.1 a.1 e2
            (omega (arith, length-append pre (wire r))) (omega arith) (omega arith)
            (omega (arith, length-append front (r.address ∷ [])))
          ∙ ap₂ (λ k l. ok (ip_info k l)) (omega arith)
              (append_assoc front (r.address ∷ []) (wanted xs ++ back)))
