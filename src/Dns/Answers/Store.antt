-- ===== src/Dns/Answers/Store.antt =====
-- The loop of socket_gethostbyname that takes the addresses from the records.
use personal_journal.Base.{
  ℕ, zero, suc, ◌+◌, ◌≡◌, sym, ap, ap₂, ◌∙◌, List, [], ◌∷◌, ◌++◌, append_assoc, map, arith, length,
  length-append, set, set-append, take-append, All, ok, lt→ltb, ge→ltb,
}
use personal_journal.Dns.Memory.{Bytes}
use personal_journal.Dns.Answers.{
  IpInfo, Allocator, read_address_bytes, put_address, store_answer, store_answers,
}
use personal_journal.Dns.Answers.Response.{
  Reply, IsReply, wire, wires, At, At-wire, record_of, records_of, Readable, IsRoomy,
}

abbrev pub ip_info : ℕ → List Bytes → IpInfo
ip_info n addrs = record { size = n; v6_addr = addrs }

-- The addresses of the replies, in order.
abbrev pub addresses : List Reply → List Bytes
addresses = map (λ r. r.address)

set-slot :
    (front : List Bytes) (o : Bytes) (back : List Bytes) (i : ℕ) (v : Bytes)
    → i ≡ length front
    → set (front ++ o ∷ back) i v ≡ front ++ v ∷ back
set-slot front o back i v e = set-append front o back i v e

pub store_answer-record :
    (buf : Bytes) (front back : List Bytes) (old name : Bytes) (n at : ℕ) (r : Reply)
    → IsReply r
    → At buf at r
    → n ≡ length front
    → store_answer buf (ip_info n (front ++ old ∷ back)) (record_of name at r)
      ≡ ok (ip_info (n + 1) (front ++ r.address ∷ back))
unfolding store_answer read_address_bytes put_address
store_answer-record buf front back old name n at r h here e = rw (
  here.type,
  ge→ltb (length (r.address ++ 0 ∷ [])) 16 (omega (arith, length-append r.address (0 ∷ []))),
  lt→ltb n (length (front ++ old ∷ back)) (omega (arith, length-append front (old ∷ back))),
  take-append r.address (0 ∷ []) 16 (sym h),
  set-append front old back n r.address e,
)

module _ (alloc : Allocator) (roomy : IsRoomy alloc) (buf : Bytes) (fuel : ℕ) where
  -- The addresses of a response go into the array behind those that are there, in the order of the
  -- records, and `size` grows by their number, as long as there are as many free places.
  pub store_answers-replies :
      (pre post : Bytes) (front old back : List Bytes) (rs : List Reply) (n m i at : ℕ)
      (names : Readable alloc roomy buf fuel i at rs)
      → All IsReply rs
      → buf ≡ pre ++ (wires rs ++ post)
      → at ≡ length pre
      → n ≡ length rs
      → length old ≡ length rs
      → m ≡ length front
      → store_answers buf n
          (ip_info m (front ++ (old ++ back)))
          (records_of alloc roomy buf fuel i at rs names)
        ≡ ok (ip_info (m + length rs) (front ++ (addresses rs ++ back)))
  unfolding store_answers
  store_answers-replies pre post front [] back [] zero m i at names a e ea en eo em =
      ap (λ k. ok (ip_info k (front ++ back))) (omega arith)
  store_answers-replies pre post front [] back [] (suc n) m i at names a e ea en eo em =
      absurd (omega arith)
  store_answers-replies pre post front [] back (r ∷ rs) n m i at names a e ea en eo em =
      absurd (omega arith)
  store_answers-replies pre post front (o ∷ old) back [] n m i at names a e ea en eo em =
      absurd (omega arith)
  store_answers-replies pre post front (o ∷ old) back (r ∷ rs) zero m i at names a e ea en eo em =
      absurd (omega arith)
  store_answers-replies pre post front (o ∷ old) back (r ∷ rs) (suc n) m i at names a e ea en eo
        em =
      let e' : buf ≡ pre ++ (wire r ++ (wires rs ++ post)) =
        e ∙ ap (λ x. pre ++ x) (append_assoc (wire r) (wires rs) post) in
      let here = At-wire buf pre (wires rs ++ post) at r a.0 e' ea in
      rw
        (
          store_answer-record buf front (old ++ back) o names.0.0 m (at + length r.owner) r a.0 here
              em,
          ← append_assoc front (r.address ∷ []) (old ++ back),
        )
        (store_answers-replies (pre ++ wire r) post (front ++ r.address ∷ []) old back rs n (m + 1)
            (i + 1) (at + length (wire r)) names.1 a.1
            (e' ∙ sym (append_assoc pre (wire r) (wires rs ++ post)))
            (omega (arith, length-append pre (wire r))) (omega arith) (omega arith)
            (omega (arith, length-append front (r.address ∷ [])))
          ∙ finish)
    where
      finish :
          ok (ip_info (m + 1 + length rs) ((front ++ r.address ∷ []) ++ (addresses rs ++ back)))
          ≡ ok (ip_info (m + suc (length rs)) (front ++ r.address ∷ (addresses rs ++ back)))
      finish =
          ap₂ (λ k l. ok (ip_info k l)) (omega arith)
            (append_assoc front (r.address ∷ []) (addresses rs ++ back))
