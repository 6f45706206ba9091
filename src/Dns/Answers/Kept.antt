-- ===== src/Dns/Answers/Kept.antt =====
-- The loop over the answers, and what becomes of the size and the list.
use personal_journal.Base.{
  ℕ, zero, suc, ◌≤◌, ◌≡◌, refl, sym, subst, ◌⊎◌, inl, inr, List, [], ◌∷◌, arith, ltb, ◌==◌,
  Bool-cases, length, Outcome, ◌>>=◌, Yields, Yields-bind, Yields-any, Yields-mono, Option-cases,
}
use personal_journal.Dns.Memory.{Bytes}
use personal_journal.Dns.Packet.{aaaa}
use personal_journal.Dns.Answers.{
  IpInfo, ResRecord, no_record, u16_at, put_address, read_address_bytes, store_answer,
  store_answers,
}

-- The list is as it was, or longer.
abbrev pub IsKept : IpInfo → IpInfo → Type 0
IsKept old new = (new ≡ old) ⊎ (suc old.size ≤ new.size)

put_address-IsKept : (info : IpInfo) (addr : Bytes) → Yields (IsKept info) (put_address info addr)
unfolding put_address
put_address-IsKept info addr = elim (Bool-cases (ltb info.size (length info.v6_addr))) [
  | inl e ↦ rw e (inr (omega arith))
  | inr e ↦ rw e tt
]

store_answer-IsKept :
    (buf : Bytes) (info : IpInfo) (r : ResRecord) → Yields (IsKept info) (store_answer buf info r)
unfolding store_answer
store_answer-IsKept buf info r = elim (Option-cases r.resource) [
  | inl e ↦ rw (e, store_answer) tt
  | inr (at, e) ↦
      rw (e, store_answer)
        (Yields-bind (λ t. Unit) (IsKept info) (u16_at buf at) _ (Yields-any _)
          λ type _. elim (Bool-cases (type == aaaa)) [
            | inl address ↦ rw address (
                Yields-bind (λ a. Unit) (IsKept info) (read_address_bytes r.rdata)
                  (put_address info) (Yields-any _) λ addr _. put_address-IsKept info addr)
            | inr other ↦ rw other (inl refl)
          ])
]

join-IsKept : (a b c : IpInfo) → IsKept a b → IsKept b c → IsKept a c
join-IsKept a b c (inl e) h = subst (λ x. IsKept x c) e h
join-IsKept a b c (inr l) (inl e) = inr (subst (λ x. suc a.size ≤ x.size) (sym e) l)
join-IsKept a b c (inr l) (inr k) = inr (omega arith)

-- The head of the loop, and the rest.
go_on :
    (info : IpInfo) (m : Outcome IpInfo) (f : IpInfo → Outcome IpInfo)
    → Yields (IsKept info) m
    → ((b : IpInfo) → Yields (IsKept b) (f b))
    → Yields (IsKept info) (m >>= f)
go_on info m f h k =
    Yields-bind (IsKept info) (IsKept info) m f h
      λ b g. Yields-mono (IsKept b) (IsKept info) (f b) (λ c h. join-IsKept info b c g h) (k b)

pub store_answers-IsKept :
    (buf : Bytes) (n : ℕ) (info : IpInfo) (rs : List ResRecord)
    → Yields (IsKept info) (store_answers buf n info rs)
unfolding store_answers
store_answers-IsKept buf zero info rs = inl refl
store_answers-IsKept buf (suc n) info [] =
    go_on info (store_answer buf info no_record) _ (store_answer-IsKept buf info no_record)
      λ b. store_answers-IsKept buf n b []
store_answers-IsKept buf (suc n) info (r ∷ rs) =
    go_on info (store_answer buf info r) _ (store_answer-IsKept buf info r)
      λ b. store_answers-IsKept buf n b rs
