-- ===== src/P2p/Log/Overflow.antt =====
-- One call of logging whose line does not fit in its buffer, and the two cases together.
use personal_journal.Base.{
  ℕ, zero, suc, ◌+◌, ◌-◌, ◌<◌, ◌≤◌, ◌≡◌, refl, ◌∙◌, ◌⊎◌, inl, inr, [], ◌∷◌, ◌++◌, arith, ltb, leb,
  ge→ltb, Bool-cases, length, length-set, take, set, Outcome, ok, fault, ◌>>=◌,
}
use personal_journal.Dns.Memory.{Bytes, mem_copy}
use personal_journal.P2p.Log.{put, write_text, print_bounded, print_at, Call, tag, compose}
use personal_journal.P2p.Log.Lines.{line_text, line_size, format_time-Printed, compose-fits}

-- A store runs out of the buffer, or leaves all of its 512 bytes.
abbrev Writes : Outcome Bytes → Type 0
Writes m = (m ≡ fault) ⊎ ((b : Bytes) × (m ≡ ok b) × (length b ≡ 512))

fault-bind :
    (m : Outcome Bytes) (f : Bytes → Outcome Bytes)
    → Writes m
    → ((b : Bytes) → length b ≡ 512 → f b ≡ fault)
    → (m >>= f) ≡ fault
fault-bind m f (inl e) h = rw e refl
fault-bind m f (inr (b, e, n)) h = rw e (h b n)

length-mem_copy : (buffer xs : Bytes) (i : ℕ) → length (mem_copy buffer i xs) ≡ length buffer
length-mem_copy buffer [] i = refl
length-mem_copy buffer (x ∷ xs) i =
    length-mem_copy (set buffer i x) xs (i + 1) ∙ length-set buffer i x

put-Writes : (buffer : Bytes) (i c : ℕ) → length buffer ≡ 512 → Writes (put buffer i c)
unfolding put
put-Writes buffer i c n = elim (Bool-cases (ltb i (length buffer))) [
  | inl e ↦ rw e (inr (set buffer i c, refl, length-set buffer i c ∙ n))
  | inr e ↦ rw e (inl refl)
]

put-past : (buffer : Bytes) (i c : ℕ) → length buffer ≡ 512 → 512 ≤ i → put buffer i c ≡ fault
unfolding put
put-past buffer i c n h = rw (ge→ltb i (length buffer) (omega (arith, n, h))) refl

write_text-Writes :
    (buffer text : Bytes) (ptr : ℕ) → length buffer ≡ 512 → Writes (write_text buffer ptr text)
unfolding write_text
write_text-Writes buffer text ptr n = elim (Bool-cases (leb (ptr + length text) (length buffer))) [
  | inl e ↦ rw e (inr (mem_copy buffer ptr text, refl, length-mem_copy buffer text ptr ∙ n))
  | inr e ↦ rw e (inl refl)
]

print_bounded-Writes :
    (buffer text : Bytes) (ptr cap : ℕ)
    → length buffer ≡ 512
    → Writes (print_bounded buffer ptr cap text)
unfolding print_bounded
print_bounded-Writes buffer text ptr zero n = inr (buffer, refl, n)
print_bounded-Writes buffer text ptr (suc k) n =
    write_text-Writes buffer (take k text ++ 0 ∷ []) ptr n

print_at-Writes :
    (buffer text : Bytes) (ptr : ℕ) → length buffer ≡ 512 → Writes (print_at buffer ptr text)
unfolding print_at
print_at-Writes buffer text ptr n = elim (Bool-cases (ltb 512 ptr)) [
  | inl e ↦ rw e (write_text-Writes buffer (text ++ 0 ∷ []) ptr n)
  | inr e ↦ rw e (print_bounded-Writes buffer text ptr (512 - ptr) n)
]

module _ (buffer : Bytes) (c : Call) (name : Bytes) (n : length buffer ≡ 512)
    (s : length c.stamp < 512) where
  compose-overflows : 512 < line_size c name + 2 → compose buffer c name ≡ fault
  unfolding compose
  compose-overflows h =
      let (r1, e1, n1) = format_time-Printed buffer c.stamp n s in
      rw e1 (
        fault-bind _ _ (print_at-Writes (c.stamp ++ 0 ∷ r1) (tag c name) (length c.stamp) n1)
          λ b2 n2.
            fault-bind _ _ (print_at-Writes b2 c.message (length c.stamp + length (tag c name)) n2)
              λ b3 n3.
                fault-bind _ _ (put-Writes b3 (line_size c name) 10 n3)
                  λ b4 n4. put-past b4 (line_size c name + 1) 0 n4 (omega (arith, h)))

  -- Whatever lay in the buffer, and with a time of fewer than 512 bytes: if the time, the tag and
  -- the message have at most 510 bytes, logging composes them, a newline and a zero; if they have
  -- more, it stores outside of its buffer.
  pub compose-bounds :
      ((r : Bytes) × (line_size c name + 2 ≤ 512)
        × (compose buffer c name ≡ ok (line_text c name ++ 10 ∷ 0 ∷ r)))
      ⊎ ((512 < line_size c name + 2) × (compose buffer c name ≡ fault))
  compose-bounds = elim (Bool-cases (leb (line_size c name + 2) 512)) [
    | inl e ↦
        let h : line_size c name + 2 ≤ 512 = ground arith in
        let (r, result) = compose-fits buffer c name n h in inl (r, h, result)
    | inr e ↦ let h : 512 < line_size c name + 2 = ground arith in inr (h, compose-overflows h)
  ]
