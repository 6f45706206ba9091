-- ===== src/P2p/Log/Lines.antt =====
-- One call of logging: the line that it composes in its buffer of 512 bytes.
use personal_journal.Base.{
  ℕ, zero, suc, ◌+◌, ◌-◌, ◌<◌, ◌≤◌, ◌≡◌, refl, sym, ap, ◌∙◌, [], ◌∷◌, ◌++◌, append_assoc, arith,
  lt→ltb, ge→ltb, le→leb, length, length-append, set-append, take, drop, Outcome, ok, ◌>>=◌,
}
use personal_journal.Dns.Memory.{Bytes, mem_copy, mem_copy-append, take-drop}
use personal_journal.P2p.Log.{
  put, write_text, print_bounded, print_at, format_time, Call, tag, compose,
}

take-over : (n : ℕ) (xs : Bytes) → length xs ≤ n → take n xs ≡ xs
take-over zero [] h = refl
take-over zero (x ∷ xs) h = absurd (omega arith)
take-over (suc n) [] h = refl
take-over (suc n) (x ∷ xs) h = ap (λ l. x ∷ l) (take-over n xs (omega arith))

write_text-front :
    (pre rest text : Bytes) (ptr : ℕ)
    → ptr ≡ length pre
    → length text ≤ length rest
    → write_text (pre ++ rest) ptr text ≡ ok (pre ++ (text ++ drop (length text) rest))
unfolding write_text
write_text-front pre rest text ptr e h =
    let parts = take-drop (length text) rest h in
    rw (le→leb (ptr + length text) (length (pre ++ rest)) (omega (arith, length-append pre rest))) (
      ap ok (
        ap (λ l. mem_copy (pre ++ l) ptr text) parts.0
        ∙ mem_copy-append pre (take (length text) rest) (drop (length text) rest) text ptr e
            parts.1))

length-drop : (n : ℕ) (xs : Bytes) → n ≤ length xs → length (drop n xs) ≡ length xs - n
length-drop zero xs h = omega arith
length-drop (suc n) [] h = absurd (omega arith)
length-drop (suc n) (x ∷ xs) h = omega (arith, length-drop n xs (omega arith))

-- A text that fits, with its zero, behind what is already there.
pub record Printed (pre text : Bytes) (m : Outcome Bytes) : Type 0 where
  pub rest : Bytes
  pub result : m ≡ ok ((pre ++ text) ++ 0 ∷ rest)
  pub whole : length ((pre ++ text) ++ 0 ∷ rest) ≡ 512

zero_last : (pre text rest : Bytes) → pre ++ ((text ++ 0 ∷ []) ++ rest) ≡ (pre ++ text) ++ 0 ∷ rest
zero_last pre text rest =
    ap (λ l. pre ++ l) (append_assoc text (0 ∷ []) rest) ∙ sym (append_assoc pre text (0 ∷ rest))

print_at-Printed :
    (pre rest text : Bytes) (ptr : ℕ)
    → ptr ≡ length pre
    → length (pre ++ rest) ≡ 512
    → length text < length rest
    → Printed pre text (print_at (pre ++ rest) ptr text)
unfolding print_at print_bounded
print_at-Printed pre rest text ptr e n h =
    let total = length-append pre rest in
    let left = drop (length (text ++ 0 ∷ [])) rest in
    let zeroed = length-append text (0 ∷ []) in
    let room : 512 - ptr ≡ suc (511 - ptr) = omega (arith, e, n, h, total) in
    record {
      rest = left;
      result =
          rw
            (
              ge→ltb 512 ptr (omega (arith, e, n, h, total)),
              room,
              take-over (511 - ptr) text (omega (arith, e, n, h, total)),
            )
            (write_text-front pre rest (text ++ 0 ∷ []) ptr e (omega (arith, zeroed, h))
              ∙ ap ok (zero_last pre text left));
      whole = omega (
        arith,
        n,
        total,
        h,
        zeroed,
        length-append (pre ++ text) (0 ∷ left),
        length-append pre text,
        length-drop (length (text ++ 0 ∷ [])) rest (omega (arith, zeroed, h)),
      );
    }

put-inside :
    (pre rest : Bytes) (x i c : ℕ)
    → i ≡ length pre
    → put (pre ++ x ∷ rest) i c ≡ ok (pre ++ c ∷ rest)
unfolding put
put-inside pre rest x i c e =
    rw (lt→ltb i (length (pre ++ x ∷ rest)) (omega (arith, e, length-append pre (x ∷ rest))))
      (ap ok (set-append pre x rest i c e))

-- The last two stores.
put_two :
    (pre rest : Bytes) (x y i : ℕ)
    → i ≡ length pre
    → (put (pre ++ x ∷ y ∷ rest) i 10 >>= λ buffer. put buffer (i + 1) 0)
      ≡ ok (pre ++ 10 ∷ 0 ∷ rest)
put_two pre rest x y i e =
    rw
      (
        put-inside pre (y ∷ rest) x i 10 e,
        ← append_assoc pre (10 ∷ []) (y ∷ rest),
        put-inside (pre ++ 10 ∷ []) rest y (i + 1) 0
            (omega (arith, e, length-append pre (10 ∷ []))),
      )
      (ap ok (append_assoc pre (10 ∷ []) (0 ∷ rest)))

-- The text of the line, and how many bytes it has before the newline.
abbrev pub line_text : Call → (name : Bytes) → Bytes
line_text c name = (c.stamp ++ tag c name) ++ c.message

abbrev pub line_size : Call → (name : Bytes) → ℕ
line_size c name = length c.stamp + length (tag c name) + length c.message

length-line_text : (c : Call) (name : Bytes) → length (line_text c name) ≡ line_size c name
length-line_text c name =
    omega
      (arith, length-append (c.stamp ++ tag c name) c.message, length-append c.stamp (tag c name))

pub format_time-Printed :
    (buffer stamp : Bytes)
    → length buffer ≡ 512
    → length stamp < 512
    → (r : Bytes) × (format_time buffer stamp ≡ ok (stamp ++ 0 ∷ r, length stamp))
      × (length (stamp ++ 0 ∷ r) ≡ 512)
unfolding format_time
format_time-Printed buffer stamp n h =
    let p = print_at-Printed [] buffer stamp 0 refl n (omega (arith, n, h)) in
    (p.rest, rw (lt→ltb (length stamp) 512 h, p.result) refl, p.whole)

first_of : (l : Bytes) → 0 < length l → (x : ℕ) × (r : Bytes) × (l ≡ x ∷ r)
first_of [] h = absurd (omega arith)
first_of (x ∷ r) h = (x, r, refl)

module _ (buffer : Bytes) (c : Call) (name : Bytes) (n : length buffer ≡ 512) where
  -- What the four stores leave of a line that fits.
  pub compose-fits :
      line_size c name + 2 ≤ 512
      → (r : Bytes) × (compose buffer c name ≡ ok (line_text c name ++ 10 ∷ 0 ∷ r))
  unfolding compose
  compose-fits h =
      let (r1, e1, n1) = format_time-Printed buffer c.stamp n (omega (arith, h)) in
      let p2 =
        print_at-Printed c.stamp (0 ∷ r1) (tag c name) (length c.stamp) refl n1
          (omega (arith, h, n1, length-append c.stamp (0 ∷ r1))) in
      let start = c.stamp ++ tag c name in
      let size = length-append c.stamp (tag c name) in
      let p3 =
        print_at-Printed start (0 ∷ p2.rest) c.message (length c.stamp + length (tag c name))
          (omega (arith, size)) p2.whole
          (omega (arith, h, size, p2.whole, length-append start (0 ∷ p2.rest))) in
      let (x, r, e) = first_of p3.rest (
        omega (
          arith,
          h,
          p3.whole,
          length-append (line_text c name) (0 ∷ p3.rest),
          length-line_text c name,
        )) in
      (
        r,
        rw (e1, p2.result, p3.result, e)
            (put_two (line_text c name) r 0 x (line_size c name)
              (omega (arith, length-line_text c name))),
      )
