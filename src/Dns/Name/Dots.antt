-- ===== src/Dns/Name/Dots.antt =====
-- The conversion loop of ReadName: 3www6google3com to www.google.com.
use personal_journal.Base.{
  ℕ, zero, suc, ◌+◌, ◌<◌, ◌≡◌, refl, sym, ap, ap₂, ◌∙◌, true, false, some, List, [], ◌∷◌, ◌++◌,
  append_assoc, append-nil, arith, ltb, length, length-append, get_elem?, get_or, set,
  get_elem?-append, get_or-append, set-append, All, ok, lt→ltb, ge→ltb,
}
use personal_journal.Dns.Memory.{Bytes, c_string, strlen, byte-ok, IsNonzero, c_string-append}
use personal_journal.Dns.Name.{shift_label, dot_loop}
use personal_journal.Dns.Name.Labels.{dotted, encode, IsTextLabel, IsNonzero-append}

strlen-end :
    (d : Bytes) (i : ℕ) → All IsNonzero d → i ≡ length d → ltb i (strlen (d ++ 0 ∷ [])) ≡ false
strlen-end d i a e =
    rw (c_string-append d (0 ∷ []) a, append-nil) (ge→ltb i (length d) (omega arith))

strlen-more :
    (d r : Bytes) (i c : ℕ)
    → All IsNonzero d
    → 0 < c
    → i ≡ length d
    → ltb i (strlen (d ++ c ∷ r)) ≡ true
strlen-more d r i zero a h e = elim h [ ]
strlen-more d r i (suc c) a h e =
    rw (c_string-append d (suc c ∷ r) a)
      (lt→ltb i _ (omega (arith, length-append d (suc c ∷ c_string r))))

-- The inner loop moves a label one place down; its last byte is left behind it, twice.
shift_label-append :
    (d l rest : Bytes) (x n i j : ℕ) (name : Bytes)
    → name ≡ d ++ x ∷ (l ++ rest)
    → i ≡ length d
    → n ≡ length l
    → j ≡ i + n
    → (y : ℕ) × (shift_label n name i ≡ ok (d ++ (l ++ y ∷ rest), j))
unfolding shift_label
shift_label-append d [] rest x zero i j name e ei en ej =
    let e' : i ≡ j = omega arith in (x, ap₂ (λ a b. ok (a, b)) e e')
shift_label-append d [] rest x (suc n) i j name e ei en ej = absurd (omega arith)
shift_label-append d (c ∷ l) rest x zero i j name e ei en ej = absurd (omega arith)
shift_label-append d (c ∷ l) rest x (suc n) i j name e ei en ej =
    let at : get_elem? name (i + 1) ≡ some c =
      rw (e, ← append_assoc d (x ∷ []) (c ∷ (l ++ rest)))
        (get_elem?-append (d ++ x ∷ []) c (l ++ rest) (i + 1)
          (omega (arith, length-append d (x ∷ [])))) in
    let moved : set name i c ≡ (d ++ c ∷ []) ++ c ∷ (l ++ rest) =
      rw e (
        set-append d x (c ∷ (l ++ rest)) i c ei
        ∙ sym (append_assoc d (c ∷ []) (c ∷ (l ++ rest)))) in
    let more =
      shift_label-append (d ++ c ∷ []) l rest c n (i + 1) j (set name i c) moved
        (omega (arith, length-append d (c ∷ []))) (omega arith) (omega arith) in
    (
      more.0,
      rw (byte-ok name (i + 1) c at)
          (more.1 ∙ ap (λ b. ok (b, j)) (append_assoc d (c ∷ []) (l ++ more.0 ∷ rest))),
    )

dot_loop-stop :
    (fuel i : ℕ) (name : Bytes)
    → ltb i (strlen name) ≡ false
    → dot_loop (suc fuel) name i ≡ ok (name, i)
unfolding dot_loop
dot_loop-stop fuel i name e = rw (e, dot_loop)

dot_loop-step :
    (fuel n i i' : ℕ) (name name' : Bytes)
    → ltb i (strlen name) ≡ true
    → get_or name i 0 ≡ n
    → shift_label n name i ≡ ok (name', i')
    → dot_loop (suc fuel) name i ≡ dot_loop fuel (set name' i' b'.') (i' + 1)
unfolding dot_loop
dot_loop-step fuel n i i' name name' e here moved = rw (e, dot_loop) (rw (here, moved))

-- The conversion turns each length into the dot behind its label, and it stops at the terminating
-- zero; one round for each label is enough.
pub dot_loop-encode :
    (ls : List Bytes) (d name : Bytes) (fuel i j : ℕ)
    → All IsTextLabel ls
    → All IsNonzero d
    → name ≡ d ++ (encode ls ++ 0 ∷ [])
    → i ≡ length d
    → length ls < fuel
    → j ≡ i + length (dotted ls)
    → dot_loop fuel name i ≡ ok (d ++ (dotted ls ++ 0 ∷ []), j)
unfolding dot_loop
dot_loop-encode ls d name zero i j a nz e ei ef ej = absurd (omega arith)
dot_loop-encode [] d name (suc fuel) i j a nz e ei ef ej =
    let e' : i ≡ j = omega arith in
    dot_loop-stop fuel i name (rw e (strlen-end d i nz ei)) ∙ ap₂ (λ n b. ok (n, b)) e e'
dot_loop-encode (l ∷ ls) d name (suc fuel) i j a nz e ei ef ej =
    let rest : Bytes = encode ls ++ 0 ∷ [] in
    let e' : name ≡ d ++ length l ∷ (l ++ rest) = rw append_assoc at e in
    let moved =
      shift_label-append d l rest (length l) (length l) i (i + length l) name e' ei refl refl in
    let dot : set (d ++ (l ++ moved.0 ∷ rest)) (i + length l) b'.'
        ≡ (d ++ (l ++ b'.' ∷ [])) ++ rest =
      rw (← append_assoc d l (moved.0 ∷ rest)) (
        set-append (d ++ l) moved.0 rest (i + length l) b'.' (omega (arith, length-append d l))
        ∙ simp append_assoc) in
    dot_loop-step fuel (length l) i (i + length l) name (d ++ (l ++ moved.0 ∷ rest))
      (rw e' (strlen-more d (l ++ rest) i (length l) nz a.0.0 ei))
      (rw e' (get_or-append d (length l) (l ++ rest) i 0 ei)) moved.1
    ∙ dot_loop-encode ls (d ++ (l ++ b'.' ∷ [])) _ fuel (i + length l + 1) j a.1
        (IsNonzero-append d (l ++ b'.' ∷ []) nz
          (IsNonzero-append l (b'.' ∷ []) a.0.1 (omega arith)))
        dot (omega (arith, length-append d (l ++ b'.' ∷ []), length-append l (b'.' ∷ [])))
        (omega arith) (omega (arith, length-append l (b'.' ∷ dotted ls)))
    ∙ ap (λ b. ok (b, j)) (simp append_assoc)
