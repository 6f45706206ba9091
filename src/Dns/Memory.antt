-- ===== src/Dns/Memory.antt =====
-- C strings, buffers and the calls of string.h that dnsquery.c makes of them.
use personal_journal.Base.{
  ℕ, zero, suc, ◌+◌, ◌<◌, ◌≤◌, ◌≡◌, refl, ap, ◌∙◌, Bool, true, ◌&&◌, none, some, List, [], ◌∷◌,
  ◌++◌, append_assoc, arith, ◌==◌, length, length-append, get_elem?, lt_of_get_elem?, get_or, set,
  set-append, All, Outcome, ok, fault, Ends, Option-cases, inl, inr, take, drop,
}

-- A C string is the list of its bytes before the terminating zero; a buffer is all its bytes.
abbrev pub Bytes : Type 0
Bytes = List ℕ

-- The C string at the front of a buffer, and `strlen`.
abbrev pub c_string : Bytes → Bytes
c_string [] = []
c_string (zero ∷ xs) = []
c_string (suc c ∷ xs) = suc c ∷ c_string xs

abbrev pub strlen : Bytes → ℕ
strlen buf = length (c_string buf)

-- `0 == memcmp(buf + offset, want, sizeof want)`.
abbrev pub mem_eq : Bytes → ℕ → Bytes → Bool
mem_eq buf offset [] = true
mem_eq buf offset (x ∷ xs) = get_or buf offset 0 == x && mem_eq buf (offset + 1) xs

-- `memcpy(buf + offset, from, sizeof from)`.
abbrev pub mem_copy : Bytes → ℕ → Bytes → Bytes
mem_copy buf offset [] = buf
mem_copy buf offset (x ∷ xs) = mem_copy (set buf offset x) (offset + 1) xs

-- A read of a received packet; outside it the C reads what it may not.
unfoldable pub byte : Bytes → ℕ → Outcome ℕ
byte buf i = elim (get_elem? buf i) [ none ↦ fault | some b ↦ ok b ]

pub byte-ok : (buf : Bytes) (i b : ℕ) → get_elem? buf i ≡ some b → byte buf i ≡ ok b
unfolding byte
byte-ok buf i b e = rw (e, byte)

pub byte-Ends :
    (buf : Bytes) (i : ℕ) → Ends (λ b. (i < length buf) × (get_elem? buf i ≡ some b)) (byte buf i)
unfolding byte
byte-Ends buf i = elim (Option-cases (get_elem? buf i)) [
  | inl e ↦ rw (e, byte) tt
  | inr (b, e) ↦ rw (e, byte) (lt_of_get_elem? buf i e, refl)
]

abbrev pub IsNonzero : ℕ → Type 0
IsNonzero c = 0 < c

pub c_string-append : (d r : Bytes) → All IsNonzero d → c_string (d ++ r) ≡ d ++ c_string r
c_string-append [] r a = refl
c_string-append (zero ∷ d) r a = absurd (omega (arith, a.0))
c_string-append (suc c ∷ d) r a = ap (λ l. suc c ∷ l) (c_string-append d r a.1)

pub strlen-le : (buf : Bytes) → strlen buf ≤ length buf
strlen-le [] = omega arith
strlen-le (zero ∷ buf) = omega arith
strlen-le (suc c ∷ buf) = omega (arith, strlen-le buf)

-- A copy over as many bytes replaces them.
pub mem_copy-append :
    (pre old post xs : Bytes) (offset : ℕ)
    → offset ≡ length pre
    → length old ≡ length xs
    → mem_copy (pre ++ (old ++ post)) offset xs ≡ pre ++ (xs ++ post)
mem_copy-append pre [] post [] offset e h = refl
mem_copy-append pre [] post (x ∷ xs) offset e h = absurd (omega arith)
mem_copy-append pre (o ∷ old) post [] offset e h = absurd (omega arith)
mem_copy-append pre (o ∷ old) post (x ∷ xs) offset e h =
    rw (set-append pre o (old ++ post) offset x e, ← append_assoc pre (x ∷ []) (old ++ post))
      (mem_copy-append (pre ++ x ∷ []) old post xs (offset + 1)
          (omega (arith, length-append pre (x ∷ []))) (omega arith)
        ∙ append_assoc pre (x ∷ []) (xs ++ post))

pub take-drop :
    (n : ℕ) (xs : Bytes) → n ≤ length xs → (xs ≡ take n xs ++ drop n xs) × (length (take n xs) ≡ n)
take-drop zero xs h = (refl, refl)
take-drop (suc n) [] h = absurd (omega arith)
take-drop (suc n) (x ∷ xs) h =
    let rest = take-drop n xs (omega arith) in (ap (λ l. x ∷ l) rest.0, ap suc rest.1)
