-- ===== src/Dns/Name/Walk.antt =====
-- The reading loop of ReadName over bytes that are no pointers.
use personal_journal.Base.{
  ℕ, zero, suc, ◌+◌, ◌-◌, ◌*◌, ◌<◌, ◌≡◌, refl, sym, ap, ◌∙◌, ◌⊎◌, Bool, true, false, some, [], ◌∷◌,
  ◌++◌, append_assoc, append-nil, arith, leb, if◌then◌else◌, length, length-append, get_elem?,
  get_elem?-append, All, ok, ne→==, le→leb, gt→leb,
}
use personal_journal.Dns.Memory.{Bytes, byte-ok}
use personal_journal.Dns.Name.Labels.{IsPlain}
use personal_journal.Dns.Name.{
  Cursor, capacity, count_up, next, arrived, read_round, read_loop, grow,
}

-- The cursor behind one plain byte, if memory can be had.
abbrev pub pass_byte : Cursor → ℕ → Cursor
pass_byte s c =
    let s' = count_up (record s { reader = s.reader + 1; name = s.name ++ c ∷ [] }) in
    if leb (capacity s'.times_for_realloc) s'.count
    then record s' { times_for_realloc = s'.times_for_realloc + 1 }
    else s'

unfoldable pub pass_bytes : Cursor → Bytes → Cursor
pass_bytes s [] = s
pass_bytes s (c ∷ cs) = pass_bytes (pass_byte s c) cs

-- The block `name` has room for the next `n` bytes: it grows with the count until the first jump,
-- and not after it.
pub record HasRoom (s : Cursor) (n : ℕ) : Type 0 where
  pub counted : s.count < capacity s.times_for_realloc
  pub stored : length s.name < capacity s.times_for_realloc
  pub room :
      ((s.jumped ≡ true) × (length s.name + n < capacity s.times_for_realloc))
      ⊎ ((s.jumped ≡ false) × (length s.name < s.count))

pub pass_byte-HasRoom : (s : Cursor) (c n : ℕ) → HasRoom s (suc n) → HasRoom (pass_byte s c) n
pass_byte-HasRoom s c n h = ground (arith, length-append s.name (c ∷ []))

pub pass_bytes-HasRoom :
    (s : Cursor) (cs : Bytes) (n m : ℕ)
    → m ≡ length cs + n
    → HasRoom s m
    → HasRoom (pass_bytes s cs) n
unfolding pass_bytes
pass_bytes-HasRoom s [] n m e h = let e' : m ≡ n = omega arith in rw e' at h
pass_bytes-HasRoom s (c ∷ cs) n zero e h = absurd (omega arith)
pass_bytes-HasRoom s (c ∷ cs) n (suc m) e h =
    pass_bytes-HasRoom (pass_byte s c) cs n m (omega arith) (pass_byte-HasRoom s c m h)

pub name-pass_bytes : (s : Cursor) (cs : Bytes) → (pass_bytes s cs).name ≡ s.name ++ cs
unfolding pass_bytes
name-pass_bytes s [] = sym (append-nil s.name)
name-pass_bytes s (c ∷ cs) =
    ground (arith, name-pass_bytes (pass_byte s c) cs, append_assoc s.name (c ∷ []) cs)

pub jumped-pass_bytes : (s : Cursor) (cs : Bytes) → (pass_bytes s cs).jumped ≡ s.jumped
unfolding pass_bytes
jumped-pass_bytes s [] = refl
jumped-pass_bytes s (c ∷ cs) = ground (arith, jumped-pass_bytes (pass_byte s c) cs)

pub count-pass_bytes :
    (s : Cursor) (cs : Bytes)
    → (pass_bytes s cs).count ≡ (if s.jumped then s.count else s.count + length cs)
unfolding pass_bytes
count-pass_bytes s [] = ground arith
count-pass_bytes s (c ∷ cs) = ground (arith, count-pass_bytes (pass_byte s c) cs)

pub reader-pass_bytes : (s : Cursor) (cs : Bytes) → (pass_bytes s cs).reader ≡ s.reader + length cs
unfolding pass_bytes
reader-pass_bytes s [] = omega arith
reader-pass_bytes s (c ∷ cs) = ground (arith, reader-pass_bytes (pass_byte s c) cs)

reader-pass_byte : (s : Cursor) (c i j : ℕ) → s.reader ≡ i → j ≡ i + 1 → (pass_byte s c).reader ≡ j
reader-pass_byte s c i j e e' = ground arith

module _ (alloc : ℕ → Bool) (granted : (n : ℕ) → alloc n ≡ true) (buf : Bytes) where
  read_round-byte :
      (s : Cursor) (c : ℕ)
      → get_elem? buf s.reader ≡ some c
      → IsPlain c
      → length s.name < capacity s.times_for_realloc
      → read_round alloc buf s ≡ ok (next (pass_byte s c))
  unfolding read_round
  read_round-byte s c e plain fits =
      rw (byte-ok buf s.reader c e) (ground (arith, granted (s.times_for_realloc + 1)))

  -- The loop over plain bytes.
  pub read_loop-bytes :
      (s : Cursor) (pre cs post : Bytes) (fuel f : ℕ)
      → buf ≡ pre ++ (cs ++ post)
      → s.reader ≡ length pre
      → All IsPlain cs
      → HasRoom s (length cs)
      → f ≡ length cs + fuel
      → read_loop alloc buf f s ≡ read_loop alloc buf fuel (pass_bytes s cs)
  unfolding read_loop pass_bytes
  read_loop-bytes s pre [] post fuel f e er a h ef = ap (λ n. read_loop alloc buf n s) (omega arith)
  read_loop-bytes s pre (c ∷ cs) post fuel zero e er a h ef = absurd (omega arith)
  read_loop-bytes s pre (c ∷ cs) post fuel (suc f) e er a h ef =
      rw (read_round-byte s c (rw e (get_elem?-append pre c (cs ++ post) s.reader er)) a.0 h.stored)
        (read_loop-bytes (pass_byte s c) (pre ++ c ∷ []) cs post fuel f
          (e ∙ sym (append_assoc pre (c ∷ []) (cs ++ post)))
          (reader-pass_byte s c (length pre) (length (pre ++ c ∷ [])) er
            (omega (arith, length-append pre (c ∷ []))))
          a.1 (pass_byte-HasRoom s c (length cs) h) (omega arith))

  -- The loop ends at a zero.
  pub read_loop-zero :
      (s : Cursor) (fuel : ℕ)
      → get_elem? buf s.reader ≡ some 0
      → read_loop alloc buf (suc fuel) s ≡ ok (arrived s)
  unfolding read_loop read_round
  read_loop-zero s fuel e = rw (byte-ok buf s.reader 0 e)

  -- A pointer moves the reader to its offset, and the count stays from then on.
  pub read_loop-pointer :
      (s : Cursor) (fuel high low : ℕ)
      → get_elem? buf s.reader ≡ some (192 + high)
      → get_elem? buf (s.reader + 1) ≡ some low
      → s.count < capacity s.times_for_realloc
      → read_loop alloc buf (suc fuel) s
        ≡ read_loop alloc buf fuel (record s { reader = high * 256 + low; jumped = true })
  unfolding read_loop grow
  read_loop-pointer s fuel high low e e' h =
      let target : (192 + high) * 256 + low - 49152 ≡ high * 256 + low = omega arith in
      rw (
        byte-ok buf s.reader (192 + high) e,
        byte-ok buf (s.reader + 1) low e',
        ne→== (192 + high) 0 (omega arith),
        le→leb 192 (192 + high) (omega arith),
        target,
        gt→leb (capacity s.times_for_realloc) s.count h,
      )
