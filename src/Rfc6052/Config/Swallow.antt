-- ===== src/Rfc6052/Config/Swallow.antt =====
-- The lines that fill the buffer of load_config, and the values that it can leave.
use personal_journal.Base.{
  ℕ, zero, suc, ◌<◌, ◌≤◌, ◌≡◌, ◌≢◌, refl, ap, ◌∙◌, inl, inr, true, Option, none, some, [], ◌∷◌,
  ◌++◌, arith, eq→==, if◌then◌else◌, Bool-cases, length, length-append, get_or, All, ok,
}
use personal_journal.Dns.Memory.{Bytes}
use personal_journal.Rfc6052.Config.{
  Config, is_long, is_comment, at_head, skipping, take_line, load_lines, reads, load_config,
  after_skipping,
}
use personal_journal.Rfc6052.Config.Lines.{IsText, effect, reads-line, c_string-line, is_long-short}

get_or-past : (l : Bytes) (i : ℕ) → length l ≤ i → get_or l i 0 ≡ 0
get_or-past [] i h = refl
get_or-past (x ∷ l) zero h = absurd (omega arith)
get_or-past (x ∷ l) (suc i) h = get_or-past l i (omega arith)

-- `line[254]` is the zero behind a string of 254 bytes, never a newline.
is_long-full : (line : Bytes) → length line ≡ 254 → is_long line ≡ true
unfolding is_long
is_long-full line h = rw (eq→== (length line) 254 h, get_or-past line 254 (omega arith)) refl

-- The kept line, if it is no comment.
abbrev kept : Bytes → Option Bytes
kept line = if is_comment line then none else some line

take_line-full :
    (line : Bytes) (c : Config)
    → length line ≡ 254
    → take_line at_head line c ≡ (skipping (kept line), c)
unfolding take_line
take_line-full line c h = rw (is_long-full line h) ground arith

after_skipping-kept : (line : Bytes) (c : Config) → after_skipping (kept line) c ≡ effect line c
after_skipping-kept line c = elim (Bool-cases (is_comment line)) [
  | inl e ↦ rw e refl
  | inr e ↦ rw e refl
]

take_line-skip :
    (tmpline : Option Bytes) (line : Bytes) (c : Config)
    → length line ≢ 254
    → take_line (skipping tmpline) line c ≡ (at_head, after_skipping tmpline c)
unfolding take_line
take_line-skip tmpline line c h = rw (is_long-short line h) refl

module _ (full : Bytes) (c : Config) (texts : All IsText full) (n : length full ≡ 253) where
  -- After a line of 253 bytes and its newline.
  load_lines-full :
      (rest : Bytes)
      → load_lines at_head (reads 254 (full ++ 10 ∷ rest)) c
        ≡ load_lines (skipping (kept (full ++ 10 ∷ []))) (reads 254 rest) c
  unfolding load_lines
  load_lines-full rest =
      rw
        (
          reads-line full rest 254 texts (omega arith),
          load_lines,
          c_string-line full texts,
          take_line-full (full ++ 10 ∷ []) c (omega (arith, length-append full (10 ∷ []))),
        )
        refl

  after_full :
      (l rest : Bytes)
      → All IsText l
      → length l < 253
      → load_lines (skipping (kept (full ++ 10 ∷ []))) (reads 254 (l ++ 10 ∷ rest)) c
        ≡ load_lines at_head (reads 254 rest) (effect (full ++ 10 ∷ []) c)
  unfolding load_lines
  after_full l rest a h =
      rw
        (
          reads-line l rest 254 a (omega (arith, h)),
          load_lines,
          c_string-line l a,
          take_line-skip (kept (full ++ 10 ∷ [])) (l ++ 10 ∷ []) c
              (λ e. absurd (omega (arith, e, h, length-append l (10 ∷ [])))),
          after_skipping-kept (full ++ 10 ∷ []) c,
        )
        refl

  -- A line of exactly 253 bytes and a newline counts as one that goes on: load_config skips the line
  -- behind it, whatever it sets; and at the end of the file it returns without using the line or
  -- closing the file.
  pub load_config-full :
      (l rest : Bytes)
      → All IsText l
      → length l < 253
      → (load_config (some (full ++ 10 ∷ (l ++ 10 ∷ rest))) c
          ≡ load_config (some rest) (effect (full ++ 10 ∷ []) c))
        × (load_config (some (full ++ 10 ∷ [])) c ≡ ok (record c { left_open = true }))
  unfolding load_config load_lines reads
  load_config-full l rest a h =
      (ap ok (load_lines-full (l ++ 10 ∷ rest) ∙ after_full l rest a h), ap ok (load_lines-full []))
