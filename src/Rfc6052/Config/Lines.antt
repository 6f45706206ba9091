-- ===== src/Rfc6052/Config/Lines.antt =====
-- How the loop of load_config takes the lines of a file that are short enough for its buffer.
use personal_journal.Base.{
  ℕ, ◌-◌, ◌<◌, ◌≡◌, ◌≢◌, refl, false, [], ◌∷◌, ◌++◌, arith, ne→==, if◌then◌else◌, length,
  length-append, All,
}
use personal_journal.Dns.Memory.{Bytes, c_string, c_string-append, IsNonzero}
use personal_journal.Rfc6052.Config.{
  Config, reads, is_long, is_comment, read_parameters, at_head, take_line, load_lines,
}

-- A byte of a line: no newline, and not the zero that ends a C string.
abbrev pub IsText : ℕ → Type 0
IsText c = (0 < c) × (c ≢ 10)

pub reads-line :
    (l rest : Bytes) (room : ℕ)
    → All IsText l
    → length l < room
    → reads room (l ++ 10 ∷ rest) ≡ (l ++ 10 ∷ []) ∷ reads 254 rest
unfolding reads
reads-line [] rest room a h = refl
reads-line (c ∷ l) rest room a h = rw (
  ne→== c 10 a.0.1,
  ne→== room 1 (omega (arith, h)),
  reads-line l rest (room - 1) a.1 (omega (arith, h)),
)

texts-IsNonzero : (l : Bytes) → All IsText l → All IsNonzero l
texts-IsNonzero [] a = tt
texts-IsNonzero (c ∷ l) a = (a.0.0, texts-IsNonzero l a.1)

pub c_string-line : (l : Bytes) → All IsText l → c_string (l ++ 10 ∷ []) ≡ l ++ 10 ∷ []
c_string-line l a = c_string-append l (10 ∷ []) (texts-IsNonzero l a)

pub is_long-short : (line : Bytes) → length line ≢ 254 → is_long line ≡ false
unfolding is_long
is_long-short line h = rw (ne→== (length line) 254 h)

-- What a line does that is not long.
abbrev pub effect : Bytes → Config → Config
effect line c = if is_comment line then c else read_parameters line c

take_line-short :
    (line : Bytes) (c : Config)
    → length line ≢ 254
    → take_line at_head line c ≡ (at_head, effect line c)
unfolding take_line
take_line-short line c h = rw (is_long-short line h) ground arith

-- A line of at most 252 bytes and its newline.
pub load_lines-short :
    (l rest : Bytes) (c : Config)
    → All IsText l
    → length l < 253
    → load_lines at_head (reads 254 (l ++ 10 ∷ rest)) c
      ≡ load_lines at_head (reads 254 rest) (effect (l ++ 10 ∷ []) c)
unfolding load_lines
load_lines-short l rest c a h =
    rw
      (
        reads-line l rest 254 a (omega (arith, h)),
        load_lines,
        c_string-line l a,
        take_line-short (l ++ 10 ∷ []) c
            (λ e. absurd (omega (arith, e, h, length-append l (10 ∷ [])))),
      )
      refl
