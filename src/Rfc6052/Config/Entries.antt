-- ===== src/Rfc6052/Config/Entries.antt =====
-- A settings file as a list of remarks and settings, and what load_config reads from its text.
use personal_journal.Base.{
  ℕ, ◌<◌, ◌≡◌, refl, ap, ◌∙◌, ◌⊎◌, inl, inr, false, some, List, [], ◌∷◌, ◌++◌, append_assoc, arith,
  length, length-append, get_or, All, ok,
}
use personal_journal.Dns.Memory.{Bytes}
use personal_journal.Rfc6052.Config.{
  Config, key, skip_blanks, prefix_of, set_prefix, is_comment, read_parameters, at_head, reads,
  load_lines, load_config,
}
use personal_journal.Rfc6052.Config.Lines.{IsText, effect, load_lines-short}

-- The prefix lengths of RFC 6052 and their two digits.
pub data Width : Type 0 where
  w32 w40 w48 w56 w64 w96 : Width

abbrev pub width_bits : Width → ℕ
width_bits w32 = 32
width_bits w40 = 40
width_bits w48 = 48
width_bits w56 = 56
width_bits w64 = 64
width_bits w96 = 96

abbrev pub digits : Width → Bytes
digits w32 = 51 ∷ 50 ∷ []
digits w40 = 52 ∷ 48 ∷ []
digits w48 = 52 ∷ 56 ∷ []
digits w56 = 53 ∷ 54 ∷ []
digits w64 = 54 ∷ 52 ∷ []
digits w96 = 57 ∷ 54 ∷ []

-- `#` and a text; or blanks, the key, blanks, the digits, and any text.
pub data Entry : Type 0 where
  remark : Bytes → Entry
  setting : (before : Bytes) (between : Bytes) → Width → (tail : Bytes) → Entry

abbrev pub entry_text : Entry → Bytes
entry_text (remark t) = 35 ∷ t
entry_text (setting before between w tail) = before ++ (key ++ (between ++ (digits w ++ tail)))

abbrev pub IsBlank : ℕ → Type 0
IsBlank c = (c ≡ 32) ⊎ (c ≡ 9)

abbrev pub IsEntry : Entry → Type 0
IsEntry (remark t) = All IsText t × (length t < 252)
IsEntry (setting before between w tail) =
    All IsBlank before
    × All IsBlank between
    × All IsText tail
    × (length (entry_text (setting before between w tail)) < 253)

abbrev pub render : List Entry → Bytes
render [] = []
render (e ∷ es) = entry_text e ++ 10 ∷ render es

-- The last setting of a file decides.
abbrev pub last_setting : ℕ → List Entry → ℕ
last_setting n [] = n
last_setting n (remark t ∷ es) = last_setting n es
last_setting n (setting before between w tail ∷ es) = last_setting (width_bits w) es

All-append : (P : ℕ → Type 0) (xs ys : Bytes) → All P xs → All P ys → All P (xs ++ ys)
All-append P [] ys a b = b
All-append P (x ∷ xs) ys a b = (a.0, All-append P xs ys a.1 b)

blanks-IsText : (b : Bytes) → All IsBlank b → All IsText b
blanks-IsText [] a = tt
blanks-IsText (c ∷ b) a = (ground arith, blanks-IsText b a.1)

digits-IsText : (w : Width) → All IsText (digits w)
digits-IsText = elim [
  | w32 ↦ ground arith
  | w40 ↦ ground arith
  | w48 ↦ ground arith
  | w56 ↦ ground arith
  | w64 ↦ ground arith
  | w96 ↦ ground arith
]

skip_blanks-append : (b rest : Bytes) → All IsBlank b → skip_blanks (b ++ rest) ≡ skip_blanks rest
skip_blanks-append [] rest a = refl
skip_blanks-append (c ∷ b) rest a = elim a.0 [
  | inl e ↦ rw e (skip_blanks-append b rest a.1)
  | inr e ↦ rw e (skip_blanks-append b rest a.1)
]

read_digits :
    (w : Width) (tail : Bytes)
    → let value = skip_blanks (digits w ++ tail) in
      prefix_of (get_or value 0 0) (get_or value 1 0) ≡ some (width_bits w)
unfolding prefix_of
read_digits w32 tail = refl
read_digits w40 tail = refl
read_digits w48 tail = refl
read_digits w56 tail = refl
read_digits w64 tail = refl
read_digits w96 tail = refl

-- From the key on, the digits are found behind the blanks.
read_parameters-key :
    (before between tail : Bytes) (w : Width) (c : Config)
    → All IsBlank before
    → All IsBlank between
    → read_parameters (before ++ (key ++ (between ++ (digits w ++ tail)))) c
      ≡ record c { ipv6_prefix = width_bits w }
unfolding read_parameters set_prefix
read_parameters-key before between tail w c a b =
    rw
      (
        skip_blanks-append before (key ++ (between ++ (digits w ++ tail))) a,
        skip_blanks-append between (digits w ++ tail) b,
        read_digits w tail,
      )
      refl

is_comment-setting :
    (before rest : Bytes) → All IsBlank before → is_comment (before ++ (key ++ rest)) ≡ false
unfolding is_comment
is_comment-setting [] rest a = ground arith
is_comment-setting (x ∷ before) rest a =
    let n = length-append before (key ++ rest) in
    elim a.0 [ inl e ↦ ground arith | inr e ↦ ground arith ]

-- The newline goes to the end of the tail.
setting-newline :
    (before between tail : Bytes) (w : Width)
    → entry_text (setting before between w tail) ++ 10 ∷ []
      ≡ entry_text (setting before between w (tail ++ 10 ∷ []))
setting-newline before between tail w =
    append_assoc before (key ++ (between ++ (digits w ++ tail))) (10 ∷ [])
    ∙ ap (λ l. before ++ (key ++ l))
        (append_assoc between (digits w ++ tail) (10 ∷ [])
          ∙ ap (λ l. between ++ l) (append_assoc (digits w) tail (10 ∷ [])))

effect-setting :
    (before between tail : Bytes) (w : Width) (c : Config)
    → All IsBlank before
    → All IsBlank between
    → effect (entry_text (setting before between w tail) ++ 10 ∷ []) c
      ≡ record c { ipv6_prefix = width_bits w }
effect-setting before between tail w c a b =
    rw
      (
        setting-newline before between tail w,
        is_comment-setting before (between ++ (digits w ++ (tail ++ 10 ∷ []))) a,
        read_parameters-key before between (tail ++ 10 ∷ []) w c a b,
      )
      refl

effect-remark : (t : Bytes) (c : Config) → effect (35 ∷ t) c ≡ c
unfolding is_comment
effect-remark t c = ground arith

setting-IsText :
    (before between tail : Bytes) (w : Width)
    → All IsBlank before
    → All IsBlank between
    → All IsText tail
    → All IsText (entry_text (setting before between w tail))
setting-IsText before between tail w a b t =
    All-append IsText before (key ++ (between ++ (digits w ++ tail))) (blanks-IsText before a) (
      All-append IsText key (between ++ (digits w ++ tail)) (ground arith) (
        All-append IsText between (digits w ++ tail) (blanks-IsText between b)
          (All-append IsText (digits w) tail (digits-IsText w) t)))

-- The loop over the text of the entries.
load_lines-render :
    (es : List Entry) (c : Config)
    → All IsEntry es
    → load_lines at_head (reads 254 (render es)) c
      ≡ record c { ipv6_prefix = last_setting c.ipv6_prefix es }
unfolding load_lines reads
load_lines-render [] c a = refl
load_lines-render (remark t ∷ es) c a =
    load_lines-short (35 ∷ t) (render es) c (ground arith, a.0.0) (omega (arith, a.0.1))
    ∙ (ap (λ d. load_lines at_head (reads 254 (render es)) d) (effect-remark (t ++ 10 ∷ []) c)
        ∙ load_lines-render es c a.1)
load_lines-render (setting before between w tail ∷ es) c (a, rest) =
    load_lines-short (entry_text (setting before between w tail)) (render es) c
      (setting-IsText before between tail w a.0 a.1 a.2) a.3
    ∙ (ap (λ d. load_lines at_head (reads 254 (render es)) d)
          (effect-setting before between tail w c a.0 a.1)
        ∙ load_lines-render es (record c { ipv6_prefix = width_bits w }) rest)

-- load_config reads back a file that is written as remarks and settings, each on a line of at most
-- 252 bytes and a newline: the last setting decides, nothing is printed, and the file is closed.
pub load_config-render :
    (es : List Entry) (c : Config)
    → All IsEntry es
    → load_config (some (render es)) c
      ≡ ok (record c { ipv6_prefix = last_setting c.ipv6_prefix es })
unfolding load_config
load_config-render es c a = ap ok (load_lines-render es c a)
