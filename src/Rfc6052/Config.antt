-- ===== src/Rfc6052/Config.antt =====
-- ipv6测试/rfc6052/confload.cpp: the file setting.conf (load_config).
pub mod Lines
pub mod Entries
pub mod Swallow
pub mod Values
use personal_journal.Base.{
  ℕ, zero, suc, ◌+◌, ◌-◌, Bool, true, false, not, ◌&&◌, ◌||◌, Option, none, some, List, [], ◌∷◌,
  ltb, ◌==◌, if◌then◌else◌, length, get_or, drop, codes, Outcome, ok, fault,
}
use personal_journal.Dns.Memory.{Bytes, c_string}

-- `ipv6_prefix`, how often the message about an illegal value was printed, and whether the function
-- returned without closing the file.
pub record Config : Type 0 where
  pub ipv6_prefix : ℕ
  pub illegal : ℕ
  pub left_open : Bool

abbrev pub cons_first : ℕ → List Bytes → List Bytes
cons_first c [] = (c ∷ []) ∷ []
cons_first c (l ∷ ls) = (c ∷ l) ∷ ls

-- What the successive calls of `fgets(line, sizeof line, fp)` read: up to a newline, or as many
-- bytes as there is room for, with the room left for the line at hand.
unfoldable pub reads : (room : ℕ) → Bytes → List Bytes
reads room [] = []
reads room (c ∷ cs) =
    let ends = (c == 10) || (room == 1) in
    let rest = reads (if ends then 254 else room - 1) cs in
    if ends then (c ∷ []) ∷ rest else cons_first c rest

-- `(strlen(line) == 254) && line[254] != 10`, of a line by its bytes before the zero.
unfoldable pub is_long : Bytes → Bool
is_long line = (length line == 254) && not (get_or line 254 0 == 10)

unfoldable pub is_comment : Bytes → Bool
is_comment line =
    ltb (length line) 3
    || (get_or line 0 0 == 35 || (get_or line 0 0 == 47 && get_or line 1 0 == 47))

-- `while (line[i] == ' ' || line[i] == 9) i++;`: what stands from `line + i` on.
abbrev pub skip_blanks : Bytes → Bytes
skip_blanks [] = []
skip_blanks (c ∷ cs) = if c == 32 || c == 9 then skip_blanks cs else c ∷ cs

-- `!strncmp(line + i, key, strlen(key))`.
abbrev pub starts_with : (key line : Bytes) → Bool
starts_with [] line = true
starts_with (k ∷ ks) [] = false
starts_with (k ∷ ks) (c ∷ cs) = (k == c) && starts_with ks cs

abbrev pub key : Bytes
key = codes "ipv6_prefix"

-- The lengths that the two digits can name.
unfoldable pub prefix_of : (line_i line_i1 : ℕ) → Option ℕ
prefix_of x y =
    if x == 51 && y == 50
    then some 32
    else if x == 52 && y == 48
    then some 40
    else if x == 52 && y == 56
    then some 48
    else if x == 53 && y == 54
    then some 56
    else if x == 54 && y == 52
    then some 64
    else if x == 57 && y == 54
    then some 96
    else none

unfoldable pub set_prefix : Option ℕ → Config → Config
set_prefix none c = record c { illegal = c.illegal + 1 }
set_prefix (some n) c = record c { ipv6_prefix = n }

-- The parameters are read from a line that is no comment.
unfoldable pub read_parameters : Bytes → Config → Config
read_parameters line c =
    let at_key = skip_blanks line in
    let value = skip_blanks (drop 11 at_key) in
    if starts_with key at_key
    then set_prefix (prefix_of (get_or value 0 0) (get_or value 1 0)) c
    else c

-- Where the loop is at its next call of fgets: at the head, or skipping the rest of a long line, a
-- comment or one that is kept in `tmpline`.
pub data Mode : Type 0 where
  at_head : Mode
  skipping : (tmpline : Option Bytes) → Mode

abbrev pub after_skipping : Option Bytes → Config → Config
after_skipping none c = c
after_skipping (some tmpline) c = read_parameters tmpline c

-- What the loop does with the line that fgets has read.
unfoldable pub take_line : Mode → Bytes → Config → Mode × Config
take_line at_head line c =
    if is_comment line
    then ((if is_long line then skipping none else at_head), c)
    else if is_long line
    then (skipping (some line), c)
    else (at_head, read_parameters line c)
take_line (skipping tmpline) line c =
    if is_long line then (skipping tmpline, c) else (at_head, after_skipping tmpline c)

-- The loop over the lines; where fgets returns NULL inside a long line the function returns.
unfoldable pub load_lines : Mode → List Bytes → Config → Config
load_lines at_head [] c = c
load_lines (skipping tmpline) [] c = record c { left_open = true }
load_lines mode (l ∷ ls) c =
    let (mode', c') = take_line mode (c_string l) c in load_lines mode' ls c'

-- load_config on the contents of the file; without a file it closes the null pointer.
unfoldable pub load_config : Option Bytes → Config → Outcome Config
load_config none c = fault
load_config (some contents) c = ok (load_lines at_head (reads 254 contents) c)
