-- ===== src/Rfc6052/Config/Values.antt =====
-- The values that load_config can leave in ipv6_prefix.
use personal_journal.Base.{
  ℕ, ◌≡◌, refl, ◌⊎◌, inr, Bool, true, false, Option, none, some, List, [], ◌∷◌, if◌then◌else◌, ok,
}
use personal_journal.Dns.Memory.{Bytes, c_string}
use personal_journal.Rfc6052.Config.{
  Config, prefix_of, set_prefix, read_parameters, Mode, at_head, skipping, take_line, load_lines,
  is_comment, is_long, after_skipping, reads, load_config,
}
use personal_journal.Rfc6052.Config.Entries.{Width, w32, w40, w48, w56, w64, w96, width_bits}

-- Not set, or one of the six lengths.
abbrev pub IsSetting : ℕ → Type 0
IsSetting n = (n ≡ 0) ⊎ ((w : Width) × (n ≡ width_bits w))

data Offers : Option ℕ → Type 0 where
  nothing : Offers none
  width : (w : Width) → Offers (some (width_bits w))

-- A choice has what both of its branches have.
if-any {ℓ} : {A : Type ℓ} (P : A → Type 0) (t : Bool) (a b : A) → P a → P b → P (if t then a else b)
if-any P true a b x y = x
if-any P false a b x y = y

if-Offers :
    (t : Bool) (w : Width) (o : Option ℕ) → Offers o → Offers (if t then some (width_bits w) else o)
if-Offers true w o h = width w
if-Offers false w o h = h

prefix_of-Offers : (x y : ℕ) → Offers (prefix_of x y)
unfolding prefix_of
prefix_of-Offers x y = if-Offers _ w32 _ (
    if-Offers _ w40 _
      (if-Offers _ w48 _ (if-Offers _ w56 _ (if-Offers _ w64 _ (if-Offers _ w96 none nothing)))))

abbrev HasSetting : Config → Type 0
HasSetting c = IsSetting c.ipv6_prefix

set_prefix-HasSetting :
    (o : Option ℕ) (c : Config) → Offers o → HasSetting c → HasSetting (set_prefix o c)
unfolding set_prefix
set_prefix-HasSetting _ c nothing h = h
set_prefix-HasSetting _ c (width w) h = inr (w, refl)

read_parameters-HasSetting :
    (line : Bytes) (c : Config) → HasSetting c → HasSetting (read_parameters line c)
unfolding read_parameters
read_parameters-HasSetting line c h =
    if-any HasSetting _ _ c (set_prefix-HasSetting _ c (prefix_of-Offers _ _) h) h

after_skipping-HasSetting :
    (t : Option Bytes) (c : Config) → HasSetting c → HasSetting (after_skipping t c)
after_skipping-HasSetting none c h = h
after_skipping-HasSetting (some line) c h = read_parameters-HasSetting line c h

abbrev Leaves : Mode × Config → Type 0
Leaves (mode, c) = HasSetting c

take_line-HasSetting :
    (mode : Mode) (line : Bytes) (c : Config) → HasSetting c → HasSetting (take_line mode line c).1
unfolding take_line
take_line-HasSetting at_head line c h =
    if-any Leaves (is_comment line) _ _ h
      (if-any Leaves (is_long line) _ _ h (read_parameters-HasSetting line c h))
take_line-HasSetting (skipping t) line c h =
    if-any Leaves (is_long line) _ _ h (after_skipping-HasSetting t c h)

load_lines-HasSetting :
    (ls : List Bytes) (mode : Mode) (c : Config) → HasSetting c → HasSetting (load_lines mode ls c)
unfolding load_lines
load_lines-HasSetting [] at_head c h = h
load_lines-HasSetting [] (skipping t) c h = h
load_lines-HasSetting (l ∷ ls) at_head c h =
    load_lines-HasSetting ls _ _ (take_line-HasSetting at_head (c_string l) c h)
load_lines-HasSetting (l ∷ ls) (skipping t) c h =
    load_lines-HasSetting ls _ _ (take_line-HasSetting (skipping t) (c_string l) c h)

-- Whatever the file holds, load_config comes to an end, and leaves ipv6_prefix unset or with one of
-- the six lengths.
pub load_config-IsSetting :
    (contents : Bytes) (c : Config)
    → IsSetting c.ipv6_prefix
    → (d : Config) × (load_config (some contents) c ≡ ok d) × IsSetting d.ipv6_prefix
unfolding load_config
load_config-IsSetting contents c h = (
  load_lines at_head (reads 254 contents) c,
  refl,
  load_lines-HasSetting (reads 254 contents) at_head c h,
)
