-- ===== src/Dns/Name.antt =====
-- dns64_query_c/dns_v6/dnsquery.c: domain names in a packet (ChangetoDnsNameFormat, ReadName).
pub mod Labels
pub mod Format
pub mod Walk
pub mod Dots
pub mod RoundTrip
pub mod Loops
pub mod Traps
use personal_journal.Base.{
  ℕ, zero, suc, ◌+◌, ◌-◌, ◌*◌, ◌%◌, Bool, true, false, not, Option, none, some, List, [], ◌∷◌, ◌++◌,
  ltb, leb, ◌==◌, if◌then◌else◌, length, get_or, set, Outcome, ok, fault, out_of_fuel, ◌>>=◌,
}
use personal_journal.Dns.Memory.{Bytes, c_string, strlen, byte}

-- `for (; lock < i; lock++) *_qname++ = host[lock];` with the rounds left.
unfoldable pub copy_label : Bytes → (rounds lock : ℕ) → Bytes
copy_label host zero lock = []
copy_label host (suc n) lock = get_or host lock 0 ∷ copy_label host n (lock + 1)

-- The outer loop of ChangetoDnsNameFormat: what it stores through `_qname`, with the rounds left.
unfoldable pub name_loop : Bytes → (rounds i lock : ℕ) → Bytes
unfolding copy_label
name_loop host zero i lock = []
name_loop host (suc n) i lock =
    let after_dot = name_loop host n (i + 1) (i + 1) in
    let in_label = name_loop host n (i + 1) lock in
    if get_or host i 0 == b'.'
    then ((i - lock) % 256) ∷ (copy_label host (i - lock) lock ++ after_dot)
    else in_label

-- The bytes stored through `_qname`, and the host name, to which a dot has been appended in place.
unfoldable pub change_to_dns_name_format : Bytes → Bytes × Bytes
unfolding name_loop
change_to_dns_name_format hostname =
    let host = hostname ++ b'.' ∷ [] in (name_loop host (length host) 0 0 ++ 0 ∷ [], host)

-- The variables of ReadName: `_reader` as an index into `_buffer`, `jumped`, `*_count`,
-- `timesForRealloc`, and the bytes stored in `name`, whose number is `p`.
pub record Cursor : Type 0 where
  pub reader : ℕ
  pub jumped : Bool
  pub count : ℕ
  pub times_for_realloc : ℕ
  pub name : Bytes

-- The size of the heap block `name`: INIT_SIZE + INCREMENT * timesForRealloc.
abbrev pub capacity : ℕ → ℕ
capacity times = 256 + 64 * times

-- How a round of the reading loop ends.
pub data Round : Type 0 where
  finished : Round
  no_memory : (count : ℕ) → Round
  next : Cursor → Round

-- `offset = (*_reader) * 256 + *(_reader + 1) - 49152`, the step to it, or the store of one byte.
unfoldable pub advance : Bytes → Cursor → ℕ → Outcome Cursor
advance buf s b =
    if leb 192 b
    then (do
      low ← byte buf (s.reader + 1)
      ok (record s { reader = b * 256 + low - 49152; jumped = true }))
    else if ltb (length s.name) (capacity s.times_for_realloc)
    then ok (record s { reader = s.reader + 1; name = s.name ++ b ∷ [] })
    else fault

-- `if (jumped == 0) *_count = *_count + 1;`
abbrev pub count_up : Cursor → Cursor
count_up s = if s.jumped then s else record s { count = s.count + 1 }

-- The reallocation; `alloc n` says whether the n-th allocation of this call succeeds.
unfoldable pub grow : (ℕ → Bool) → Cursor → Round
grow alloc s =
    if leb (capacity s.times_for_realloc) s.count
    then (if alloc (s.times_for_realloc + 1)
        then next (record s { times_for_realloc = s.times_for_realloc + 1 })
        else no_memory s.count)
    else next s

unfoldable pub read_round : (ℕ → Bool) → Bytes → Cursor → Outcome Round
unfolding advance grow
read_round alloc buf s = do
  b ← byte buf s.reader
  if b == 0 then ok finished else do s' ← advance buf s b; ok (grow alloc (count_up s'))

-- What the reading loop leaves.
pub data Walked : Type 0 where
  arrived : Cursor → Walked
  starved : (count : ℕ) → Walked

unfoldable pub read_loop : (ℕ → Bool) → Bytes → (fuel : ℕ) → Cursor → Outcome Walked
unfolding read_round
read_loop alloc buf zero s = out_of_fuel
read_loop alloc buf (suc fuel) s = do
  r ← read_round alloc buf s
  elim r [
    | finished ↦ ok (arrived s)
    | no_memory count ↦ ok (starved count)
    | next s' ↦ read_loop alloc buf fuel s'
  ]

-- `for (j = 0; j < (int)p; j++) { name[i] = name[i + 1]; i = i + 1; }` with the rounds left. The
-- block is known up to the terminating zero, and a read past it is of no stored byte.
unfoldable pub shift_label : (rounds : ℕ) → Bytes → ℕ → Outcome (Bytes × ℕ)
shift_label zero name i = ok (name, i)
shift_label (suc n) name i = do c ← byte name (i + 1); shift_label n (set name i c) (i + 1)

-- The conversion of 3www6google3com to www.google.com., with fuel for the rounds.
unfoldable pub dot_loop : (fuel : ℕ) → Bytes → ℕ → Outcome (Bytes × ℕ)
unfolding shift_label
dot_loop zero name i = out_of_fuel
dot_loop (suc fuel) name i = elim (ltb i (strlen name)) [
  | true ↦ do
    (name', i') ← shift_label (get_or name i 0) name i
    dot_loop fuel (set name' i' b'.') (i' + 1)
  | false ↦ ok (name, i)
]

-- `name[p] = '\0'`, the conversion, and `name[i - 1] = '\0'`, which at `i = 0` is before the block.
unfoldable pub finish_name : Cursor → Outcome Bytes
unfolding dot_loop
finish_name s =
    if ltb (length s.name) (capacity s.times_for_realloc)
    then (do
      (name, i) ← dot_loop (length s.name + 2) (s.name ++ 0 ∷ []) 0
      if i == 0 then fault else ok (c_string (set name (i - 1) 0)))
    else fault

-- `*_count = 1` and the other variables, before the reading loop.
abbrev pub start : ℕ → Cursor
start reader = record {
  reader = reader;
  jumped = false;
  count = 1;
  times_for_realloc = 0;
  name = [];
}

-- The name that ReadName returns, `none` for NULL, and `*_count`.
unfoldable pub read_name : (ℕ → Bool) → Bytes → (fuel reader : ℕ) → Outcome (Option Bytes × ℕ)
unfolding read_loop finish_name
read_name alloc buf fuel reader = if not (alloc 0) then ok (none, 1) else do
  r ← read_loop alloc buf fuel (start reader)
  elim r [
    | starved count ↦ ok (none, count)
    | arrived s ↦ do name ← finish_name s; ok (some name, if s.jumped then s.count + 1 else s.count)
  ]
