-- ===== src/P2p/Transfer.antt =====
-- p2p_transfer.c: what server and peer share.
use personal_journal.Base.{
  Bool-cases, inl, inr, ℕ, zero, suc, ◌+◌, ◌*◌, ◌/◌, ◌%◌, ◌^◌, ◌≤◌, ◌<◌, ◌≡◌, refl, Bool, inl, inr,
  ◌⊎◌, none, some, List, [], ◌∷◌, ◌==◌, leb, ltb, ◌||◌, get_elem?, arith, if◌then◌else◌, Outcome,
  ok, fault, Ret, success, failure,
}

-- The entries of `s_network_type`.
pub data NetworkName : Type 0 where
  unknown public_network full_cone_nat restricted_cone_nat : NetworkName
  port_restricted_cone_nat symmetric_nat : NetworkName

abbrev pub network_names : List NetworkName
network_names =
    unknown ∷ public_network ∷ full_cone_nat ∷ restricted_cone_nat ∷ port_restricted_cone_nat
    ∷ symmetric_nat ∷ []

-- get_string_network_type, on the 32 bits of an int: from 2 ^ 31 on it is negative.
abbrev pub network_index : ℕ → ℕ
network_index n = if leb (2 ^ 31) n || ltb 5 n then 0 else n

unfoldable pub get_string_network_type : ℕ → Outcome NetworkName
get_string_network_type n = elim (get_elem? network_names (network_index n)) [
  | none ↦ fault
  | some name ↦ ok name
]

-- The bitwise and of numbers of so many bits.
abbrev pub bit_and : (bits a b : ℕ) → ℕ
bit_and zero a b = 0
bit_and (suc n) a b = a % 2 * (b % 2) + 2 * bit_and n (a / 2) (b / 2)

-- The values of Linux.
abbrev pub so_reuseaddr : ℕ
so_reuseaddr = 2

abbrev pub so_keepalive : ℕ
so_keepalive = 9

abbrev pub so_reuseport : ℕ
so_reuseport = 15

-- One `if (flag & option)` of set_sock_opt, given which options setsockopt can set: the options set
-- so far, and whether the function goes on.
abbrev pub set_option : (ℕ → Bool) → (flag option : ℕ) → List ℕ × Ret → List ℕ × Ret
set_option can flag option (done, failure) = (done, failure)
set_option can flag option (done, success) =
    if bit_and 32 flag option == 0
    then (done, success)
    else if can option
    then (option ∷ done, success)
    else (done, failure)

-- The options set, the latest first, and the result.
unfoldable pub set_sock_opt : (ℕ → Bool) → (flag : ℕ) → List ℕ × Ret
set_sock_opt can flag =
    set_option can flag so_keepalive
      (set_option can flag so_reuseport (set_option can flag so_reuseaddr ([], success)))

network_index-over : (n : ℕ) → 5 < n → network_index n ≡ 0
network_index-over n h = ground arith

-- For every int, of 32 bits, the table is read inside its bounds, and the name is that of the number
-- if it is from 0 to 5, and "UNKNOWN" if not.
pub get_string_network_type-bounds :
    (n : ℕ)
    → ((n ≤ 5)
        × ((name : NetworkName) × (get_elem? network_names n ≡ some name)
            × (get_string_network_type n ≡ ok name)))
      ⊎ ((5 < n) × (get_string_network_type n ≡ ok unknown))
unfolding get_string_network_type
get_string_network_type-bounds zero = inl (omega arith, (unknown, refl, refl))
get_string_network_type-bounds (suc zero) = inl (omega arith, (public_network, refl, refl))
get_string_network_type-bounds (suc (suc zero)) = inl (omega arith, (full_cone_nat, refl, refl))
get_string_network_type-bounds (suc (suc (suc zero))) =
    inl (omega arith, (restricted_cone_nat, refl, refl))
get_string_network_type-bounds (suc (suc (suc (suc zero)))) =
    inl (omega arith, (port_restricted_cone_nat, refl, refl))
get_string_network_type-bounds (suc (suc (suc (suc (suc zero))))) =
    inl (omega arith, (symmetric_nat, refl, refl))
get_string_network_type-bounds (suc (suc (suc (suc (suc (suc n)))))) = inr (
  omega arith,
  rw
      (
        network_index-over (suc (suc (suc (suc (suc (suc n)))))) (omega arith),
        get_string_network_type,
      )
      refl,
)

-- The options of a list that share a bit with the flag.
abbrev pub sharing : (flag : ℕ) → List ℕ → List ℕ
sharing flag [] = []
sharing flag (o ∷ os) =
    let rest = sharing flag os in if bit_and 32 flag o == 0 then rest else o ∷ rest

-- Options set one after another, until one cannot be.
abbrev pub set_each : (ℕ → Bool) → List ℕ → (done : List ℕ) → List ℕ × Ret
set_each can [] done = (done, success)
set_each can (o ∷ os) done =
    let rest = set_each can os (o ∷ done) in if can o then rest else (done, failure)

-- For every flag, and whichever options can be set, set_sock_opt sets those of SO_REUSEADDR,
-- SO_REUSEPORT and SO_KEEPALIVE that share a bit with the flag, in this order, until one cannot be
-- set; it returns 0 if all of these can.
pub set_sock_opt-sharing :
    (can : ℕ → Bool) (flag : ℕ)
    → set_sock_opt can flag
      ≡ set_each can (sharing flag (so_reuseaddr ∷ so_reuseport ∷ so_keepalive ∷ [])) []
unfolding set_sock_opt
set_sock_opt-sharing can flag = elim (Bool-cases (bit_and 32 flag 2 == 0)) [
  | inl a ↦ rw a (from_port [])
  | inr a ↦ elim (Bool-cases (can 2)) [
    | inl c ↦ rw (a, c) (from_port (2 ∷ []))
    | inr c ↦ rw (a, c) refl
  ]
]
  where
    from_alive :
        (done : List ℕ)
        → set_option can flag 9 (done, success) ≡ set_each can (sharing flag (9 ∷ [])) done
    from_alive done = elim (Bool-cases (bit_and 32 flag 9 == 0)) [
      | inl a ↦ rw a refl
      | inr a ↦ elim (Bool-cases (can 9)) [ inl c ↦ rw (a, c) refl | inr c ↦ rw (a, c) refl ]
    ]

    from_port :
        (done : List ℕ)
        → set_option can flag 9 (set_option can flag 15 (done, success))
          ≡ set_each can (sharing flag (15 ∷ 9 ∷ [])) done
    from_port done = elim (Bool-cases (bit_and 32 flag 15 == 0)) [
      | inl a ↦ rw a (from_alive done)
      | inr a ↦ elim (Bool-cases (can 15)) [
        | inl c ↦ rw (a, c) (from_alive (15 ∷ done))
        | inr c ↦ rw (a, c) refl
      ]
    ]
