-- ===== src/Dns/Nat64.antt =====
-- dns64_query_c/dns_v6/dnsquery.c: the IPv4 address inside a NAT64 address (GetSuffixZeroCount,
-- IsNat64AddrValid, ReplaceNat64WithV4IP).
pub mod Embedding
use personal_journal.Base.{
  ℕ, zero, suc, ◌+◌, ◌-◌, Bool, true, false, ◌||◌, [], ◌∷◌, ◌==◌, if◌then◌else◌, get_or,
}
use personal_journal.Dns.Memory.{Bytes, mem_eq, mem_copy}

-- `struct in6_addr` and `struct in_addr`: their octets in memory order.
abbrev pub Octets : Type 0
Octets = Bytes

-- `kWellKnownV4Addr1`, `kWellKnownV4Addr2` and their five-octet forms.
abbrev pub well_known_v4_addr1 : Octets
well_known_v4_addr1 = 192 ∷ 0 ∷ 0 ∷ 170 ∷ []

abbrev pub well_known_v4_addr2 : Octets
well_known_v4_addr2 = 192 ∷ 0 ∷ 0 ∷ 171 ∷ []

abbrev pub well_known_v4_addr1_index1 : Octets
well_known_v4_addr1_index1 = 192 ∷ 0 ∷ 0 ∷ 0 ∷ 170 ∷ []

abbrev pub well_known_v4_addr2_index1 : Octets
well_known_v4_addr2_index1 = 192 ∷ 0 ∷ 0 ∷ 0 ∷ 171 ∷ []

abbrev pub well_known_v4_addr1_index2 : Octets
well_known_v4_addr1_index2 = 192 ∷ 0 ∷ 0 ∷ 0 ∷ 170 ∷ []

abbrev pub well_known_v4_addr2_index2 : Octets
well_known_v4_addr2_index2 = 192 ∷ 0 ∷ 0 ∷ 0 ∷ 171 ∷ []

abbrev pub well_known_v4_addr1_index3 : Octets
well_known_v4_addr1_index3 = 192 ∷ 0 ∷ 0 ∷ 0 ∷ 170 ∷ []

abbrev pub well_known_v4_addr2_index3 : Octets
well_known_v4_addr2_index3 = 192 ∷ 0 ∷ 0 ∷ 0 ∷ 171 ∷ []

-- The loop of GetSuffixZeroCount with its rounds left, `i` and `zero_count`.
suffix_zero_loop : Octets → ℕ → (rounds i zero_count : ℕ) → ℕ
suffix_zero_loop buf buf_len zero i zero_count = zero_count
suffix_zero_loop buf buf_len (suc n) i zero_count =
    let more = suffix_zero_loop buf buf_len n (i + 1) (zero_count + 1) in
    if 0 == get_or buf (buf_len - 1 - i) 0 then more else zero_count

unfoldable pub get_suffix_zero_count : Octets → ℕ → ℕ
unfolding suffix_zero_loop
get_suffix_zero_count buf buf_len = suffix_zero_loop buf buf_len buf_len 0 0

-- What the switch of IsNat64AddrValid leaves in `is_valid`.
unfoldable pub is_valid_flag : Octets → Bool
unfolding get_suffix_zero_count
is_valid_flag addr =
    if count == 3
    then at 9 well_known_v4_addr1 well_known_v4_addr2
    else if count == 4
    then at 7 well_known_v4_addr1_index1 well_known_v4_addr2_index1
    else if count == 5
    then at 6 well_known_v4_addr1_index2 well_known_v4_addr2_index2
    else if count == 6
    then at 5 well_known_v4_addr1_index3 well_known_v4_addr2_index3
    else if count == 8
    then at 4 well_known_v4_addr1 well_known_v4_addr2
    else if count == 0
    then at 12 well_known_v4_addr1 well_known_v4_addr2
    else false
  where
    count : ℕ
    count = get_suffix_zero_count addr 16

    at : ℕ → Octets → Octets → Bool
    at offset a b = mem_eq addr offset a || mem_eq addr offset b

-- The function computes the flag, and ends in `return true`.
unfoldable pub is_nat64_addr_valid : Octets → Bool
unfolding is_valid_flag
is_nat64_addr_valid addr = let is_valid = is_valid_flag addr in true

unfoldable pub replace_nat64_with_v4_ip : Octets → (a b c d : ℕ) → Octets
unfolding get_suffix_zero_count
replace_nat64_with_v4_ip addr a b c d =
    if count == 3
    then mem_copy addr 9 (a ∷ b ∷ c ∷ d ∷ [])
    else if count == 4
    then copy3 7 (a ∷ []) 8 (0 ∷ []) 9 (b ∷ c ∷ d ∷ [])
    else if count == 5
    then copy3 6 (a ∷ b ∷ []) 8 (0 ∷ []) 9 (c ∷ d ∷ [])
    else if count == 6
    then copy3 5 (a ∷ b ∷ c ∷ []) 8 (0 ∷ []) 9 (d ∷ [])
    else if count == 8
    then mem_copy addr 4 (a ∷ b ∷ c ∷ d ∷ [])
    else if count == 0
    then mem_copy addr 12 (a ∷ b ∷ c ∷ d ∷ [])
    else mem_copy addr 12 (a ∷ b ∷ c ∷ d ∷ [])
  where
    count : ℕ
    count = get_suffix_zero_count addr 16

    copy3 : ℕ → Octets → ℕ → Octets → ℕ → Octets → Octets
    copy3 i x j y k z = mem_copy (mem_copy (mem_copy addr i x) j y) k z
