-- ===== src/Dns/Nat64/Embedding.antt =====
-- RFC 6052: an IPv4 address embedded behind a NAT64 prefix, and the functions of dnsquery.c that
-- look for one.
use personal_journal.Base.{
  ℕ, ◌-◌, ◌≡◌, refl, ◌≢◌, ◌↔◌, ◌⊎◌, inl, inr, Bool, true, false, ◌||◌, ◌&&◌, [], ◌∷◌, ◌++◌, arith,
  length, take, drop, replicate, ◌==◌, Bool-cases,
}
use personal_journal.Dns.Nat64.{
  Octets, is_valid_flag, is_nat64_addr_valid, replace_nat64_with_v4_ip,
}

-- A prefix of 32, 40, 48, 56, 64 or 96 bits, by its octets.
pub data Prefix : Type 0 where
  pref32 : (p0 p1 p2 p3 : ℕ) → Prefix
  pref40 : (p0 p1 p2 p3 p4 : ℕ) → Prefix
  pref48 : (p0 p1 p2 p3 p4 p5 : ℕ) → Prefix
  pref56 : (p0 p1 p2 p3 p4 p5 p6 : ℕ) → Prefix
  pref64 : (p0 p1 p2 p3 p4 p5 p6 p7 : ℕ) → Prefix
  pref96 : (p0 p1 p2 p3 p4 p5 p6 p7 p8 p9 p10 p11 : ℕ) → Prefix

abbrev pub prefix_octets : Prefix → Octets
prefix_octets (pref32 p0 p1 p2 p3) = p0 ∷ p1 ∷ p2 ∷ p3 ∷ []
prefix_octets (pref40 p0 p1 p2 p3 p4) = p0 ∷ p1 ∷ p2 ∷ p3 ∷ p4 ∷ []
prefix_octets (pref48 p0 p1 p2 p3 p4 p5) = p0 ∷ p1 ∷ p2 ∷ p3 ∷ p4 ∷ p5 ∷ []
prefix_octets (pref56 p0 p1 p2 p3 p4 p5 p6) = p0 ∷ p1 ∷ p2 ∷ p3 ∷ p4 ∷ p5 ∷ p6 ∷ []
prefix_octets (pref64 p0 p1 p2 p3 p4 p5 p6 p7) = p0 ∷ p1 ∷ p2 ∷ p3 ∷ p4 ∷ p5 ∷ p6 ∷ p7 ∷ []
prefix_octets (pref96 p0 p1 p2 p3 p4 p5 p6 p7 p8 p9 p10 p11) =
    p0 ∷ p1 ∷ p2 ∷ p3 ∷ p4 ∷ p5 ∷ p6 ∷ p7 ∷ p8 ∷ p9 ∷ p10 ∷ p11 ∷ []

-- Bits 64 to 71 are zero in every format but that of 96 bits, whose prefix holds them.
abbrev pub insert_u : Prefix → Octets → Octets
insert_u (pref96 _ _ _ _ _ _ _ _ _ _ _ _) l = l
insert_u p l = take 8 l ++ 0 ∷ drop 8 l

abbrev pub pad : Octets → Octets
pad l = l ++ replicate (16 - length l) 0

-- RFC 6052, section 2.2: the prefix, the address round the zero octet, and a suffix of zeros.
abbrev pub embed : Prefix → Octets → Octets
embed p v4 = pad (insert_u p (prefix_octets p ++ v4))

-- The address that DNS64 servers synthesise for ipv4only.arpa (RFC 7050) holds one of these.
abbrev pub IsWellKnown : ℕ → Type 0
IsWellKnown w = (w ≡ 170) ⊎ (w ≡ 171)

abbrev pub AreWellKnown : (x y z w : ℕ) → Type 0
AreWellKnown x y z w = (x ≡ 192) × (y ≡ 0) × (z ≡ 0) × IsWellKnown w

ne→==_zero : (w : ℕ) → w ≢ 0 → (0 == w) ≡ false
ne→==_zero w h = ground arith

-- ReplaceNat64WithV4IP puts the new address exactly where RFC 6052 wants it, for every prefix
-- length: an embedding of an address whose last octet is not zero becomes the embedding of the new
-- address behind the same prefix.
pub replace-embed :
    (p : Prefix) (x y z w a b c d : ℕ)
    → w ≢ 0
    → replace_nat64_with_v4_ip (embed p (x ∷ y ∷ z ∷ w ∷ [])) a b c d ≡ embed p (a ∷ b ∷ c ∷ d ∷ [])
unfolding replace_nat64_with_v4_ip
replace-embed (pref32 _ _ _ _) x y z w a b c d h = rw (ne→==_zero w h)
replace-embed (pref40 _ _ _ _ _) x y z w a b c d h = rw (ne→==_zero w h)
replace-embed (pref48 _ _ _ _ _ _) x y z w a b c d h = rw (ne→==_zero w h)
replace-embed (pref56 _ _ _ _ _ _ _) x y z w a b c d h = rw (ne→==_zero w h)
replace-embed (pref64 _ _ _ _ _ _ _ _) x y z w a b c d h = rw (ne→==_zero w h)
replace-embed (pref96 _ _ _ _ _ _ _ _ _ _ _ _) x y z w a b c d h = rw (ne→==_zero w h)

-- The test that the switch makes of the four octets.
is_well_known : (x y z w : ℕ) → Bool
is_well_known x y z w =
    (x == 192 && (y == 0 && (z == 0 && (w == 170 && true))))
    || (x == 192 && (y == 0 && (z == 0 && (w == 171 && true))))

flag-embed_at :
    (p : Prefix) (x y z w : ℕ)
    → (0 == w) ≡ false
    → is_valid_flag (embed p (x ∷ y ∷ z ∷ w ∷ [])) ≡ is_well_known x y z w
unfolding is_valid_flag is_well_known
flag-embed_at (pref32 _ _ _ _) x y z w h = rw h
flag-embed_at (pref40 _ _ _ _ _) x y z w h = rw h
flag-embed_at (pref48 _ _ _ _ _ _) x y z w h = rw h
flag-embed_at (pref56 _ _ _ _ _ _ _) x y z w h = rw h
flag-embed_at (pref64 _ _ _ _ _ _ _ _) x y z w h = rw h
flag-embed_at (pref96 _ _ _ _ _ _ _ _ _ _ _ _) x y z w h = rw h

is_well_known_iff : (x y z w : ℕ) → (is_well_known x y z w ≡ true) ↔ AreWellKnown x y z w
unfolding is_well_known
is_well_known_iff x y z w = ground arith

-- The flag that IsNat64AddrValid computes is exact on embeddings: behind each prefix length, and
-- for each address whose last octet is not zero, it is true just when the address is 192.0.0.170
-- or 192.0.0.171.
pub is_valid_flag-embed :
    (p : Prefix) (x y z w : ℕ)
    → w ≢ 0
    → (is_valid_flag (embed p (x ∷ y ∷ z ∷ w ∷ [])) ≡ true) ↔ AreWellKnown x y z w
is_valid_flag-embed p x y z w h =
    rw (flag-embed_at p x y z w (ground arith)) (is_well_known_iff x y z w)

-- IsNat64AddrValid does not return that flag: every embedding of an address that is not well known,
-- whose last octet is not zero, has the flag false and is still accepted.
pub is_nat64_addr_valid-embed :
    (p : Prefix) (x y z w : ℕ)
    → w ≢ 0
    → ¬ AreWellKnown x y z w
    → (is_valid_flag (embed p (x ∷ y ∷ z ∷ w ∷ [])) ≡ false)
      × (is_nat64_addr_valid (embed p (x ∷ y ∷ z ∷ w ∷ [])) ≡ true)
unfolding is_nat64_addr_valid
is_nat64_addr_valid-embed p x y z w h other = elim (Bool-cases flag) [
  | inl yes' ↦ absurd (other ((is_valid_flag-embed p x y z w h).0 yes'))
  | inr no' ↦ (no', refl)
]
  where
    flag : Bool
    flag = is_valid_flag (embed p (x ∷ y ∷ z ∷ w ∷ []))
