-- ===== src/Rfc6052/Address/Embed.antt =====
-- ipv4toipv6 against RFC 6052.
use personal_journal.Base.{
  ℕ, zero, suc, ◌+◌, ◌*◌, ◌<◌, ◌≡◌, refl, sym, ap, ◌∙◌, some, [], ◌∷◌, ◌++◌, append-nil,
  append_assoc, arith, length, length-append, set-append, take, drop, replicate,
}
use personal_journal.Dns.Memory.{Bytes, mem_copy, mem_copy-append, take-drop}
use personal_journal.Dns.Nat64.{Octets}
use personal_journal.Dns.Nat64.Embedding.{
  Prefix, pref32, pref40, pref48, pref56, pref64, pref96, prefix_octets, embed,
}
use personal_journal.Rfc6052.Address.{
  Libc, Stack, ipv6_addr, zero_loop, octet, composed, ipv4toipv6, printed,
}

-- The length of a prefix in bits.
abbrev pub bits : Prefix → ℕ
bits (pref32 _ _ _ _) = 32
bits (pref40 _ _ _ _ _) = 40
bits (pref48 _ _ _ _ _ _) = 48
bits (pref56 _ _ _ _ _ _ _) = 56
bits (pref64 _ _ _ _ _ _ _ _) = 64
bits (pref96 _ _ _ _ _ _ _ _ _ _ _ _) = 96

-- The number that lies in `s_addr`, which holds the octets in memory order, on a little-endian
-- machine.
abbrev pub s_addr_of : (a b c d : ℕ) → ℕ
s_addr_of a b c d = a + b * 256 + c * 65536 + d * 16777216

abbrev pub AreOctets : (a b c d : ℕ) → Type 0
AreOctets a b c d = (a < 256) × (b < 256) × (c < 256) × (d < 256)

octets_of :
    (a b c d : ℕ)
    → AreOctets a b c d
    → let s = s_addr_of a b c d in
      (octet s 0 ≡ a) × (octet s 8 ≡ b) × (octet s 16 ≡ c) × (octet s 24 ≡ d)
octets_of a b c d h = (omega (arith, h), omega (arith, h), omega (arith, h), omega (arith, h))

zero_loop-append :
    (pre rest : Octets) (n i : ℕ)
    → i ≡ length pre
    → length rest ≡ n
    → zero_loop n i (pre ++ rest) ≡ pre ++ replicate n 0
unfolding zero_loop
zero_loop-append pre [] zero i e h = refl
zero_loop-append pre (x ∷ rest) zero i e h = absurd (omega arith)
zero_loop-append pre [] (suc n) i e h = absurd (omega arith)
zero_loop-append pre (x ∷ rest) (suc n) i e h =
    rw (set-append pre x rest i 0 e, ← append_assoc pre (0 ∷ []) rest)
      (zero_loop-append (pre ++ 0 ∷ []) rest n (i + 1) (omega (arith, length-append pre (0 ∷ [])))
          (omega arith)
        ∙ append_assoc pre (0 ∷ []) (replicate n 0))

-- A copy over the whole of `pointer`.
copy_whole : (old xs : Octets) → length old ≡ length xs → mem_copy old 0 xs ≡ xs
copy_whole old xs h =
    ap (λ l. mem_copy l 0 xs) (sym (append-nil old))
    ∙ (mem_copy-append [] old [] xs 0 refl h ∙ append-nil xs)

-- A copy over the front, and one over the rest.
copy_parts :
    (old new xs ys : Octets)
    → length old ≡ length xs
    → length new ≡ length ys
    → mem_copy (mem_copy (old ++ new) 0 xs) (length xs) ys ≡ xs ++ ys
copy_parts old new xs ys h k = rw (mem_copy-append [] old new xs 0 refl h) (
    ap (λ l. mem_copy (xs ++ l) (length xs) ys) (sym (append-nil new))
    ∙ (mem_copy-append xs new [] ys (length xs) refl k ∙ ap (λ l. xs ++ l) (append-nil ys)))

copy_two :
    (old xs ys : Octets)
    → length old ≡ length xs + length ys
    → mem_copy (mem_copy old 0 xs) (length xs) ys ≡ xs ++ ys
copy_two old xs ys h =
    let parts = take-drop (length xs) old (omega (arith, h)) in
    let total : length old ≡ length (take (length xs) old) + length (drop (length xs) old) =
      ap length parts.0 ∙ length-append (take (length xs) old) (drop (length xs) old) in
    ap (λ l. mem_copy (mem_copy l 0 xs) (length xs) ys) parts.0
    ∙ copy_parts (take (length xs) old) (drop (length xs) old) xs ys parts.1
        (omega (arith, h, total, parts.1))

composed-embed :
    (p : Prefix) (pointer rest : Octets) (s : ℕ)
    → length pointer ≡ 16
    → length (prefix_octets p ++ rest) ≡ 16
    → composed (bits p) pointer (prefix_octets p ++ rest) s
      ≡ some (embed p (octet s 0 ∷ octet s 8 ∷ octet s 16 ∷ octet s 24 ∷ []))
unfolding composed
composed-embed (pref32 p0 p1 p2 p3) pointer rest s h k =
    rw (
      zero_loop-append (p0 ∷ p1 ∷ p2 ∷ p3 ∷ []) rest 12 4 refl (omega arith),
      copy_whole pointer _ h,
    )
composed-embed (pref40 p0 p1 p2 p3 p4) pointer rest s h k = rw (
  zero_loop-append (p0 ∷ p1 ∷ p2 ∷ p3 ∷ p4 ∷ []) rest 11 5 refl (omega arith),
  copy_whole pointer _ h,
)
composed-embed (pref48 p0 p1 p2 p3 p4 p5) pointer rest s h k = rw (
  zero_loop-append (p0 ∷ p1 ∷ p2 ∷ p3 ∷ p4 ∷ p5 ∷ []) rest 10 6 refl (omega arith),
  copy_whole pointer _ h,
)
composed-embed (pref56 p0 p1 p2 p3 p4 p5 p6) pointer rest s h k = rw (
  zero_loop-append (p0 ∷ p1 ∷ p2 ∷ p3 ∷ p4 ∷ p5 ∷ p6 ∷ []) rest 9 7 refl (omega arith),
  copy_whole pointer _ h,
)
composed-embed (pref64 p0 p1 p2 p3 p4 p5 p6 p7) pointer rest s h k = rw (
  zero_loop-append (p0 ∷ p1 ∷ p2 ∷ p3 ∷ p4 ∷ p5 ∷ p6 ∷ p7 ∷ []) rest 8 8 refl (omega arith),
  copy_whole pointer _ h,
)
composed-embed (pref96 p0 p1 p2 p3 p4 p5 p6 p7 p8 p9 p10 p11) pointer rest s h k = rw (
  zero_loop-append (p0 ∷ p1 ∷ p2 ∷ p3 ∷ p4 ∷ p5 ∷ p6 ∷ p7 ∷ p8 ∷ p9 ∷ p10 ∷ p11 ∷ []) rest 4 12 refl
      (omega arith),
  copy_two pointer (p0 ∷ p1 ∷ p2 ∷ p3 ∷ p4 ∷ p5 ∷ p6 ∷ p7 ∷ p8 ∷ p9 ∷ p10 ∷ p11 ∷ [])
      (octet s 0 ∷ octet s 8 ∷ octet s 16 ∷ octet s 24 ∷ []) h,
)

-- For each prefix length of RFC 6052 that ipv6_prefix may name: where inet_pton makes out the two
-- addresses, the IPv6 one beginning with the octets of the prefix, ipv4toipv6 prints the embedding
-- of the IPv4 address behind this prefix, whatever lay on the stack.
pub ipv4toipv6-embed :
    (lib : Libc) (stack : Stack) (p : Prefix) (rest : Octets) (ipv4 : Bytes) (a b c d : ℕ)
    → AreOctets a b c d
    → length stack.pointer ≡ 16
    → length (prefix_octets p ++ rest) ≡ 16
    → lib.inet_pton6 ipv6_addr ≡ some (prefix_octets p ++ rest)
    → lib.inet_pton4 ipv4 ≡ some (s_addr_of a b c d)
    → ipv4toipv6 lib stack (bits p) ipv4 ≡ printed (lib.inet_ntop (embed p (a ∷ b ∷ c ∷ d ∷ [])))
unfolding ipv4toipv6
ipv4toipv6-embed lib stack p rest ipv4 a b c d small h k e6 e4 =
    let o = octets_of a b c d small in
    rw
      (
        e6,
        ipv4toipv6,
        e4,
        composed-embed p stack.pointer rest (s_addr_of a b c d) h k,
        o.0,
        o.1,
        o.2,
        o.3,
      )
      refl
