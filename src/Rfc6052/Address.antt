-- ===== src/Rfc6052/Address.antt =====
-- ipv6测试/rfc6052/ipv4toipv6.cpp: an IPv4 address behind the prefix that the settings ask for.
pub mod Embed
use personal_journal.Base.{
  ℕ, zero, suc, ◌+◌, ◌*◌, ◌/◌, ◌%◌, ◌^◌, Option, none, some, [], ◌∷◌, ◌==◌, if◌then◌else◌, take,
  set, codes,
}
use personal_journal.Dns.Memory.{Bytes, mem_copy}
use personal_journal.Dns.Nat64.{Octets}

-- What the function calls: inet_pton for the two families, `none` where it does not return 1, and
-- inet_ntop. An IPv4 address is the number that lies in `s_addr`.
pub record Libc : Type 0 where
  pub inet_pton4 : Bytes → Option ℕ
  pub inet_pton6 : Bytes → Option Octets
  pub inet_ntop : Octets → Bytes

-- What `ipv4ptr` and `pointer` hold before anything is stored in them.
pub record Stack : Type 0 where
  pub ipv4ptr : ℕ
  pub pointer : Octets

-- How a call ends: with a text in `ipv6` that it prints, with nothing because `ipv6_addr` is no
-- address, or in `exit(-1)`.
pub data Converted : Type 0 where
  printed : Bytes → Converted
  unparsed exited : Converted

abbrev pub ipv6_addr : Bytes
ipv6_addr = codes "2001:67c:27e4:15::"

-- `for (; i <= 15; i++) checkedipv6.s6_addr[i] = 0x0;` with the rounds left.
unfoldable pub zero_loop : (rounds i : ℕ) → Octets → Octets
zero_loop zero i addr = addr
zero_loop (suc n) i addr = zero_loop n (i + 1) (set addr i 0)

-- `s_addr >> shift & 0xff`, stored in an octet.
abbrev pub octet : ℕ → (shift : ℕ) → ℕ
octet s_addr shift = s_addr / 2 ^ shift % 256

-- The address that ipv4toipv6 composes for a length of the prefix: what is left of `pointer`, the
-- prefix, and the four octets, stored one behind the other round a zero octet.
unfoldable pub composed : (ipv6_prefix : ℕ) → (pointer checkedipv6 : Octets) → ℕ → Option Octets
composed ipv6_prefix pointer checkedipv6 s_addr =
    if ipv6_prefix == 96
    then some (
        mem_copy (mem_copy pointer 0 (take 12 (zero_loop 4 12 checkedipv6))) 12
          (o0 ∷ o1 ∷ o2 ∷ o3 ∷ []))
    else if ipv6_prefix == 64
    then some (copied 8 8 (0 ∷ o0 ∷ o1 ∷ o2 ∷ o3 ∷ []))
    else if ipv6_prefix == 56
    then some (copied 9 7 (o0 ∷ 0 ∷ o1 ∷ o2 ∷ o3 ∷ []))
    else if ipv6_prefix == 48
    then some (copied 10 6 (o0 ∷ o1 ∷ 0 ∷ o2 ∷ o3 ∷ []))
    else if ipv6_prefix == 40
    then some (copied 11 5 (o0 ∷ o1 ∷ o2 ∷ 0 ∷ o3 ∷ []))
    else if ipv6_prefix == 32
    then some (copied 12 4 (o0 ∷ o1 ∷ o2 ∷ o3 ∷ 0 ∷ []))
    else none
  where
    o0 : ℕ
    o0 = octet s_addr 0

    o1 : ℕ
    o1 = octet s_addr 8

    o2 : ℕ
    o2 = octet s_addr 16

    o3 : ℕ
    o3 = octet s_addr 24

    -- All sixteen octets are copied, those from `first` on zeroed, and then `stores` is stored.
    copied : (rounds first : ℕ) → Octets → Octets
    copied rounds first stores =
        mem_copy (mem_copy pointer 0 (take 16 (zero_loop rounds first checkedipv6))) first stores

-- `ipv4ptr.s_addr` after the call of inet_pton, whose result is not looked at.
abbrev pub written : Option ℕ → (before : ℕ) → ℕ
written none before = before
written (some a) before = a

unfoldable pub ipv4toipv6 : Libc → Stack → (ipv6_prefix : ℕ) → (ipv4 : Bytes) → Converted
ipv4toipv6 lib stack ipv6_prefix ipv4 = elim (lib.inet_pton6 ipv6_addr) [
  | none ↦ unparsed
  | some checkedipv6 ↦
      elim (composed ipv6_prefix stack.pointer checkedipv6
        (written (lib.inet_pton4 ipv4) stack.ipv4ptr)) [
          | none ↦ exited
          | some pointer ↦ printed (lib.inet_ntop pointer)
        ]
]
