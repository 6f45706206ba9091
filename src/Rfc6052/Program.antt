-- ===== src/Rfc6052/Program.antt =====
-- ipv6测试/rfc6052/ipv4toipv6.cpp: the program (main), and what it prints.
use personal_journal.Base.{
  ℕ, ◌<◌, ◌≡◌, refl, sym, ap, subst, ◌∙◌, ◌⊎◌, inl, inr, Option, none, some, [], ◌∷◌, ltb, lt→ltb,
  if◌then◌else◌, false, length, drop, ◌++◌, Outcome, ok, fault, ◌>>=◌,
}
use personal_journal.Dns.Memory.{Bytes}
use personal_journal.Dns.Nat64.{Octets}
use personal_journal.Dns.Nat64.Embedding.{
  Prefix, pref32, pref40, pref48, pref56, pref64, pref96, prefix_octets, embed,
}
use personal_journal.Rfc6052.Address.{
  Libc, Stack, Converted, printed, exited, ipv6_addr, ipv4toipv6, composed,
}
use personal_journal.Rfc6052.Address.Embed.{bits, s_addr_of, AreOctets, ipv4toipv6-embed}
use personal_journal.Rfc6052.Config.{Config, load_config}
use personal_journal.Rfc6052.Config.Entries.{Width, w32, w40, w48, w56, w64, w96, width_bits}
use personal_journal.Rfc6052.Config.Values.{load_config-IsSetting}

-- The globals at the start.
abbrev pub initial : Config
initial = record { ipv6_prefix = 0; illegal = 0; left_open = false }

-- `scanf("%s", &ipv4_addr)` into sixteen bytes of zeros: a word, or nothing at the end of the input.
unfoldable pub scan_address : Option Bytes → Outcome Bytes
scan_address none = ok []
scan_address (some word) = if ltb (length word) 16 then ok word else fault

-- main, on the contents of setting.conf and the word on the standard input.
unfoldable pub convert_main : Libc → Stack → Option Bytes → Option Bytes → Outcome Converted
convert_main lib stack file word = do
  c ← load_config file initial
  ipv4_addr ← scan_address word
  ok (ipv4toipv6 lib stack c.ipv6_prefix ipv4_addr)

-- 2001:67c:27e4:15::, and what it begins with.
abbrev pub network : Octets
network = 32 ∷ 1 ∷ 6 ∷ 124 ∷ 39 ∷ 228 ∷ 0 ∷ 21 ∷ 0 ∷ 0 ∷ 0 ∷ 0 ∷ 0 ∷ 0 ∷ 0 ∷ 0 ∷ []

abbrev pub network_prefix : Width → Prefix
network_prefix w32 = pref32 32 1 6 124
network_prefix w40 = pref40 32 1 6 124 39
network_prefix w48 = pref48 32 1 6 124 39 228
network_prefix w56 = pref56 32 1 6 124 39 228 0
network_prefix w64 = pref64 32 1 6 124 39 228 0 21
network_prefix w96 = pref96 32 1 6 124 39 228 0 21 0 0 0 0

-- inet_pton makes out the constant of the program and the word, and `pointer` is an address.
pub record Understands (lib : Libc) (stack : Stack) (word : Bytes) (a b c d : ℕ) : Type 0 where
  pub octets : AreOctets a b c d
  pub constant : lib.inet_pton6 ipv6_addr ≡ some network
  pub address : lib.inet_pton4 word ≡ some (s_addr_of a b c d)
  pub sixteen : length stack.pointer ≡ 16
  pub short : length word < 16

-- The octets behind the prefix.
abbrev network_rest : Width → Octets
network_rest w32 = drop 4 network
network_rest w40 = drop 5 network
network_rest w48 = drop 6 network
network_rest w56 = drop 7 network
network_rest w64 = drop 8 network
network_rest w96 = drop 12 network

module _ (lib : Libc) (stack : Stack) (word : Bytes) (a b c d : ℕ)
    (known : Understands lib stack word a b c d) where
  embeds_at :
      (w : Width)
      → network ≡ prefix_octets (network_prefix w) ++ network_rest w
      → length (prefix_octets (network_prefix w) ++ network_rest w) ≡ 16
      → ipv4toipv6 lib stack (bits (network_prefix w)) word
        ≡ printed (lib.inet_ntop (embed (network_prefix w) (a ∷ b ∷ c ∷ d ∷ [])))
  embeds_at w e n =
      ipv4toipv6-embed lib stack (network_prefix w) (network_rest w) word a b c d known.octets
        known.sixteen n (known.constant ∙ ap some e) known.address

  embeds :
      (w : Width) (n : ℕ)
      → n ≡ width_bits w
      → ipv4toipv6 lib stack n word
        ≡ printed (lib.inet_ntop (embed (network_prefix w) (a ∷ b ∷ c ∷ d ∷ [])))
  embeds w32 n e = rw e (embeds_at w32 refl refl)
  embeds w40 n e = rw e (embeds_at w40 refl refl)
  embeds w48 n e = rw e (embeds_at w48 refl refl)
  embeds w56 n e = rw e (embeds_at w56 refl refl)
  embeds w64 n e = rw e (embeds_at w64 refl refl)
  embeds w96 n e = rw e (embeds_at w96 refl refl)

  exits : (n : ℕ) → n ≡ 0 → ipv4toipv6 lib stack n word ≡ exited
  unfolding ipv4toipv6 composed
  exits n e =
      subst (λ k. ipv4toipv6 lib stack k word ≡ exited) (sym e)
        (rw (known.constant, ipv4toipv6) refl)

  -- What main does once the file is read.
  abbrev pub Judged : Config → Outcome Converted → Type 0
  Judged e r =
      ((e.ipv6_prefix ≡ 0) × (r ≡ ok exited))
      ⊎ ((w : Width) × (e.ipv6_prefix ≡ width_bits w)
          × (r ≡ ok (printed (lib.inet_ntop (embed (network_prefix w) (a ∷ b ∷ c ∷ d ∷ []))))))

  -- Whatever setting.conf holds: where inet_pton makes out the program's constant and the word, of
  -- fewer than sixteen bytes, the program prints the embedding of the IPv4 address behind the prefix
  -- of the length that load_config has left in ipv6_prefix, and exits only if none has been set.
  pub convert_main-Judged :
      (contents : Bytes)
      → (e : Config) × (load_config (some contents) initial ≡ ok e)
        × Judged e (convert_main lib stack (some contents) (some word))
  unfolding convert_main scan_address
  convert_main-Judged contents =
      let (e, loads, set) = load_config-IsSetting contents initial (inl refl) in
      let runs : convert_main lib stack (some contents) (some word)
          ≡ ok (ipv4toipv6 lib stack e.ipv6_prefix word) =
        rw (loads, lt→ltb (length word) 16 known.short) refl in
      (
        e,
        loads,
        elim set [
          | inl z ↦ inl (z, runs ∙ ap ok (exits e.ipv6_prefix z))
          | inr (w, z) ↦ inr (w, z, runs ∙ ap ok (embeds w e.ipv6_prefix z))
        ],
      )
