-- ===== src/Dns/Resolver/Literal.antt =====
-- getaddrinfo_v6 on an IPv4 address.
use personal_journal.Base.{ℕ, ◌≡◌, ◌≢◌, refl, some, [], ◌∷◌, arith, get_elem?, set, ok, inl, inr}
use personal_journal.Dns.Nat64.{is_nat64_addr_valid}
use personal_journal.Dns.Nat64.Embedding.{Prefix, embed, IsWellKnown, replace-embed}
use personal_journal.Dns.Answers.{IpInfo}
use personal_journal.Dns.Host.{success}
use personal_journal.Dns.Resolver.{InAddr, replace_first}

pub well_known_ne : (last : ℕ) → IsWellKnown last → last ≢ 0
well_known_ne last k e = elim k [ inl a ↦ omega (arith, a, e) | inr a ↦ omega (arith, a, e) ]

pub replace_first-embed :
    (info : IpInfo) (p : Prefix) (x y z last : ℕ) (a : InAddr)
    → last ≢ 0
    → get_elem? info.v6_addr 0 ≡ some (embed p (x ∷ y ∷ z ∷ last ∷ []))
    → replace_first info a
      ≡ ok (
        record info { v6_addr = set info.v6_addr 0 (embed p (a.s1 ∷ a.s2 ∷ a.s3 ∷ a.s4 ∷ [])) },
        success,
      )
unfolding replace_first is_nat64_addr_valid
replace_first-embed info p x y z last a ne e =
    rw (e, replace_first, replace-embed p x y z last a.s1 a.s2 a.s3 a.s4 ne) refl
