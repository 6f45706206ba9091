-- ===== src/Rfc6052/Tests.antt =====
-- Examples for the RFC 6052 program: the functions on concrete files, and the theorems at them.
use personal_journal.Base.{
  ℕ, zero, suc, ◌≡◌, refl, inl, true, none, some, List, [], ◌∷◌, ◌++◌, arith, if◌then◌else◌,
  replicate, All, codes, ok,
}
use personal_journal.Dns.Memory.{Bytes, mem_eq}
use personal_journal.Rfc6052.Address.{Libc, Stack, ipv6_addr, ipv4toipv6, printed}
use personal_journal.Rfc6052.Address.Embed.{ipv4toipv6-embed, s_addr_of}
use personal_journal.Rfc6052.Config.{
  Config, reads, is_long, is_comment, read_parameters, prefix_of, set_prefix, take_line, load_lines,
  load_config,
}
use personal_journal.Rfc6052.Config.Lines.{IsText}
use personal_journal.Rfc6052.Config.Entries.{
  Entry, remark, setting, w64, w96, render, load_config-render,
}
use personal_journal.Rfc6052.Config.Swallow.{load_config-full}
use personal_journal.Rfc6052.Program.{
  initial, network, network_prefix, Understands, convert_main, convert_main-Judged, Judged,
}

abbrev word : Bytes
word = codes "192.0.2.33"

-- A library that knows one address of each family, and "prints" octets as they are.
abbrev lib : Libc
lib = record {
  inet_pton4 = λ s. if mem_eq s 0 word then some (s_addr_of 192 0 2 33) else none;
  inet_pton6 = λ s. if mem_eq s 0 ipv6_addr then some network else none;
  inet_ntop = λ a. a;
}

abbrev stack : Stack
stack = record { ipv4ptr = 7; pointer = replicate 16 9 }

understood : Understands lib stack word 192 0 2 33
understood = record {
  octets = ground arith;
  constant = refl;
  address = refl;
  sixteen = refl;
  short = omega arith;
}

ipv4toipv6-embed_example :
    ipv4toipv6 lib stack 64 word
    ≡ printed (32 ∷ 1 ∷ 6 ∷ 124 ∷ 39 ∷ 228 ∷ 0 ∷ 21 ∷ 0 ∷ 192 ∷ 0 ∷ 2 ∷ 33 ∷ 0 ∷ 0 ∷ 0 ∷ [])
ipv4toipv6-embed_example =
    ipv4toipv6-embed lib stack (network_prefix w64) (replicate 8 0) word 192 0 2 33
      understood.octets refl refl refl refl

-- The repository's settings file.
abbrev entries : List Entry
entries =
    remark (codes "ipv6_prefix setting[32,40,48,56,64,96]") ∷ setting [] (32 ∷ 32 ∷ []) w96 [] ∷ []

-- A file without the last newline, and one with an illegal value.
unterminated :
    load_config (some (codes "ipv6_prefix 48")) initial ≡ ok (record initial { ipv6_prefix = 48 })
unfolding load_config load_lines take_line reads is_long is_comment read_parameters prefix_of
    set_prefix
unterminated = refl

illegal : load_config (some (codes "ipv6_prefix 50")) initial ≡ ok (record initial { illegal = 1 })
unfolding load_config load_lines take_line reads is_long is_comment read_parameters prefix_of
    set_prefix
illegal = refl

load_config-render_example :
    load_config (some (render entries)) initial ≡ ok (record initial { ipv6_prefix = 96 })
load_config-render_example =
    load_config-render entries initial
      ((ground arith, omega arith), ((tt, (inl refl, (inl refl, tt)), tt, omega arith), tt))

-- 253 bytes of a remark.
abbrev full : Bytes
full = 35 ∷ replicate 252 45

All-replicate : (n c : ℕ) → IsText c → All IsText (replicate n c)
All-replicate zero c h = tt
All-replicate (suc n) c h = (h, All-replicate n c h)

load_config-full_example :
    (load_config (some (full ++ 10 ∷ (codes "ipv6_prefix 64" ++ 10 ∷ []))) initial ≡ ok initial)
    × (load_config (some (full ++ 10 ∷ [])) initial ≡ ok (record initial { left_open = true }))
unfolding load_config reads load_lines is_comment
load_config-full_example =
    load_config-full full initial (ground arith, All-replicate 252 45 (ground arith)) refl
      (codes "ipv6_prefix 64") [] (ground arith) (omega arith)

convert_main-Judged_example :
    (e : Config) × (load_config (some (render entries)) initial ≡ ok e)
    × Judged lib stack word 192 0 2 33 understood e
        (convert_main lib stack (some (render entries)) (some word))
convert_main-Judged_example =
    convert_main-Judged lib stack word 192 0 2 33 understood (render entries)
