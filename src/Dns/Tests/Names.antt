-- ===== src/Dns/Tests/Names.antt =====
-- Names and queries.
use personal_journal.Base.{◌≡◌, refl, [], ◌∷◌, arith, take, replicate, fault, out_of_fuel}
use personal_journal.Dns.Memory.{Bytes}
use personal_journal.Dns.Tests.{label_ab, label_c, willing}
use personal_journal.Dns.Nat64.{replace_nat64_with_v4_ip, get_suffix_zero_count}
use personal_journal.Dns.Nat64.Embedding.{pref64, embed, replace-embed}
use personal_journal.Dns.Name.{read_name}
use personal_journal.Dns.Name.Traps.{read_name-self_pointer, read_name-root}
use personal_journal.Dns.Packet.{prepare_dns_query_packet, send_packlen}
use personal_journal.Dns.Packet.Form.{query, prepare_dns_query_packet-dots}

-- 2001:db8:122:344::/64.
abbrev octets64 : Bytes
octets64 = embed (pref64 32 1 13 184 1 34 3 68) (192 ∷ 0 ∷ 0 ∷ 170 ∷ [])

suffix_zeros : get_suffix_zero_count octets64 16 ≡ 3
unfolding get_suffix_zero_count
suffix_zeros = refl

replace-embed_example :
    replace_nat64_with_v4_ip octets64 198 51 100 1
    ≡ 32 ∷ 1 ∷ 13 ∷ 184 ∷ 1 ∷ 34 ∷ 3 ∷ 68 ∷ 0 ∷ 198 ∷ 51 ∷ 100 ∷ 1 ∷ 0 ∷ 0 ∷ 0 ∷ []
replace-embed_example =
    replace-embed (pref64 32 1 13 184 1 34 3 68) 192 0 0 170 198 51 100 1 (omega arith)

-- "ab.c..".
prepare_dns_query_packet-dots_example :
    (let r = prepare_dns_query_packet 4660 (replicate 64 0) (97 ∷ 98 ∷ 46 ∷ 99 ∷ 46 ∷ 46 ∷ []) in
      (take (send_packlen r.0) r.0 ≡ query 52 18 (label_ab ∷ label_c ∷ []))
      × (r.1 ≡ 97 ∷ 98 ∷ 46 ∷ 99 ∷ 46 ∷ 46 ∷ 46 ∷ []))
prepare_dns_query_packet-dots_example =
    prepare_dns_query_packet-dots 4660 (replicate 64 0) label_ab (label_c ∷ []) 2 (ground arith)
      (omega arith)

read_name-self_pointer_example : read_name willing (9 ∷ 192 ∷ 1 ∷ []) 100 1 ≡ out_of_fuel
read_name-self_pointer_example =
    read_name-self_pointer willing (λ n. refl) (9 ∷ 192 ∷ 1 ∷ []) (9 ∷ []) [] 0 1 100 refl refl

read_name-root_example : read_name willing (0 ∷ 0 ∷ 28 ∷ []) 4 0 ≡ fault
read_name-root_example =
    read_name-root willing (λ n. refl) (0 ∷ 0 ∷ 28 ∷ []) [] (0 ∷ 28 ∷ []) 3 refl
