-- ===== src/Dns/Packet/Form.antt =====
-- The query packet has the form of RFC 1035.
use personal_journal.Base.{
  ℕ, zero, suc, ◌+◌, ◌/◌, ◌%◌, ◌≤◌, ◌≡◌, refl, sym, ap, ◌∙◌, List, [], ◌∷◌, ◌++◌, append_assoc,
  append-nil, arith, length, length-append, All, take, drop, take-append,
}
use personal_journal.Dns.Memory.{
  Bytes, strlen, mem_copy, mem_copy-append, take-drop, c_string-append,
}
use personal_journal.Dns.Name.Labels.{join, encode, IsLabel, IsNonzero-encode}
use personal_journal.Dns.Name.Format.{
  dots, zeros, length-zeros, change_to_dns_name_format-join, change_to_dns_name_format-dots,
}
use personal_journal.Dns.Name.{change_to_dns_name_format}
use personal_journal.Dns.Packet.{
  fill_packet, header_bytes, query_header, question, prepare_dns_query_packet, send_packlen,
  header_size,
}

-- RFC 1035, section 4.1: a header with the query's id, recursion desired and one question, and the
-- question: a name, type AAAA, class IN.
abbrev pub query : (id0 id1 : ℕ) → List Bytes → Bytes
query id0 id1 ls =
    id0 ∷ id1 ∷ 1 ∷ 0 ∷ 0 ∷ 1 ∷ 0 ∷ 0 ∷ 0 ∷ 0 ∷ 0 ∷ 0 ∷ (encode ls ++ 0 ∷ 0 ∷ 28 ∷ 0 ∷ 1 ∷ [])

drop-append : (xs ys : Bytes) (n : ℕ) → n ≡ length xs → drop n (xs ++ ys) ≡ ys
drop-append [] ys zero e = refl
drop-append [] ys (suc n) e = absurd (omega arith)
drop-append (x ∷ xs) ys zero e = absurd (omega arith)
drop-append (x ∷ xs) ys (suc n) e = drop-append xs ys n (omega arith)

-- The name's C string is its packet form, whatever stands behind it.
strlen-encode :
    (ls : List Bytes) (rest : Bytes)
    → All IsLabel ls
    → strlen (encode ls ++ 0 ∷ rest) ≡ length (encode ls)
strlen-encode ls rest a =
    ap length
      (c_string-append (encode ls) (0 ∷ rest) (IsNonzero-encode ls a) ∙ append-nil (encode ls))

-- What lies behind the name's first zero, zeros of the name and old contents of the buffer, is
-- overwritten by the question.
fill_packet-parts :
    (hb h n q zs b2 rest : Bytes) (ls : List Bytes)
    → All IsLabel ls
    → length hb ≡ 12
    → length h ≡ 12
    → length n ≡ length (encode ls ++ 0 ∷ zs)
    → zs ++ b2 ≡ q ++ rest
    → length q ≡ 4
    → fill_packet (h ++ (n ++ b2)) hb (encode ls ++ 0 ∷ zs)
      ≡ (hb ++ (encode ls ++ 0 ∷ [])) ++ (question ++ rest)
unfolding fill_packet
fill_packet-parts hb h n q zs b2 rest ls a ehb eh en over eq = rw (header, name, end) tail_of
  where
    front : Bytes
    front = encode ls ++ 0 ∷ []

    header : mem_copy (h ++ (n ++ b2)) 0 hb ≡ hb ++ (n ++ b2)
    header = mem_copy-append [] h (n ++ b2) hb 0 refl (eh ∙ sym ehb)

    split : (encode ls ++ 0 ∷ zs) ++ b2 ≡ front ++ (q ++ rest)
    split =
        append_assoc (encode ls) (0 ∷ zs) b2
        ∙ ap (λ r. encode ls ++ 0 ∷ r) over
        ∙ sym (append_assoc (encode ls) (0 ∷ []) (q ++ rest))

    name :
        mem_copy (hb ++ (n ++ b2)) header_size (encode ls ++ 0 ∷ zs) ≡ hb ++ (front ++ (q ++ rest))
    name = mem_copy-append hb n b2 (encode ls ++ 0 ∷ zs) 12 (sym ehb) en ∙ ap (λ r. hb ++ r) split

    end :
        header_size + (strlen (drop header_size (hb ++ (front ++ (q ++ rest)))) + 1)
        ≡ length (hb ++ front)
    end =
        rw
          (
            drop-append hb (front ++ (q ++ rest)) 12 (sym ehb),
            append_assoc,
            strlen-encode ls (q ++ rest) a,
          )
          (omega (arith, length-append hb front, length-append (encode ls) (0 ∷ [])))

    tail_of :
        mem_copy (hb ++ (front ++ (q ++ rest))) (length (hb ++ front)) question
        ≡ (hb ++ front) ++ (question ++ rest)
    tail_of =
        rw (← append_assoc hb front (q ++ rest))
          (mem_copy-append (hb ++ front) q rest question (length (hb ++ front)) refl eq)

query_split :
    (id0 id1 : ℕ) (ls : List Bytes) (rest : Bytes)
    → ((id0 ∷ id1 ∷ 1 ∷ 0 ∷ 0 ∷ 1 ∷ 0 ∷ 0 ∷ 0 ∷ 0 ∷ 0 ∷ 0 ∷ []) ++ (encode ls ++ 0 ∷ []))
        ++ (question ++ rest)
      ≡ query id0 id1 ls ++ rest
query_split id0 id1 ls rest = simp append_assoc

size_hb : (pid : ℕ) → length (header_bytes (query_header pid)) ≡ 12
unfolding header_bytes
size_hb pid = refl

query_header-split :
    (pid : ℕ) (ls : List Bytes) (rest : Bytes)
    → (header_bytes (query_header pid) ++ (encode ls ++ 0 ∷ [])) ++ (question ++ rest)
      ≡ query (pid % 65536 % 256) (pid % 65536 / 256 % 256) ls ++ rest
unfolding header_bytes
query_header-split pid ls rest = query_split (pid % 65536 % 256) (pid % 65536 / 256 % 256) ls rest

-- The packet for a host name that is written as labels with zeros behind their final one.
prepare-form :
    (pid : ℕ) (buf host host' zs l : Bytes) (ls : List Bytes)
    → change_to_dns_name_format host ≡ (encode (l ∷ ls) ++ 0 ∷ zs, host')
    → All IsLabel (l ∷ ls)
    → length (encode (l ∷ ls)) + length zs + 17 ≤ length buf
    → (rest : Bytes) × (prepare_dns_query_packet pid buf host
        ≡ (query (pid % 65536 % 256) (pid % 65536 / 256 % 256) (l ∷ ls) ++ rest, host'))
unfolding prepare_dns_query_packet
prepare-form pid buf host host' zs l ls e a fits = (rest, rw e (ap (λ b. (b, host')) filled))
  where
    m : ℕ
    m = length (encode (l ∷ ls) ++ 0 ∷ zs)

    size : m ≡ length (encode (l ∷ ls)) + length zs + 1
    size = omega (arith, length-append (encode (l ∷ ls)) (0 ∷ zs))

    ref1 : (buf ≡ take 12 buf ++ drop 12 buf) × (length (take 12 buf) ≡ 12)
    ref1 = take-drop 12 buf (omega arith)

    b1 : Bytes
    b1 = drop 12 buf

    size1 : length buf ≡ 12 + length b1
    size1 = omega (arith, ap length ref1.0, length-append (take 12 buf) b1, ref1.1)

    ref2 : (b1 ≡ take m b1 ++ drop m b1) × (length (take m b1) ≡ m)
    ref2 = take-drop m b1 (omega (arith, size, size1))

    b2 : Bytes
    b2 = drop m b1

    size2 : length b1 ≡ m + length b2
    size2 = omega (arith, ap length ref2.0, length-append (take m b1) b2, ref2.1)

    ref3 : (zs ++ b2 ≡ take 4 (zs ++ b2) ++ drop 4 (zs ++ b2)) × (length (take 4 (zs ++ b2)) ≡ 4)
    ref3 = take-drop 4 (zs ++ b2) (omega (arith, size, size1, size2, length-append zs b2))

    rest : Bytes
    rest = drop 4 (zs ++ b2)

    parts : buf ≡ take 12 buf ++ (take m b1 ++ b2)
    parts = ref1.0 ∙ ap (λ x. take 12 buf ++ x) ref2.0

    hb : Bytes
    hb = header_bytes (query_header pid)

    filled :
        fill_packet buf hb (encode (l ∷ ls) ++ 0 ∷ zs)
        ≡ query (pid % 65536 % 256) (pid % 65536 / 256 % 256) (l ∷ ls) ++ rest
    filled =
        ap (λ b. fill_packet b hb (encode (l ∷ ls) ++ 0 ∷ zs)) parts
        ∙ fill_packet-parts hb (take 12 buf) (take m b1) (take 4 (zs ++ b2)) zs b2 rest (l ∷ ls) a
            (size_hb pid) ref1.1 ref2.1 ref3.0 ref3.1
        ∙ query_header-split pid (l ∷ ls) rest

pub prepare-eq :
    (pid : ℕ) (buf l : Bytes) (ls : List Bytes)
    → All IsLabel (l ∷ ls)
    → length (encode (l ∷ ls)) + 17 ≤ length buf
    → (rest : Bytes) × (prepare_dns_query_packet pid buf (join l ls) ≡ (
      query (pid % 65536 % 256) (pid % 65536 / 256 % 256) (l ∷ ls) ++ rest,
      join l ls ++ b'.' ∷ [],
    ))
prepare-eq pid buf l ls a fits =
    prepare-form pid buf (join l ls) (join l ls ++ b'.' ∷ []) [] l ls
      (change_to_dns_name_format-join l ls a) a (omega arith)

pub prepare-dots :
    (pid : ℕ) (buf l : Bytes) (ls : List Bytes) (k : ℕ)
    → All IsLabel (l ∷ ls)
    → length (encode (l ∷ ls)) + k + 17 ≤ length buf
    → (rest : Bytes) × (prepare_dns_query_packet pid buf (join l ls ++ dots k) ≡ (
      query (pid % 65536 % 256) (pid % 65536 / 256 % 256) (l ∷ ls) ++ rest,
      join l ls ++ dots (suc k),
    ))
prepare-dots pid buf l ls k a fits =
    prepare-form pid buf (join l ls ++ dots k) (join l ls ++ dots (suc k)) (zeros k) l ls
      (change_to_dns_name_format-dots l ls k a) a (omega (arith, length-zeros k))

pub send_packlen-query :
    (id0 id1 : ℕ) (ls : List Bytes) (rest : Bytes)
    → All IsLabel ls
    → send_packlen (query id0 id1 ls ++ rest) ≡ length (query id0 id1 ls)
send_packlen-query id0 id1 ls rest a =
    rw (append_assoc, strlen-encode ls (0 ∷ 28 ∷ 0 ∷ 1 ∷ rest) a)
      (omega (arith, length-append (encode ls) (0 ∷ 0 ∷ 28 ∷ 0 ∷ 1 ∷ [])))

-- PrepareDnsQueryPacket writes the standard query for the host name: for a name of labels that are
-- nonempty, shorter than 192 and free of dots, with any number of dots behind it, which is what earlier
-- queries for the same host name have appended, and a send buffer in which the name fits with a zero
-- for each dot, the first `send_packlen` bytes are the query of RFC 1035 for the labels with the
-- process's id, and the host name has one dot more.
pub prepare_dns_query_packet-dots :
    (pid : ℕ) (buf l : Bytes) (ls : List Bytes) (k : ℕ)
    → All IsLabel (l ∷ ls)
    → length (encode (l ∷ ls)) + k + 17 ≤ length buf
    → let (send_buf, host) = prepare_dns_query_packet pid buf (join l ls ++ dots k) in
      (take (send_packlen send_buf) send_buf
        ≡ query (pid % 65536 % 256) (pid % 65536 / 256 % 256) (l ∷ ls))
      × (host ≡ join l ls ++ dots (suc k))
prepare_dns_query_packet-dots pid buf l ls k a fits =
    let (rest, e) = prepare-dots pid buf l ls k a fits in
    let q : Bytes = query (pid % 65536 % 256) (pid % 65536 / 256 % 256) (l ∷ ls) in
    rw e (
      take-append q rest (send_packlen (q ++ rest))
          (send_packlen-query (pid % 65536 % 256) (pid % 65536 / 256 % 256) (l ∷ ls) rest a),
      refl,
    )
