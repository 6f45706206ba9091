-- ===== src/Dns/Name/Format.antt =====
-- ChangetoDnsNameFormat writes the packet form of the host name's labels.
use personal_journal.Base.{
  ℕ, zero, suc, ◌+◌, ◌-◌, ◌<◌, ◌≡◌, refl, sym, ap, ap₂, ◌∙◌, List, [], ◌∷◌, ◌++◌, append_assoc,
  append-nil, arith, length, length-append, get_or, get_or-append, replicate, All, ne→==,
}
use personal_journal.Dns.Memory.{Bytes}
use personal_journal.Dns.Name.{copy_label, name_loop, change_to_dns_name_format}
use personal_journal.Dns.Name.Labels.{dotted, join, encode, IsLabelByte, IsLabel, dotted-eq-join}

copy_label-append :
    (host pre seg rest : Bytes) (n lock : ℕ)
    → host ≡ pre ++ (seg ++ rest)
    → lock ≡ length pre
    → n ≡ length seg
    → copy_label host n lock ≡ seg
unfolding copy_label
copy_label-append host pre [] rest zero lock e el en = refl
copy_label-append host pre [] rest (suc n) lock e el en = absurd (omega arith)
copy_label-append host pre (c ∷ seg) rest zero lock e el en = absurd (omega arith)
copy_label-append host pre (c ∷ seg) rest (suc n) lock e el en =
    ap₂ ◌∷◌ (rw e (get_or-append pre c (seg ++ rest) lock 0 el)) (
      copy_label-append host (pre ++ c ∷ []) seg rest n (lock + 1)
        (e ∙ sym (append_assoc pre (c ∷ []) (seg ++ rest)))
        (omega (arith, length-append pre (c ∷ []))) (omega arith))

-- From inside a label the loop runs to its dot: `seg` has been passed, `todo` is to come.
name_loop-label :
    (host pre seg todo rest lab : Bytes) (i lock j : ℕ)
    → All IsLabelByte todo
    → length lab < 192
    → host ≡ pre ++ (seg ++ (todo ++ b'.' ∷ rest))
    → lab ≡ seg ++ todo
    → lock ≡ length pre
    → i ≡ length pre + length seg
    → j ≡ i + length todo + 1
    → name_loop host (length (todo ++ b'.' ∷ rest)) i lock
      ≡ length lab ∷ (lab ++ name_loop host (length rest) j j)
unfolding name_loop
name_loop-label host pre seg [] rest lab i lock j a short e eb el ei ej =
    let at_dot : get_or host i 0 ≡ b'.' =
      rw (e, ← append_assoc pre seg (b'.' ∷ rest))
        (get_or-append (pre ++ seg) b'.' rest i 0 (omega (arith, length-append pre seg))) in
    let whole : lab ≡ seg = eb ∙ append-nil seg in
    let size : length lab ≡ length seg = ap length whole in
    let ej' : i + 1 ≡ j = omega arith in
    rw (at_dot, ej')
      (ap₂ ◌∷◌ (omega arith) (
        ap (λ l. l ++ name_loop host (length rest) j j)
          (copy_label-append host pre seg (b'.' ∷ rest) (i - lock) lock e el (omega arith)
            ∙ sym whole)))
name_loop-label host pre seg (c ∷ todo) rest lab i lock j a short e eb el ei ej =
    let here : get_or host i 0 ≡ c =
      rw (e, ← append_assoc pre seg (c ∷ todo ++ b'.' ∷ rest))
        (get_or-append (pre ++ seg) c (todo ++ b'.' ∷ rest) i 0
          (omega (arith, length-append pre seg))) in
    rw (here, ne→== c b'.' a.0.2)
      (name_loop-label host pre (seg ++ c ∷ []) todo rest lab (i + 1) lock j a.1 short
        (rw append_assoc e) (rw append_assoc eb) el (omega (arith, length-append seg (c ∷ [])))
        (omega arith))

-- The loop passes the labels, and goes on behind them.
name_loop-labels :
    (host pre more : Bytes) (ls : List Bytes) (i j : ℕ)
    → All IsLabel ls
    → host ≡ pre ++ (dotted ls ++ more)
    → i ≡ length pre
    → j ≡ i + length (dotted ls)
    → name_loop host (length (dotted ls ++ more)) i i
      ≡ encode ls ++ name_loop host (length more) j j
name_loop-labels host pre more [] i j a e ei ej =
    ap (λ x. name_loop host (length more) x x) (omega arith)
name_loop-labels host pre more (l ∷ ls) i j a e ei ej =
    let here : ℕ = i + length l + 1 in
    rw (append_assoc l (b'.' ∷ dotted ls) more) (
      name_loop-label host pre [] l (dotted ls ++ more) l i i here a.0.2 a.0.1
        (e ∙ ap (λ r. pre ++ r) (append_assoc l (b'.' ∷ dotted ls) more)) refl ei (omega arith)
        (omega arith)
      ∙ ap (λ r. length l ∷ r)
          (ap (λ r. l ++ r)
              (name_loop-labels host (pre ++ (l ++ b'.' ∷ [])) more ls here j a.1
                (e ∙ simp append_assoc)
                (omega (arith, length-append pre (l ++ b'.' ∷ []), length-append l (b'.' ∷ [])))
                (omega (arith, length-append l (b'.' ∷ dotted ls))))
            ∙ sym (append_assoc l (encode ls) (name_loop host (length more) j j))))

abbrev pub dots : ℕ → Bytes
dots k = replicate k b'.'

abbrev pub zeros : ℕ → Bytes
zeros k = replicate k 0

pub length-zeros : (k : ℕ) → length (zeros k) ≡ k
length-zeros zero = refl
length-zeros (suc k) = ap suc (length-zeros k)

-- A dot with no label before it is written as a zero.
name_loop-dots :
    (host pre : Bytes) (k i : ℕ)
    → host ≡ pre ++ dots k
    → i ≡ length pre
    → name_loop host (length (dots k)) i i ≡ zeros k
unfolding name_loop copy_label
name_loop-dots host pre zero i e ei = refl
name_loop-dots host pre (suc k) i e ei =
    let at_dot : get_or host i 0 ≡ b'.' = rw e (get_or-append pre b'.' (dots k) i 0 ei) in
    let none_left : i - i ≡ 0 = omega arith in
    rw (at_dot, none_left)
      (ap (λ r. 0 ∷ r)
        (name_loop-dots host (pre ++ b'.' ∷ []) k (i + 1)
          (e ∙ sym (append_assoc pre (b'.' ∷ []) (dots k)))
          (omega (arith, length-append pre (b'.' ∷ [])))))

replicate-snoc : (k c : ℕ) → replicate k c ++ c ∷ [] ≡ c ∷ replicate k c
replicate-snoc zero c = refl
replicate-snoc (suc k) c = ap (λ r. c ∷ r) (replicate-snoc k c)

-- ChangetoDnsNameFormat on a host name with dots behind it: for every nonempty list of labels that
-- are nonempty, shorter than 192 and free of dots, it writes each label behind its length, a zero for
-- each of the dots, and a final zero, and it appends one more dot to the host name.
pub change_to_dns_name_format-dots :
    (l : Bytes) (ls : List Bytes) (k : ℕ)
    → All IsLabel (l ∷ ls)
    → change_to_dns_name_format (join l ls ++ dots k)
      ≡ (encode (l ∷ ls) ++ 0 ∷ zeros k, join l ls ++ dots (suc k))
unfolding change_to_dns_name_format
change_to_dns_name_format-dots l ls k a =
    let host : (join l ls ++ dots k) ++ b'.' ∷ [] ≡ join l ls ++ b'.' ∷ dots k =
      append_assoc (join l ls) (dots k) (b'.' ∷ [])
      ∙ ap (λ r. join l ls ++ r) (replicate-snoc k b'.') in
    let text : join l ls ++ b'.' ∷ dots k ≡ dotted (l ∷ ls) ++ dots k =
      sym (append_assoc (join l ls) (b'.' ∷ []) (dots k))
      ∙ ap (λ r. r ++ dots k) (sym (dotted-eq-join l ls)) in
    ap₂ (λ x y. (x, y))
      (rw (host, text)
        (ap (λ r. r ++ 0 ∷ [])
            (name_loop-labels (dotted (l ∷ ls) ++ dots k) [] (dots k) (l ∷ ls) 0
                (length (dotted (l ∷ ls))) a refl refl (omega arith)
              ∙ ap (λ r. encode (l ∷ ls) ++ r)
                  (name_loop-dots (dotted (l ∷ ls) ++ dots k) (dotted (l ∷ ls)) k
                    (length (dotted (l ∷ ls))) refl refl))
          ∙ append_assoc (encode (l ∷ ls)) (zeros k) (0 ∷ [])
          ∙ ap (λ r. encode (l ∷ ls) ++ r) (replicate-snoc k 0)))
      host

-- ChangetoDnsNameFormat stores the packet form of a host name: for every nonempty list of labels
-- that are nonempty, shorter than 192 and free of dots, it writes each label behind its length,
-- and a final zero, and it leaves the host name with a dot appended.
pub change_to_dns_name_format-join :
    (l : Bytes) (ls : List Bytes)
    → All IsLabel (l ∷ ls)
    → change_to_dns_name_format (join l ls) ≡ (encode (l ∷ ls) ++ 0 ∷ [], join l ls ++ b'.' ∷ [])
change_to_dns_name_format-join l ls a =
    ap change_to_dns_name_format (sym (append-nil (join l ls)))
    ∙ change_to_dns_name_format-dots l ls 0 a
