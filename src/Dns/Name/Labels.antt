-- ===== src/Dns/Name/Labels.antt =====
-- Domain names as lists of labels: their dotted text and their form in a packet (RFC 1035).
use personal_journal.Base.{
  ℕ, ◌<◌, ◌≤◌, ◌≡◌, ◌≢◌, refl, arith, length-append, List, [], ◌∷◌, ◌++◌, append_assoc, ap, length,
  All,
}
use personal_journal.Dns.Memory.{Bytes, IsNonzero}

-- Each label with a dot behind it, and the same with no dot at the end.
abbrev pub dotted : List Bytes → Bytes
dotted [] = []
dotted (l ∷ ls) = l ++ b'.' ∷ dotted ls

abbrev pub join : Bytes → List Bytes → Bytes
join l [] = l
join l (m ∷ ls) = l ++ b'.' ∷ join m ls

-- Each label behind its length.
abbrev pub encode : List Bytes → Bytes
encode [] = []
encode (l ∷ ls) = length l ∷ (l ++ encode ls)

-- A byte of a label that the resolver can carry: no zero, no dot, nothing like a pointer.
abbrev pub IsLabelByte : ℕ → Type 0
IsLabelByte c = (0 < c) × (c < 192) × (c ≢ b'.')

abbrev pub IsLabel : Bytes → Type 0
IsLabel l = (0 < length l) × (length l < 192) × All IsLabelByte l

pub dotted-eq-join : (l : Bytes) (ls : List Bytes) → dotted (l ∷ ls) ≡ join l ls ++ b'.' ∷ []
dotted-eq-join l [] = refl
dotted-eq-join l (m ∷ ls) = rw append_assoc (ap (λ r. l ++ b'.' ∷ r) (dotted-eq-join m ls))

-- No zero, and nothing that the reading loop takes for a pointer.
abbrev pub IsPlain : ℕ → Type 0
IsPlain c = (0 < c) × (c < 192)

-- A label as it stands in a name under conversion: not empty, and free of zeros.
abbrev pub IsTextLabel : Bytes → Type 0
IsTextLabel l = (0 < length l) × All IsNonzero l

IsPlain-label : (l : Bytes) → All IsLabelByte l → All IsPlain l
IsPlain-label [] a = tt
IsPlain-label (c ∷ l) a = (omega arith, IsPlain-label l a.1)

IsNonzero-label : (l : Bytes) → All IsLabelByte l → All IsNonzero l
IsNonzero-label [] a = tt
IsNonzero-label (c ∷ l) a = (omega arith, IsNonzero-label l a.1)

IsPlain-append : (xs ys : Bytes) → All IsPlain xs → All IsPlain ys → All IsPlain (xs ++ ys)
IsPlain-append [] ys a b = b
IsPlain-append (x ∷ xs) ys a b = (a.0, IsPlain-append xs ys a.1 b)

pub IsPlain-encode : (ls : List Bytes) → All IsLabel ls → All IsPlain (encode ls)
IsPlain-encode [] a = tt
IsPlain-encode (l ∷ ls) a =
    (omega arith, IsPlain-append l (encode ls) (IsPlain-label l a.0.2) (IsPlain-encode ls a.1))

pub text-labels : (ls : List Bytes) → All IsLabel ls → All IsTextLabel ls
text-labels [] a = tt
text-labels (l ∷ ls) a = ((a.0.0, IsNonzero-label l a.0.2), text-labels ls a.1)

pub IsNonzero-append :
    (xs ys : Bytes) → All IsNonzero xs → All IsNonzero ys → All IsNonzero (xs ++ ys)
IsNonzero-append [] ys a b = b
IsNonzero-append (x ∷ xs) ys a b = (a.0, IsNonzero-append xs ys a.1 b)

pub IsNonzero-join :
    (l : Bytes) (ls : List Bytes) → All IsLabel (l ∷ ls) → All IsNonzero (join l ls)
IsNonzero-join l [] a = IsNonzero-label l a.0.2
IsNonzero-join l (m ∷ ls) a =
    IsNonzero-append l (b'.' ∷ join m ls) (IsNonzero-label l a.0.2)
      (omega arith, IsNonzero-join m ls a.1)

pub length-encode : (ls : List Bytes) → length ls ≤ length (encode ls)
length-encode [] = omega arith
length-encode (l ∷ ls) = omega (arith, length-encode ls, length-append l (encode ls))

IsPlain-IsNonzero : (xs : Bytes) → All IsPlain xs → All IsNonzero xs
IsPlain-IsNonzero [] a = tt
IsPlain-IsNonzero (x ∷ xs) a = (a.0.0, IsPlain-IsNonzero xs a.1)

pub IsNonzero-encode : (ls : List Bytes) → All IsLabel ls → All IsNonzero (encode ls)
IsNonzero-encode ls a = IsPlain-IsNonzero (encode ls) (IsPlain-encode ls a)
