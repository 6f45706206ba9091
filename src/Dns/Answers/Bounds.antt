-- ===== src/Dns/Answers/Bounds.antt =====
-- The address array of `socket_ipinfo_t` under the loop of socket_gethostbyname, whatever the answers.
use personal_journal.Base.{
  ℕ, ◌+◌, ◌≤◌, ◌≡◌, refl, none, some, [], ◌∷◌, ◌++◌, length-append, arith, length, length-set,
  fault, ltb, ltb→lt, ge→ltb, ◌==◌, Bool-cases, Option-cases, inl, inr, Option, Ends, Ends-bind,
}
use personal_journal.Dns.Memory.{Bytes, byte, byte-Ends}
use personal_journal.Dns.Packet.{aaaa}
use personal_journal.Dns.Answers.{
  IpInfo, ResRecord, u16_at, read_address_bytes, put_address, store_answer,
}
use personal_journal.Dns.Answers.Response.{Reply, IsReply, At, record_of}

-- `size` counts slots of the array.
abbrev pub IsValid : IpInfo → Type 0
IsValid info = info.size ≤ length info.v6_addr

-- At most `n` addresses have been added, the array has kept its length, and `size` still counts
-- slots of it.
pub record Grown (n : ℕ) (info info' : IpInfo) : Type 0 where
  pub valid : IsValid info'
  pub same_array : length info'.v6_addr ≡ length info.v6_addr
  pub grows : info.size ≤ info'.size
  pub at_most : info'.size ≤ info.size + n

abbrev Anything : {A : Type 0} → A → Type 0
Anything a = Unit

u16_at-Ends : (buf : Bytes) (i : ℕ) → Ends Anything (u16_at buf i)
unfolding u16_at
u16_at-Ends buf i =
    Ends-bind _ Anything (byte buf i) _ (byte-Ends buf i)
      λ high _. Ends-bind _ Anything (byte buf (i + 1)) _ (byte-Ends buf (i + 1)) λ low _. tt

put_address-Grown :
    (info : IpInfo) (addr : Bytes) → IsValid info → Ends (Grown 1 info) (put_address info addr)
unfolding put_address
put_address-Grown info addr v = elim (Bool-cases (ltb info.size (length info.v6_addr))) [
  | inl room ↦
      let inside = ltb→lt info.size (length info.v6_addr) room in
      let kept = length-set info.v6_addr info.size addr in
      rw room (record {
        valid = omega (arith, kept);
        same_array = kept;
        grows = omega arith;
        at_most = omega arith;
      })
  | inr full ↦ rw full tt
]

read_address_bytes-Ends : (d : Option Bytes) → Ends Anything (read_address_bytes d)
unfolding read_address_bytes
read_address_bytes-Ends none = tt
read_address_bytes-Ends (some d) = elim (Bool-cases (ltb (length d) 16)) [
  | inl e ↦ rw e tt
  | inr e ↦ rw e tt
]

still : (info : IpInfo) → IsValid info → Grown 1 info info
still info v = record { valid = v; same_array = refl; grows = omega arith; at_most = omega arith }

pub store_answer-Grown :
    (buf : Bytes) (info : IpInfo) (r : ResRecord)
    → IsValid info
    → Ends (Grown 1 info) (store_answer buf info r)
unfolding store_answer
store_answer-Grown buf info r v = elim (Option-cases r.resource) [
  | inl e ↦ rw (e, store_answer) tt
  | inr (at, e) ↦
      rw (e, store_answer)
        (Ends-bind Anything (Grown 1 info) (u16_at buf at) _ (u16_at-Ends buf at) λ type _.
          elim (Bool-cases (type == aaaa)) [
            | inl address ↦ rw address (
                Ends-bind Anything (Grown 1 info) (read_address_bytes r.rdata) (put_address info)
                  (read_address_bytes-Ends r.rdata) λ addr _. put_address-Grown info addr v)
            | inr other ↦ rw other (still info v)
          ])
]

-- A full array is no bound to the loop: the next address record is written past its end.
pub store_answer-full :
    (buf : Bytes) (info : IpInfo) (name : Bytes) (at : ℕ) (r : Reply)
    → IsReply r
    → At buf at r
    → info.size ≡ length info.v6_addr
    → store_answer buf info (record_of name at r) ≡ fault
unfolding store_answer read_address_bytes put_address
store_answer-full buf info name at r h here full = rw (
  here.type,
  ge→ltb (length (r.address ++ 0 ∷ [])) 16 (omega (arith, length-append r.address (0 ∷ []))),
  ge→ltb info.size (length info.v6_addr) (omega arith),
)
