-- ===== src/Dns/Dual/Same.antt =====
-- socketv6_gethostbyname of dnsquery/dnsquery.cc beside socket_gethostbyname of dns64_query_c/dnsquery.c.
use personal_journal.Base.{
  ℕ, zero, suc, ◌+◌, ◌≡◌, refl, ap, ◌∙◌, sym, true, false, inl, inr, Option, none, some, List, [],
  ◌∷◌, ltb, ◌==◌, Bool-cases, Option-cases, length, Outcome, ok, fault, aborted, out_of_fuel, ◌>>=◌,
  bind-cong, bind_assoc, Ret, success, failure, if◌then◌else◌,
}
use personal_journal.Dns.Memory.{Bytes}
use personal_journal.Dns.Packet.{fill_packet, prepare_dns_query_packet, send_packlen, aaaa}
use personal_journal.Dns.Answers.{
  Allocator, IpInfo, ResRecord, stored, stopped, no_record, u16_at, read_answer, read_answers,
  answer_count, read_address_bytes, put_address, store_answer, store_answers,
}
use personal_journal.Dns.Receive.{exchange}
use personal_journal.Dns.Host.{Net, answered, ask_with}
use personal_journal.Dns.Single.{wide_buf, keep_answers, Left, single_gethostbyname}
use personal_journal.Dns.Dual.{
  DualInfo, fill_packet_for, prepare_for, read_answer_for, read_answers_for, put_v6,
  store_answer_for, store_answers_for, verdict, query_for, Called, returned, came_back,
  socketv6_gethostbyname,
}

prepare-same :
    (pid : ℕ) (buf host : Bytes)
    → prepare_for false pid buf host ≡ (prepare_dns_query_packet pid buf host).0
unfolding prepare_for prepare_dns_query_packet fill_packet fill_packet_for
prepare-same pid buf host = refl

module _ (alloc : Allocator) (buf : Bytes) (fuel : ℕ) where
  read_answer-same :
      (i reader : ℕ)
      → read_answer_for false alloc buf fuel i reader ≡ read_answer alloc buf fuel i reader
  unfolding read_answer_for read_answer
  read_answer-same i reader = refl

  read_answers-same :
      (n i reader : ℕ)
      → read_answers_for false alloc buf fuel n i reader ≡ read_answers alloc buf fuel n i reader
  unfolding read_answers_for read_answers
  read_answers-same zero i reader = refl
  read_answers-same (suc n) i reader = rw (read_answer-same i reader) (
      bind-cong (read_answer alloc buf fuel i reader) _ _ (elim [
        | stopped r ↦ refl
        | stored r reader' ↦
            ap (λ m. m >>= λ rest. ok (r ∷ rest)) (read_answers-same n (i + 1) reader')
      ]))

-- The part of the list that the C resolver has, and what it leaves.
abbrev pub v6_part : DualInfo → IpInfo
v6_part info = record { size = info.size; v6_addr = info.v6_addr }

abbrev pub with_part : DualInfo → IpInfo → DualInfo
with_part info part = record info { size = part.size; v6_addr = part.v6_addr }

abbrev lifted : DualInfo → Outcome IpInfo → Outcome DualInfo
lifted info m = m >>= λ part. ok (with_part info part)

put_v6-same :
    (info : DualInfo) (addr : Bytes)
    → put_v6 info addr ≡ lifted info (put_address (v6_part info) addr)
unfolding put_v6 put_address
put_v6-same info addr = elim (Bool-cases (ltb info.size (length info.v6_addr))) [
  | inl e ↦ rw e refl
  | inr e ↦ rw e refl
]

store_answer-same :
    (buf : Bytes) (info : DualInfo) (r : ResRecord)
    → store_answer_for false buf info r ≡ lifted info (store_answer buf (v6_part info) r)
unfolding store_answer_for store_answer
store_answer-same buf info r = elim (Option-cases r.resource) [
  | inl e ↦ rw (e, store_answer, store_answer_for) refl
  | inr (at, e) ↦
      rw (e, store_answer, store_answer_for)
        (bind-cong (u16_at buf at) _ _ (λ type. elim (Bool-cases (type == aaaa)) [
          | inl k ↦ rw k (
              bind-cong (read_address_bytes r.rdata) _ _ (put_v6-same info)
              ∙ sym (bind_assoc (read_address_bytes r.rdata) (put_address (v6_part info)) _))
          | inr k ↦ rw k refl
        ])
          ∙ sym (bind_assoc (u16_at buf at) _ _))
]

-- A round, and the rest of the loop.
round-same :
    (info : DualInfo) (m : Outcome DualInfo) (m' : Outcome IpInfo) (f : DualInfo → Outcome DualInfo)
    (g : IpInfo → Outcome IpInfo)
    → m ≡ lifted info m'
    → ((part : IpInfo) → f (with_part info part) ≡ lifted info (g part))
    → (m >>= f) ≡ lifted info (m' >>= g)
round-same info m m' f g e h = rw e (
    bind_assoc m' (λ part. ok (with_part info part)) f
    ∙ (bind-cong m' _ _ h ∙ sym (bind_assoc m' g (λ part. ok (with_part info part)))))

store_answers-same :
    (buf : Bytes) (n : ℕ) (info : DualInfo) (rs : List ResRecord)
    → store_answers_for false buf n info rs ≡ lifted info (store_answers buf n (v6_part info) rs)
unfolding store_answers_for store_answers
store_answers-same buf zero info rs = refl
store_answers-same buf (suc n) info [] =
    round-same info _ _ _ _ (store_answer-same buf info no_record)
      (λ part. store_answers-same buf n (with_part info part) [])
store_answers-same buf (suc n) info (r ∷ rs) =
    round-same info _ _ _ _ (store_answer-same buf info r)
      (λ part. store_answers-same buf n (with_part info part) rs)

-- What the caller of the C resolver is left with, on the list with two arrays.
abbrev pub as_called : DualInfo → Left → Outcome Called
as_called info left = elim left.info [
  | none ↦ ok (returned none left.ret)
  | some part ↦ ok (returned (some (with_part info part)) left.ret)
]

-- The same first step, and then two ways to go on that agree.
binds-agree {ℓ} :
    {A : Type ℓ} {B : Type ℓ} {B' : Type ℓ} {C : Type ℓ} {D : Type ℓ} (m : Outcome A)
    (f : A → Outcome B) (g : B → Outcome D) (f' : A → Outcome B') (k : B' → Outcome C)
    (h : C → Outcome D)
    → ((a : A) → (f a >>= g) ≡ ((f' a >>= k) >>= h))
    → ((m >>= f) >>= g) ≡ (((m >>= f') >>= k) >>= h)
binds-agree (ok a) f g f' k h e = e a
binds-agree fault f g f' k h e = refl
binds-agree aborted f g f' k h e = refl
binds-agree out_of_fuel f g f' k h e = refl

-- What a call makes of its list.
abbrev ended : Option Bytes → IpInfo × Ret → Outcome Left
ended host' (info, ret) = ok (record { info = some info; ret = ret; host = host' })

verdict-same :
    (info : DualInfo) (host' : Option Bytes) (part : IpInfo)
    → ok (came_back (verdict (with_part info part))) ≡ (
        ((if part.size == 0 then ok (part, failure) else ok (part, success)) >>= ended host')
        >>= as_called info)
verdict-same info host' part = elim (Bool-cases (part.size == 0)) [
  | inl e ↦ rw e refl
  | inr e ↦ rw e refl
]

kept-same :
    (buf : Bytes) (n : ℕ) (info : DualInfo) (rs : List ResRecord) (host' : Option Bytes)
    → ((store_answers_for false buf n (record info { size = 0 }) rs >>= λ i. ok (verdict i))
        >>= λ r. ok (came_back r))
      ≡ ((keep_answers (v6_part info) (answered buf n rs) >>= ended host') >>= as_called info)
unfolding keep_answers
kept-same buf n info rs host' = rw (store_answers-same buf n (record info { size = 0 }) rs) (
    rw
      (bind_assoc (store_answers buf n (v6_part (record info { size = 0 })) rs)
        (λ part. ok (with_part info part)) (λ i. ok (verdict i)))
      (binds-agree (store_answers buf n (v6_part (record info { size = 0 })) rs) _ _ _ _ _
        (verdict-same info host')))

-- Over IPv6 the resolver for both families and the older C resolver do the same, whatever the
-- network, the packet, the allocator and the list: the same result and the same list, or the same
-- fault, wherever there is a server and a socket.
pub socketv6_gethostbyname-same :
    (net : Net) (host : Bytes) (info : DualInfo)
    → net.has_server ≡ true
    → net.has_socket ≡ true
    → socketv6_gethostbyname net (some host) (some info)
      ≡ (single_gethostbyname net (some host) (some (v6_part info)) >>= as_called info)
unfolding socketv6_gethostbyname single_gethostbyname query_for ask_with keep_answers
socketv6_gethostbyname-same net host info server socket =
    rw (server, socket)
      (binds-agree (exchange net.attempts 3 0 wide_buf) _ _ _ _ _ (λ recv_buf.
        binds-agree (answer_count recv_buf) _ _ _ _ _ (λ count.
          rw
            (
              read_answers-same net.alloc recv_buf net.fuel count 0
                  (send_packlen (prepare_for false net.pid wide_buf host)),
              prepare-same net.pid wide_buf host,
            )
            (binds-agree
              (read_answers net.alloc recv_buf net.fuel count 0
                (send_packlen (prepare_dns_query_packet net.pid wide_buf host).0))
              _ _ _ _ _
              (λ records.
                kept-same recv_buf count info records
                  (some (prepare_dns_query_packet net.pid wide_buf host).1))))))
