-- ===== src/Dns/Host/Attempts.antt =====
-- The attempts of socket_gethostbyname: which response it works on.
use personal_journal.Base.{
  ℕ, zero, suc, ◌+◌, ◌<◌, ◌≤◌, ◌≡◌, refl, sym, ap, ◌∙◌, Bool, true, Option, none, some, List, [],
  ◌∷◌, ◌++◌, arith, length, replicate, take, drop, ok, ℕ_discrete, subst,
}
use personal_journal.Dns.Memory.{Bytes, mem_copy, mem_copy-append, take-drop}
use personal_journal.Dns.Receive.{
  Select, interrupted, returned, recv_within_time, Attempt, exchange,
}
use personal_journal.Dns.Host.{zero_buf}

-- Some signals, and then a call of `select` that returns.
abbrev pub after_signals : ℕ → Select → List Select
after_signals zero s = s ∷ []
after_signals (suc n) s = interrupted ∷ after_signals n s

-- Signals do not change what RecvWithinTime returns: the datagram if the descriptor is readable and
-- not in the exception set, -1 otherwise.
pub recv_within_time-after_signals :
    (n : ℕ) (excepted readable : Bool) (received : Option Bytes)
    → recv_within_time (after_signals n (returned excepted readable)) received
      ≡ recv_within_time (returned excepted readable ∷ []) received
unfolding recv_within_time
recv_within_time-after_signals zero excepted readable received = refl
recv_within_time-after_signals (suc n) excepted readable received =
    recv_within_time-after_signals n excepted readable received

-- An attempt that is sent, and whose wait ends without a datagram, or with one.
pub record Lost (a : Attempt) : Type 0 where
  pub sent : a.sent ≡ true
  pub nothing : recv_within_time a.selects a.received ≡ ok none

pub record Got (a : Attempt) (packet : Bytes) : Type 0 where
  pub sent : a.sent ≡ true
  pub datagram : recv_within_time a.selects a.received ≡ ok (some packet)

module _ (attempts : ℕ → Attempt) (recv_buf : Bytes) where
  -- The first datagram among the attempts is the one in the buffer.
  pub exchange-Got :
      (packet : Bytes) (rounds i k : ℕ)
      → i ≤ k
      → k < i + rounds
      → ((j : ℕ) → i ≤ j → j < k → Lost (attempts j))
      → Got (attempts k) packet
      → exchange attempts rounds i recv_buf ≡ ok (mem_copy recv_buf 0 packet)
  unfolding exchange
  exchange-Got packet zero i k h h' lost got = absurd (omega arith)
  exchange-Got packet (suc n) i k h h' lost got = elim (ℕ_discrete i k) [
    | yes e ↦
        let here = subst (λ m. Got (attempts m) packet) (sym e) got in rw (here.sent, here.datagram)
    | no ne ↦
        let first = lost i (omega arith) (omega arith) in
        rw (first.sent, first.nothing)
          (exchange-Got packet n (i + 1) k (omega arith) (omega arith)
            (λ j a b. lost j (omega arith) b) got)
  ]

  -- Without a datagram the buffer stays as it was.
  pub exchange-Lost :
      (rounds i : ℕ)
      → ((j : ℕ) → i ≤ j → j < i + rounds → Lost (attempts j))
      → exchange attempts rounds i recv_buf ≡ ok recv_buf
  unfolding exchange
  exchange-Lost zero i lost = refl
  exchange-Lost (suc n) i lost =
      let first = lost i (omega arith) (omega arith) in
      rw (first.sent, first.nothing)
        (exchange-Lost n (i + 1) (λ j a b. lost j (omega arith) (omega arith)))

pub length-replicate : (n : ℕ) → length (replicate {A = ℕ} n 0) ≡ n
length-replicate zero = refl
length-replicate (suc n) = ap suc (length-replicate n)

pub length-zero_buf : length zero_buf ≡ 2048
unfolding zero_buf
length-zero_buf = length-replicate 2048

-- A received datagram stands at the front of the buffer.
pub copy-front :
    (blank packet : Bytes)
    → length packet ≤ length blank
    → (rest : Bytes) × (mem_copy blank 0 packet ≡ packet ++ rest)
copy-front blank packet h =
    let split = take-drop (length packet) blank h in
    let rest : Bytes = drop (length packet) blank in
    (
      rest,
      ap (λ b. mem_copy b 0 packet) split.0
          ∙ mem_copy-append [] (take (length packet) blank) rest packet 0 refl split.1,
    )
