-- ===== src/Dns/Receive.antt =====
-- dns64_query_c/dns_v6/dnsquery.c: waiting for a datagram (RecvWithinTime) and the three attempts of
-- socket_gethostbyname to send the query and to receive a response.
use personal_journal.Base.{
  ℕ, zero, suc, ◌+◌, Bool, not, Option, none, some, List, [], ◌∷◌, if◌then◌else◌, Outcome, ok,
  out_of_fuel, ◌>>=◌,
}
use personal_journal.Dns.Memory.{Bytes, mem_copy}

-- How a call of `select` ends: by a signal (-1 with EINTR), or with the descriptor in the exception
-- set or in the read set, or in neither (a timeout).
pub data Select : Type 0 where
  interrupted : Select
  returned : (excepted readable : Bool) → Select

-- RecvWithinTime, given how its calls of `select` end and what `recvfrom` would yield (`none` is a
-- negative result). The value `none` is -1. When the listed calls are used up the loop still waits.
unfoldable pub recv_within_time : List Select → Option Bytes → Outcome (Option Bytes)
recv_within_time [] received = out_of_fuel
recv_within_time (interrupted ∷ selects) received = recv_within_time selects received
recv_within_time (returned excepted readable ∷ selects) received =
    if excepted then ok none else if readable then ok received else ok none

-- What the network does on one attempt: whether `sendto` succeeds, and the two calls above.
pub record Attempt : Type 0 where
  pub sent : Bool
  pub selects : List Select
  pub received : Option Bytes

-- `for (int i = 0; i < 3; i++)`, with the rounds left: the receive buffer afterwards.
unfoldable pub exchange : (ℕ → Attempt) → (rounds i : ℕ) → Bytes → Outcome Bytes
exchange attempts zero i recv_buf = ok recv_buf
exchange attempts (suc n) i recv_buf = if not (attempts i).sent then ok recv_buf else do
  r ← recv_within_time (attempts i).selects (attempts i).received
  elim r [
    | some packet ↦ ok (mem_copy recv_buf 0 packet)
    | none ↦ exchange attempts n (i + 1) recv_buf
  ]
