-- ===== src/Dns/Threads/Result.antt =====
-- What th_gethostbyname may conclude: the counters and its result, during the first call.
use personal_journal.Base.{
  ◌+◌, ◌<◌, ◌≤◌, ◌≡◌, refl, subst, List, arith, length, inl, inr, ◌⊎◌, Option-cases,
}
use personal_journal.Dns.Memory.{Bytes}
use personal_journal.Dns.Host.{success, failure}
use personal_journal.Dns.Threads.{
  Thread, one, two, three, Phase, unborn, absent, asking, failing, failed, served, ready, storing,
  State, Waiter, phase, Reach, here, next, start, creating, polling, checked, returned,
}
use personal_journal.Dns.Threads.Invariant.{Holds, IsSafe}
use personal_journal.Dns.Threads.Preserve.{Reach-start-IsSafe}
use personal_journal.Dns.Threads.Counts.{
  failed_of, absent_of, tally, Judged, IsCounted, Step-IsCounted, tallies-le, counts_once,
}

start-IsCounted : (slots : List Bytes) → IsCounted (start 3 0 slots)
start-IsCounted slots = record { failures = refl; servers = refl; pending = refl; judged = tt }

pub Reach-IsCounted :
    (slots : List Bytes) (s : State) → length slots ≡ 20 → Reach (start 3 0 slots) s → IsCounted s
Reach-IsCounted slots s n here = start-IsCounted slots
Reach-IsCounted slots s n (next {t} r st) =
    Step-IsCounted st (Reach-start-IsSafe 3 0 slots t n r) (Reach-IsCounted slots t n r)

-- The thread has counted a failure or was never created.
abbrev pub IsSettled : Phase → Type 0
IsSettled p = (p ≡ failed) ⊎ (p ≡ absent)

no_weight {ℓ} : {A : Type ℓ} → 1 ≤ 0 → A
no_weight le = absurd (omega (arith, le))

settled : (p : Phase) → 1 ≤ failed_of p + absent_of p → IsSettled p
settled failed le = inl refl
settled absent le = inr refl
settled unborn le = no_weight le
settled asking le = no_weight le
settled failing le = no_weight le
settled served le = no_weight le
settled (ready b c r) le = no_weight le
settled (storing b c r) le = no_weight le

unheld : (p : Phase) → IsSettled p → ¬ Holds p
unheld p (inl e) h = subst Holds e h
unheld p (inr e) h = subst Holds e h

-- No thread holds the mutex, so that the list is empty.
pub empty_when_settled :
    (s : State) → IsSafe s → ((i : Thread) → IsSettled (phase s i)) → s.info.size ≡ 0
empty_when_settled s v all = elim (Option-cases s.lock) [
  | inl e ↦ v.free e
  | inr (i, e) ↦ absurd (unheld (phase s i) (all i) (v.held i e))
]

-- What a result of th_gethostbyname says: 0, that there are addresses; -1, that there are none, and
-- that no query thread can still bring some.
abbrev pub Means : State → Waiter → Type 0
Means s (returned success) = 0 < s.info.size
Means s (returned failure) = (s.info.size ≡ 0) × ((i : Thread) → IsSettled (phase s i))
Means s _ = Unit

pub all_settled :
    (s : State) → 3 ≤ tally failed_of s + tally absent_of s → (i : Thread) → IsSettled (phase s i)
all_settled s le =
    let a = counts_once s.first in
    let b = counts_once s.second in
    let c = counts_once s.third in
    elim [
      | one ↦ settled s.first (omega (arith, le, a, b, c))
      | two ↦ settled s.second (omega (arith, le, a, b, c))
      | three ↦ settled s.third (omega (arith, le, a, b, c))
    ]

Judged-Means :
    (s : State) (w : Waiter)
    → IsSafe s
    → Judged s.info.size (tally failed_of s + tally absent_of s) w
    → Means s w
Judged-Means s (creating i) v j = tt
Judged-Means s polling v j = tt
Judged-Means s checked v j = tt
Judged-Means s (returned success) v j = j
Judged-Means s (returned failure) v j = (empty_when_settled s v (all_settled s j), all_settled s j)

-- In the program's first call, however the threads interleave and whichever of them cannot be
-- created: dnsquery_failcount is the number of threads that have failed, DNS64SERVERNUM that of the
-- threads that exist or are still to be created; if th_gethostbyname has returned 0, there are
-- addresses in the list, and if it has returned -1, there are none and every thread has failed or
-- was never created.
pub Reach-start-Means :
    (slots : List Bytes) (s : State)
    → length slots ≡ 20
    → Reach (start 3 0 slots) s
    → (s.fail_count ≡ tally failed_of s) × (s.server_num + tally absent_of s ≡ 3) × Means s s.waiter
Reach-start-Means slots s n r =
    let h = Reach-IsCounted slots s n r in
    (h.failures, h.servers, Judged-Means s s.waiter (Reach-start-IsSafe 3 0 slots s n r) h.judged)

-- A failed first call leaves the two counters equal.
pub counters_left :
    (slots : List Bytes) (s : State)
    → length slots ≡ 20
    → Reach (start 3 0 slots) s
    → s.waiter ≡ returned failure
    → s.fail_count ≡ s.server_num
counters_left slots s n r e =
    let h = Reach-IsCounted slots s n r in
    let many : 3 ≤ tally failed_of s + tally absent_of s =
      subst (Judged s.info.size (tally failed_of s + tally absent_of s)) e h.judged in
    omega (arith, many, tallies-le s, h.failures, h.servers)
