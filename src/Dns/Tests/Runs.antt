-- ===== src/Dns/Tests/Runs.antt =====
-- Runs of th_gethostbyname.
use personal_journal.Base.{◌+◌, ◌≡◌, refl, true, false, none, some, List, [], arith, ok}
use personal_journal.Dns.Memory.{Bytes}
use personal_journal.Dns.Tests.{label_a, rounding, packet, empty_slots}
use personal_journal.Dns.Host.{Net, unasked, ask, ask_with, success, failure}
use personal_journal.Dns.Threads.{
  one, two, three, State, asking, failed, absent, served, ready, returned, polling, Reach, create,
  create_failed, give_up, count_failure, see, miss, stop, here, next, start,
}
use personal_journal.Dns.Threads.Invariant.{IsSafe}
use personal_journal.Dns.Threads.Preserve.{Reach-start-IsSafe}
use personal_journal.Dns.Threads.Result.{Means, Reach-start-Means}
use personal_journal.Dns.Threads.Blocked.{Reach-blocked}
use personal_journal.Dns.Threads.Stale.{unanswered, Reach-stale}

-- The socket cannot be opened; no thread but the first is created.
abbrev no_socket : Net
no_socket = record {
  has_server = true;
  has_socket = false;
  pid = 1;
  attempts = λ i. record { sent = false; selects = []; received = none };
  alloc = rounding;
  fuel = 1;
}

-- The call returns -1 after its only thread has failed.
abbrev pub fruitless_on : List Bytes → State
fruitless_on slots = record {
  info = record { size = 0; v6_addr = slots };
  lock = none;
  server_num = 1;
  fail_count = 1;
  waiter = returned failure;
  first = failed;
  second = absent;
  third = absent;
}

abbrev fruitless : State
fruitless = fruitless_on empty_slots

no_answer : ask no_socket label_a ≡ ok (unasked, label_a)
unfolding ask ask_with
no_answer = refl

pub run-fruitless : (slots : List Bytes) → Reach (start 3 0 slots) (fruitless_on slots)
run-fruitless slots =
    next
      (next
        (next
          (next
            (next (next (next here (create one refl refl)) (create_failed two refl refl))
              (create_failed three refl refl))
            (give_up one no_socket label_a label_a refl no_answer))
          (count_failure one refl))
        (miss refl refl))
      (stop refl refl)

Reach-start-IsSafe_example : IsSafe fruitless
Reach-start-IsSafe_example =
    Reach-start-IsSafe 3 0 empty_slots fruitless refl (run-fruitless empty_slots)

Reach-start-Means_example :
    (fruitless.fail_count ≡ 1) × (fruitless.server_num + 2 ≡ 3) × Means fruitless (returned failure)
Reach-start-Means_example = Reach-start-Means empty_slots fruitless refl (run-fruitless empty_slots)

Reach-stale_example : Reach (start 1 1 empty_slots) (unanswered 1 1 empty_slots)
Reach-stale_example =
    Reach-stale empty_slots empty_slots fruitless refl (run-fruitless empty_slots) refl

-- The first thread has stored an address, the second comes with another one.
abbrev after_first : State
after_first = record {
  info = record { size = 1; v6_addr = empty_slots };
  lock = some one;
  server_num = 3;
  fail_count = 0;
  waiter = polling;
  first = served;
  second = ready packet 1 [];
  third = asking;
}

after_first-IsSafe : IsSafe after_first
after_first-IsSafe = record {
  slots = refl;
  size = omega arith;
  free = λ e. cc;
  held = elim [ one ↦ λ e. tt | two ↦ λ e. cc | three ↦ λ e. cc ];
  fits = elim [ one ↦ (refl, omega arith) | two ↦ omega arith | three ↦ tt ];
}

Reach-blocked_example : (after_first.lock ≡ some one) × (after_first.second ≡ ready packet 1 [])
Reach-blocked_example =
    Reach-blocked after_first (record after_first { waiter = returned success }) one two packet 1 []
      after_first-IsSafe refl refl (next here (see refl (omega arith)))
