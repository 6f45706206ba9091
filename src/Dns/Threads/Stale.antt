-- ===== src/Dns/Threads/Stale.antt =====
-- The call of th_gethostbyname after a failed one: the static counters are not reset.
use personal_journal.Base.{ℕ, ◌≡◌, refl, none, List, length}
use personal_journal.Dns.Memory.{Bytes}
use personal_journal.Dns.Host.{failure}
use personal_journal.Dns.Threads.{
  one, two, three, asking, State, create, miss, stop, Reach, here, next, start, returned,
}
use personal_journal.Dns.Threads.Result.{counters_left}

-- A call that has returned -1 with its three threads created and none answered.
abbrev pub unanswered : (server_num fail_count : ℕ) → List Bytes → State
unanswered n f slots = record {
  info = record { size = 0; v6_addr = slots };
  lock = none;
  server_num = n;
  fail_count = f;
  waiter = returned failure;
  first = asking;
  second = asking;
  third = asking;
}

equal_counters-stop :
    (n f : ℕ) (slots : List Bytes) → f ≡ n → Reach (start n f slots) (unanswered n f slots)
equal_counters-stop n f slots e =
    next
      (next
        (next (next (next here (create one refl refl)) (create two refl refl))
          (create three refl refl))
        (miss refl refl))
      (stop refl e)

-- When the first call has returned -1, the next one, with the counters as the first has left them,
-- can return -1 as well while all its three threads still wait for their answers.
pub Reach-stale :
    (slots slots' : List Bytes) (s : State)
    → length slots ≡ 20
    → Reach (start 3 0 slots) s
    → s.waiter ≡ returned failure
    → Reach (start s.server_num s.fail_count slots') (unanswered s.server_num s.fail_count slots')
Reach-stale slots slots' s n r e =
    equal_counters-stop s.server_num s.fail_count slots' (counters_left slots s n r e)
