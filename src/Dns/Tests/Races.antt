-- ===== src/Dns/Tests/Races.antt =====
-- A run of th_gethostbyname in which a thread is answered.
use personal_journal.Base.{◌≤◌, ◌≡◌, ◌⊎◌, refl, some, [], ◌∷◌, ◌++◌, arith, replicate, ok}
use personal_journal.Dns.Memory.{Bytes, mem_copy, byte}
use personal_journal.Dns.Tests.{label_a, nat64_address, reply, packet, empty_slots}
use personal_journal.Dns.Tests.Records.{rounding-IsRoomy}
use personal_journal.Dns.Tests.Queries.{net, response, names, first-Lost, arrival-Got}
use personal_journal.Dns.Answers.{
  ResRecord, IpInfo, store_answer, u16_at, read_address_bytes, put_address,
}
use personal_journal.Dns.Host.{zero_buf, answered, ask, success}
use personal_journal.Dns.Host.Resolve.{ask-response}
use personal_journal.Dns.Threads.{
  one, two, three, State, absent, served, returned, polling, Reach, create, create_failed, respond,
  acquire, store, found, see, here, next, start,
}
use personal_journal.Dns.Threads.Refine.{empty_list}
use personal_journal.Dns.Threads.Progress.{Turn, none_yet, own, Turns-success}

abbrev received : Bytes
received = mem_copy zero_buf 0 packet

abbrev record_read : ResRecord
record_read = record {
  name = some names.0.0;
  resource = some 21;
  rdata = some (nat64_address ++ 0 ∷ []);
}

answer : ask net label_a ≡ ok (answered received 1 (record_read ∷ []), 97 ∷ 46 ∷ [])
answer =
    ask-response net packet label_a [] (reply ∷ []) 1 refl refl (ground arith) (omega arith)
      (omega arith) first-Lost arrival-Got (omega arith) response (omega arith) (refl, tt)
      rounding-IsRoomy names

abbrev one_address : IpInfo
one_address = record { size = 1; v6_addr = nat64_address ∷ replicate 19 (replicate 16 0) }

stores : store_answer received (empty_list empty_slots) record_read ≡ ok one_address
unfolding store_answer u16_at byte read_address_bytes put_address zero_buf
stores = refl

-- The first thread is the only one that is created; it is answered and stores the address, and the
-- caller sees it.
abbrev answered_call : State
answered_call = record {
  info = one_address;
  lock = some one;
  server_num = 1;
  fail_count = 0;
  waiter = returned success;
  first = served;
  second = absent;
  third = absent;
}

-- The same before the caller looks.
abbrev stored_call : State
stored_call = record answered_call { waiter = polling }

run-stored : Reach (start 3 0 empty_slots) stored_call
run-stored =
    (next
      (next
        (next
          (next
            (next (next (next here (create one refl refl)) (create_failed two refl refl))
              (create_failed three refl refl))
            (respond one net label_a (97 ∷ 46 ∷ []) received 1 (record_read ∷ []) refl answer))
          (acquire one received 1 (record_read ∷ []) refl refl))
        (store one received 0 (record_read ∷ []) one_address refl stores))
      (found one received [] refl (omega arith)))

Turns-success_example : (1 ≤ 4) × ((answered_call.waiter ≡ returned success) ⊎ Turn answered_call)
Turns-success_example =
    Turns-success empty_slots stored_call refl run-stored (omega arith) 1 answered_call
      (own none_yet (see refl (omega arith)) (λ e. cc))
