-- ===== src/Dns/Threads.antt =====
-- dns64_query_c/dns_v6/dnsquery.c: the three query threads (th_socket_gethostbyname) and the thread
-- that waits for them (th_gethostbyname), as interleaved steps over the variables that they share.
pub mod Invariant
pub mod Preserve
pub mod Counts
pub mod Result
pub mod Blocked
pub mod Stale
pub mod Births
pub mod Progress
pub mod Tells
pub mod Refine
use personal_journal.Base.{
  ℕ, zero, suc, ◌+◌, ◌-◌, ◌<◌, ◌≡◌, ◌≢◌, true, false, Option, none, some, List, [], ◌∷◌, ◌==◌, ok,
}
use personal_journal.Dns.Memory.{Bytes}
use personal_journal.Dns.Answers.{IpInfo, ResRecord, no_record, store_answer}
use personal_journal.Dns.Host.{Net, unasked, answered, ask, Ret, success, failure}

-- `dnsserver1`, `dnsserver2` and `dnsserver3`.
pub data Thread : Type 0 where
  one two three : Thread

-- A query thread: not created yet, not created at all (pthread_create failed), in
-- socket_gethostbyname before the mutex, at the mutex, storing with the rounds left, on its way to
-- count a failure, and ended, with a failure counted or with addresses stored.
pub data Phase : Type 0 where
  unborn absent asking failing failed served : Phase
  ready : Bytes → (count : ℕ) → List ResRecord → Phase
  storing : Bytes → (left : ℕ) → List ResRecord → Phase

-- th_gethostbyname: creating a thread, at the head of its loop, between the two tests, returned.
pub data Waiter : Type 0 where
  creating : Thread → Waiter
  polling checked : Waiter
  returned : Ret → Waiter

-- `_ipinfo`, the holder of `dnsquery_mutex`, DNS64SERVERNUM, dnsquery_failcount, and the threads.
pub record State : Type 0 where
  pub info : IpInfo
  pub lock : Option Thread
  pub server_num : ℕ
  pub fail_count : ℕ
  pub waiter : Waiter
  pub first : Phase
  pub second : Phase
  pub third : Phase

abbrev pub phase : State → Thread → Phase
phase s one = s.first
phase s two = s.second
phase s three = s.third

abbrev pub set_phase : State → Thread → Phase → State
set_phase s one p = record s { first = p }
set_phase s two p = record s { second = p }
set_phase s three p = record s { third = p }

-- What th_gethostbyname does after creating a thread.
abbrev pub after : Thread → Waiter
after one = creating two
after two = creating three
after three = polling

-- `answers[i]`, and the records behind it.
abbrev pub this_record : List ResRecord → ResRecord
this_record [] = no_record
this_record (r ∷ rs) = r

abbrev pub other_records : List ResRecord → List ResRecord
other_records [] = []
other_records (r ∷ rs) = rs

-- A step of one of the four threads; a step that would be a fault is none.
pub data Step (s : State) : State → Type 0 where
  create :
      (i : Thread)
      → s.waiter ≡ creating i
      → phase s i ≡ unborn
      → Step s (set_phase (record s { waiter = after i }) i asking)
  create_failed :
      (i : Thread)
      → s.waiter ≡ creating i
      → phase s i ≡ unborn
      → Step s (set_phase (record s { waiter = after i; server_num = s.server_num - 1 }) i absent)
  respond :
      (i : Thread) (net : Net) (host host' buf : Bytes) (count : ℕ) (rs : List ResRecord)
      → phase s i ≡ asking
      → ask net host ≡ ok (answered buf count rs, host')
      → Step s (set_phase s i (ready buf count rs))
  give_up :
      (i : Thread) (net : Net) (host host' : Bytes)
      → phase s i ≡ asking
      → ask net host ≡ ok (unasked, host')
      → Step s (set_phase s i failing)
  acquire :
      (i : Thread) (buf : Bytes) (count : ℕ) (rs : List ResRecord)
      → phase s i ≡ ready buf count rs
      → s.lock ≡ none
      → Step s (set_phase (record s { lock = some i }) i (storing buf count rs))
  store :
      (i : Thread) (buf : Bytes) (left : ℕ) (rs : List ResRecord) (info : IpInfo)
      → phase s i ≡ storing buf (suc left) rs
      → store_answer buf s.info (this_record rs) ≡ ok info
      → Step s (set_phase (record s { info = info }) i (storing buf left (other_records rs)))
  found :
      (i : Thread) (buf : Bytes) (rs : List ResRecord)
      → phase s i ≡ storing buf 0 rs
      → 0 < s.info.size
      → Step s (set_phase s i served)
  release :
      (i : Thread) (buf : Bytes) (rs : List ResRecord)
      → phase s i ≡ storing buf 0 rs
      → s.info.size ≡ 0
      → Step s (set_phase (record s { lock = none }) i failing)
  count_failure :
      (i : Thread)
      → phase s i ≡ failing
      → Step s (set_phase (record s { fail_count = s.fail_count + 1 }) i failed)
  see : s.waiter ≡ polling → 0 < s.info.size → Step s (record s { waiter = returned success })
  miss : s.waiter ≡ polling → s.info.size ≡ 0 → Step s (record s { waiter = checked })
  stop :
      s.waiter ≡ checked
      → s.fail_count ≡ s.server_num
      → Step s (record s { waiter = returned failure })
  again : s.waiter ≡ checked → s.fail_count ≢ s.server_num → Step s (record s { waiter = polling })

pub data Reach (s : State) : State → Type 0 where
  here : Reach s s
  next : {t u : State} → Reach s t → Step t u → Reach s u

-- A call of th_gethostbyname, on an empty list of twenty slots; the two counters are static
-- variables of the program.
abbrev pub start : (server_num fail_count : ℕ) → List Bytes → State
start server_num fail_count slots = record {
  info = record { size = 0; v6_addr = slots };
  lock = none;
  server_num = server_num;
  fail_count = fail_count;
  waiter = creating one;
  first = unborn;
  second = unborn;
  third = unborn;
}
