-- ===== src/Dns/Threads/Counts.antt =====
-- Counting the query threads of the first call: the invariant behind the counters.
use personal_journal.Base.{
  ℕ, suc, ◌+◌, ◌-◌, ◌<◌, ◌≤◌, ◌≡◌, refl, sym, ◌∙◌, ap, Option, none, some, arith,
}
use personal_journal.Dns.Answers.{IpInfo}
use personal_journal.Dns.Host.{success, failure}
use personal_journal.Dns.Threads.{
  Thread, one, two, three, Phase, unborn, absent, asking, failing, failed, served, ready, storing,
  State, Waiter, phase, set_phase, Step, create, create_failed, respond, give_up, acquire, store,
  found, release, count_failure, see, miss, stop, again, creating, polling, checked, returned,
  after,
}
use personal_journal.Dns.Threads.Invariant.{IsSafe, changed}
use personal_journal.Dns.Threads.Preserve.{Grown-store}

-- How many threads a phase counts for: failed, absent and unborn ones.
abbrev pub failed_of : Phase → ℕ
failed_of failed = 1
failed_of _ = 0

abbrev pub absent_of : Phase → ℕ
absent_of absent = 1
absent_of _ = 0

abbrev pub unborn_of : Phase → ℕ
unborn_of unborn = 1
unborn_of _ = 0

abbrev pub tally : (Phase → ℕ) → State → ℕ
tally w s = w s.first + w s.second + w s.third

-- The threads that are still to create.
abbrev pub to_create : Waiter → ℕ
to_create (creating one) = 3
to_create (creating two) = 2
to_create (creating three) = 1
to_create _ = 0

abbrev pub Judged : (size settled : ℕ) → Waiter → Type 0
Judged size settled (returned success) = 0 < size
Judged size settled (returned failure) = 3 ≤ settled
Judged size settled _ = Unit

pub record IsCounted (s : State) : Type 0 where
  pub failures : s.fail_count ≡ tally failed_of s
  pub servers : s.server_num + tally absent_of s ≡ 3
  pub pending : tally unborn_of s ≡ to_create s.waiter
  pub judged : Judged s.info.size (tally failed_of s + tally absent_of s) s.waiter

-- A thread that moves from `q` to `p` changes a tally by what these two count for.
tally-set :
    (w : Phase → ℕ) (s : State) (info : IpInfo) (l : Option Thread) (v : Waiter) (n f : ℕ)
    (i : Thread) (q p : Phase)
    → phase s i ≡ q
    → tally w (set_phase (changed s info l v n f) i p) + w q ≡ tally w s + w p
tally-set w s info l v n f one q p e = rw (sym e) omega arith
tally-set w s info l v n f two q p e = rw (sym e) omega arith
tally-set w s info l v n f three q p e = rw (sym e) omega arith

Judged-grows : (m m' k k' : ℕ) (w : Waiter) → m ≤ m' → k ≤ k' → Judged m k w → Judged m' k' w
Judged-grows m m' k k' (creating i) a b h = tt
Judged-grows m m' k k' polling a b h = tt
Judged-grows m m' k k' checked a b h = tt
Judged-grows m m' k k' (returned success) a b h = omega (arith, a, h)
Judged-grows m m' k k' (returned failure) a b h = omega (arith, b, h)

-- What has to be counted after a thread's step.
recount :
    (s : State) (info : IpInfo) (l : Option Thread) (v : Waiter) (n f : ℕ) (i : Thread) (p : Phase)
    → let t = set_phase (changed s info l v n f) i p in
      f ≡ tally failed_of t
      → n + tally absent_of t ≡ 3
      → tally unborn_of t ≡ to_create v
      → Judged info.size (tally failed_of t + tally absent_of t) v
      → IsCounted t
recount s info l v n f one p a b c d = record { failures = a; servers = b; pending = c; judged = d }
recount s info l v n f two p a b c d = record { failures = a; servers = b; pending = c; judged = d }
recount s info l v n f three p a b c d = record {
  failures = a;
  servers = b;
  pending = c;
  judged = d;
}

-- A thread goes on, from a phase that counts for nothing to one that at most counts as failed.
quiet :
    (s : State) (info : IpInfo) (l : Option Thread) (f : ℕ) (i : Thread) (q p : Phase)
    → s.info.size ≤ info.size
    → phase s i ≡ q
    → failed_of q + absent_of q + unborn_of q ≡ 0
    → absent_of p + unborn_of p ≡ 0
    → f ≡ s.fail_count + failed_of p
    → IsCounted s
    → IsCounted (set_phase (changed s info l s.waiter s.server_num f) i p)
quiet s info l f i q p le e zq zp ef h =
    let a = tally-set failed_of s info l s.waiter s.server_num f i q p e in
    let b = tally-set absent_of s info l s.waiter s.server_num f i q p e in
    let c = tally-set unborn_of s info l s.waiter s.server_num f i q p e in
    recount s info l s.waiter s.server_num f i p (omega (arith, a, zq, zp, ef, h.failures))
      (omega (arith, b, zq, zp, h.servers)) (omega (arith, c, zq, zp, h.pending))
      (Judged-grows s.info.size info.size _ _ s.waiter le (omega (arith, a, b, zq, zp)) h.judged)

Judged-after : (size k : ℕ) (i : Thread) → Judged size k (after i)
Judged-after size k = elim [ one ↦ tt | two ↦ tt | three ↦ tt ]

to_create-after : (i : Thread) → to_create (creating i) ≡ to_create (after i) + 1
to_create-after = elim [ one ↦ refl | two ↦ refl | three ↦ refl ]

-- A thread is created, or is not.
begin :
    (s : State) (n : ℕ) (i : Thread) (p : Phase)
    → s.waiter ≡ creating i
    → phase s i ≡ unborn
    → failed_of p + unborn_of p ≡ 0
    → n + absent_of p ≡ s.server_num
    → IsCounted s
    → IsCounted (set_phase (changed s s.info s.lock (after i) n s.fail_count) i p)
begin s n i p e e' z en h =
    let a = tally-set failed_of s s.info s.lock (after i) n s.fail_count i unborn p e' in
    let b = tally-set absent_of s s.info s.lock (after i) n s.fail_count i unborn p e' in
    let c = tally-set unborn_of s s.info s.lock (after i) n s.fail_count i unborn p e' in
    let pending : tally unborn_of s ≡ to_create (creating i) = h.pending ∙ ap to_create e in
    recount s s.info s.lock (after i) n s.fail_count i p (omega (arith, a, z, h.failures))
      (omega (arith, b, en, h.servers)) (omega (arith, c, z, pending, to_create-after i))
      (Judged-after _ _ i)

-- Each thread counts at most once.
pub counts_once : (p : Phase) → failed_of p + absent_of p + unborn_of p ≤ 1
counts_once = elim [
  | unborn ↦ omega arith
  | absent ↦ omega arith
  | asking ↦ omega arith
  | failing ↦ omega arith
  | failed ↦ omega arith
  | served ↦ omega arith
  | ready b c r ↦ omega arith
  | storing b c r ↦ omega arith
]

pub tallies-le : (s : State) → tally failed_of s + tally absent_of s + tally unborn_of s ≤ 3
tallies-le s = omega (arith, counts_once s.first, counts_once s.second, counts_once s.third)

waiter-IsCounted :
    (s : State) (w : Waiter)
    → IsCounted s
    → to_create w ≡ to_create s.waiter
    → Judged s.info.size (tally failed_of s + tally absent_of s) w
    → IsCounted (record s { waiter = w })
waiter-IsCounted s w h e j = record {
  failures = h.failures;
  servers = h.servers;
  pending = h.pending ∙ sym e;
  judged = j;
}

pub Step-IsCounted : {s t : State} → Step s t → IsSafe s → IsCounted s → IsCounted t
Step-IsCounted {s} (create i e e') v h = begin s s.server_num i asking e e' refl (omega arith) h
Step-IsCounted {s} (create_failed i e e') v h =
    let pending : tally unborn_of s ≡ to_create (creating i) = h.pending ∙ ap to_create e in
    begin s (s.server_num - 1) i absent e e' refl
      (omega (arith, pending, to_create-after i, tallies-le s, h.servers)) h
Step-IsCounted {s} (respond i net host host' buf count rs e e') v h =
    quiet s s.info s.lock s.fail_count i asking (ready buf count rs) (omega arith) e refl refl
      (omega arith) h
Step-IsCounted {s} (give_up i net host host' e e') v h =
    quiet s s.info s.lock s.fail_count i asking failing (omega arith) e refl refl (omega arith) h
Step-IsCounted {s} (acquire i buf count rs e e') v h =
    quiet s s.info (some i) s.fail_count i (ready buf count rs) (storing buf count rs) (omega arith)
      e refl refl (omega arith) h
Step-IsCounted {s} (store i buf left rs info e e') v h =
    let g = Grown-store buf s.info info _ (omega (arith, v.size, v.slots)) e' in
    quiet s info s.lock s.fail_count i (storing buf (suc left) rs) _ g.grows e refl refl
      (omega arith) h
Step-IsCounted {s} (found i buf rs e pos) v h =
    quiet s s.info s.lock s.fail_count i (storing buf 0 rs) served (omega arith) e refl refl
      (omega arith) h
Step-IsCounted {s} (release i buf rs e empty) v h =
    quiet s s.info none s.fail_count i (storing buf 0 rs) failing (omega arith) e refl refl
      (omega arith) h
Step-IsCounted {s} (count_failure i e) v h =
    quiet s s.info s.lock (s.fail_count + 1) i failing failed (omega arith) e refl refl
      (omega arith) h
Step-IsCounted {s} (see e e') v h = waiter-IsCounted s _ h (sym (ap to_create e)) e'
Step-IsCounted {s} (miss e e') v h = waiter-IsCounted s _ h (sym (ap to_create e)) tt
Step-IsCounted {s} (again e e') v h = waiter-IsCounted s _ h (sym (ap to_create e)) tt
Step-IsCounted {s} (stop e e') v h =
    waiter-IsCounted s _ h (sym (ap to_create e)) (omega (arith, e', h.failures, h.servers))
