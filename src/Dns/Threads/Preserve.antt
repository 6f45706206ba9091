-- ===== src/Dns/Threads/Preserve.antt =====
-- The steps of the query threads and the invariant.
use personal_journal.Base.{
  ℕ, suc, ◌≤◌, ◌≡◌, ◌≢◌, refl, sym, subst, ◌∙◌, none, some, List, arith, length, ok, Ends, Yields,
  Yields-bind, Yields-any, ltb, if◌then◌else◌, Bool-cases, inl, inr,
}
use personal_journal.Dns.Memory.{Bytes}
use personal_journal.Dns.Answers.{
  IpInfo, ResRecord, answer_count, u16_at, store_answer, read_answers,
}
use personal_journal.Dns.Answers.Bounds.{IsValid, Grown, store_answer-Grown}
use personal_journal.Dns.Receive.{exchange}
use personal_journal.Dns.Host.{Net, zero_buf, Asked, unasked, answered, ask, ask_with}
use personal_journal.Dns.Threads.{
  Thread, Phase, unborn, absent, asking, failing, failed, served, ready, storing, State, phase,
  set_phase, Step, create, create_failed, respond, give_up, acquire, store, found, release,
  count_failure, see, miss, stop, again, Reach, here, next, start,
}
use personal_journal.Dns.Threads.Invariant.{Fits, IsSafe, refit, update, waiter-IsSafe, quiet}

-- What a thread's response holds: at most twenty answers to store.
abbrev Counted : Asked × Bytes → Type 0
Counted r = elim r.0 [ unasked ↦ Unit | answered buf count rs ↦ count ≤ 20 ]

answer_count-le : (buf : Bytes) → Yields (λ n. n ≤ 20) (answer_count buf)
unfolding answer_count
answer_count-le buf =
    Yields-bind (λ n. Unit) (λ n. n ≤ 20) (u16_at buf 6) _ (Yields-any (u16_at buf 6)) λ n _. few n
  where
    few : (n : ℕ) → (if ltb 20 n then 20 else n) ≤ 20
    few n = ground arith

ask-Counted : (net : Net) (host : Bytes) → Yields Counted (ask net host)
unfolding ask ask_with
ask-Counted net host = elim (Bool-cases net.has_server) [
  | inr e ↦ rw e tt
  | inl e ↦ elim (Bool-cases net.has_socket) [
    | inr e' ↦ rw (e, e') tt
    | inl e' ↦
        rw (e, e')
          (Yields-bind (λ b. Unit) Counted (exchange net.attempts 3 0 zero_buf) _ (Yields-any _)
            λ buf _.
              Yields-bind (λ n. n ≤ 20) Counted (answer_count buf) _ (answer_count-le buf)
                λ n few.
                  Yields-bind (λ r. Unit) Counted (read_answers net.alloc buf net.fuel n 0 _) _
                    (Yields-any _) λ rs _. few)
  ]
]

count_of_ask :
    (net : Net) (host host' buf : Bytes) (count : ℕ) (rs : List ResRecord)
    → ask net host ≡ ok (answered buf count rs, host')
    → count ≤ 20
count_of_ask net host host' buf count rs e = subst (Yields Counted) e (ask-Counted net host)

pub Grown-store :
    (buf : Bytes) (info info' : IpInfo) (r : ResRecord)
    → IsValid info
    → store_answer buf info r ≡ ok info'
    → Grown 1 info info'
Grown-store buf info info' r v e = subst (Ends (Grown 1 info)) e (store_answer-Grown buf info r v)

Fits-phase :
    (s : State) (i : Thread) (p : Phase) → IsSafe s → phase s i ≡ p → Fits s.lock s.info i p
Fits-phase s i p h e = subst (Fits s.lock s.info i) e (h.fits i)

some-inj : (i j : Thread) → some i ≡ some j → i ≡ j
some-inj i j e = cc

-- The cases in which the mutex or the list changes.
acquire-IsSafe :
    (s : State) (i : Thread) (buf : Bytes) (count : ℕ) (rs : List ResRecord)
    → IsSafe s
    → phase s i ≡ ready buf count rs
    → s.lock ≡ none
    → IsSafe (set_phase (record s { lock = some i }) i (storing buf count rs))
acquire-IsSafe s i buf count rs h e free =
    let none_held : (j : Thread) → s.lock ≢ some j = λ j l. cc in
    let few : count ≤ 20 = Fits-phase s i (ready buf count rs) h e in
    update s s.info (some i) s.waiter s.server_num s.fail_count i (storing buf count rs) h.slots
      h.size (λ l. cc) (λ l. tt) (λ j ne l. absurd (ne (sym (some-inj i j l))))
      (refl, omega (arith, h.free free, few))
      (λ j ne. refit s.lock (some i) s.info s.info j (phase s j) (none_held j) (h.fits j))

store-IsSafe :
    (s : State) (i : Thread) (buf : Bytes) (left : ℕ) (rs rs' : List ResRecord) (r : ResRecord)
    (info : IpInfo)
    → IsSafe s
    → phase s i ≡ storing buf (suc left) rs
    → store_answer buf s.info r ≡ ok info
    → IsSafe (set_phase (record s { info = info }) i (storing buf left rs'))
store-IsSafe s i buf left rs rs' r info h e stored =
    let mine = Fits-phase s i (storing buf (suc left) rs) h e in
    let g = Grown-store buf s.info info r (omega (arith, h.size, h.slots)) stored in
    update s info s.lock s.waiter s.server_num s.fail_count i (storing buf left rs')
      (omega (arith, g.same_array, h.slots)) (omega (arith, g.at_most, mine.1)) (λ l. cc) (λ l. tt)
      (λ j ne l. h.held j l) (mine.0, omega (arith, g.at_most, mine.1))
      (λ j ne.
        refit s.lock s.lock s.info info j (phase s j)
          (λ l. ne (sym (some-inj i j (sym mine.0 ∙ l)))) (h.fits j))

release-IsSafe :
    (s : State) (i : Thread) (buf : Bytes) (rs : List ResRecord)
    → IsSafe s
    → phase s i ≡ storing buf 0 rs
    → s.info.size ≡ 0
    → IsSafe (set_phase (record s { lock = none }) i failing)
release-IsSafe s i buf rs h e empty =
    let mine = Fits-phase s i (storing buf 0 rs) h e in
    update s s.info none s.waiter s.server_num s.fail_count i failing h.slots h.size (λ l. empty)
      (λ l. cc) (λ j ne l. cc) tt
      (λ j ne.
        refit s.lock none s.info s.info j (phase s j)
          (λ l. ne (sym (some-inj i j (sym mine.0 ∙ l)))) (h.fits j))

pub Step-IsSafe : {s t : State} → Step s t → IsSafe s → IsSafe t
Step-IsSafe {s} (create i e e') h = quiet s _ _ _ i unborn asking h e' (λ x. x) tt
Step-IsSafe {s} (create_failed i e e') h = quiet s _ _ _ i unborn absent h e' (λ x. x) tt
Step-IsSafe {s} (respond i net host host' buf count rs e e') h =
    quiet s _ _ _ i asking (ready buf count rs) h e (λ x. x)
      (count_of_ask net host host' buf count rs e')
Step-IsSafe {s} (give_up i net host host' e e') h = quiet s _ _ _ i asking failing h e (λ x. x) tt
Step-IsSafe {s} (acquire i buf count rs e e') h = acquire-IsSafe s i buf count rs h e e'
Step-IsSafe {s} (store i buf left rs info e e') h = store-IsSafe s i buf left rs _ _ info h e e'
Step-IsSafe {s} (found i buf rs e pos) h =
    quiet s _ _ _ i (storing buf 0 rs) served h e (λ x. x)
      ((Fits-phase s i (storing buf 0 rs) h e).0, pos)
Step-IsSafe {s} (release i buf rs e empty) h = release-IsSafe s i buf rs h e empty
Step-IsSafe {s} (count_failure i e) h = quiet s _ _ _ i failing failed h e (λ x. x) tt
Step-IsSafe {s} (see e e') h = waiter-IsSafe s _ h
Step-IsSafe {s} (miss e e') h = waiter-IsSafe s _ h
Step-IsSafe {s} (stop e e') h = waiter-IsSafe s _ h
Step-IsSafe {s} (again e e') h = waiter-IsSafe s _ h

start-IsSafe : (n f : ℕ) (slots : List Bytes) → length slots ≡ 20 → IsSafe (start n f slots)
start-IsSafe n f slots e = record {
  slots = e;
  size = omega arith;
  free = λ l. refl;
  held = λ i l. cc;
  fits = elim [ Thread.one ↦ tt | Thread.two ↦ tt | Thread.three ↦ tt ];
}

Reach-IsSafe : {s t : State} → IsSafe s → Reach s t → IsSafe t
Reach-IsSafe h here = h
Reach-IsSafe h (next r st) = Step-IsSafe st (Reach-IsSafe h r)

-- Whatever the three threads receive and however they interleave, the list never overflows during a
-- call that starts on an empty one of twenty slots; it is empty whenever the mutex is free; and a
-- thread writes to it only while it holds the mutex, which leaves room for the rest of its answers.
pub Reach-start-IsSafe :
    (n f : ℕ) (slots : List Bytes) (s : State)
    → length slots ≡ 20
    → Reach (start n f slots) s
    → IsSafe s
Reach-start-IsSafe n f slots s e r = Reach-IsSafe (start-IsSafe n f slots e) r
