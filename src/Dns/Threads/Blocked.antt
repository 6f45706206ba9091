-- ===== src/Dns/Threads/Blocked.antt =====
-- The mutex after a query has found addresses: socket_gethostbyname returns without releasing it.
use personal_journal.Base.{ℕ, ◌≡◌, ◌≢◌, refl, sym, subst, ap, ◌∙◌, Option, none, some, List}
use personal_journal.Dns.Memory.{Bytes}
use personal_journal.Dns.Answers.{IpInfo, ResRecord}
use personal_journal.Dns.Threads.{
  Thread, one, two, three, Phase, unborn, absent, asking, failing, failed, served, ready, storing,
  State, Waiter, phase, set_phase, Step, create, create_failed, respond, give_up, acquire, store,
  found, release, count_failure, see, miss, stop, again, Reach, here, next,
}
use personal_journal.Dns.Threads.Invariant.{IsSafe, Fits, changed}
use personal_journal.Dns.Threads.Preserve.{Step-IsSafe}

instance Thread_discrete : Discrete Thread
Thread_discrete one one = yes refl
Thread_discrete one two = no λ e. cc
Thread_discrete one three = no λ e. cc
Thread_discrete two one = no λ e. cc
Thread_discrete two two = yes refl
Thread_discrete two three = no λ e. cc
Thread_discrete three one = no λ e. cc
Thread_discrete three two = no λ e. cc
Thread_discrete three three = yes refl

-- A thread's step leaves the other threads' phases.
pub other_phase :
    (s : State) (info : IpInfo) (l : Option Thread) (w : Waiter) (n f : ℕ) (i j : Thread)
    (p : Phase)
    → i ≢ j
    → phase (set_phase (changed s info l w n f) i p) j ≡ phase s j
other_phase s info l w n f one one p ne = absurd (ne refl)
other_phase s info l w n f one two p ne = refl
other_phase s info l w n f one three p ne = refl
other_phase s info l w n f two one p ne = refl
other_phase s info l w n f two two p ne = absurd (ne refl)
other_phase s info l w n f two three p ne = refl
other_phase s info l w n f three one p ne = refl
other_phase s info l w n f three two p ne = refl
other_phase s info l w n f three three p ne = absurd (ne refl)

-- The phases in which a thread has a step, given the mutex.
abbrev CanStep : Option Thread → Phase → Type 0
CanStep l (ready buf count rs) = l ≡ none
CanStep l absent = ⊥
CanStep l failed = ⊥
CanStep l served = ⊥
CanStep l _ = Unit

moves :
    (s : State) (info : IpInfo) (l : Option Thread) (w : Waiter) (n f : ℕ) (i j : Thread)
    (q p : Phase)
    → phase s i ≡ q
    → CanStep s.lock q
    → ¬ CanStep s.lock (phase s j)
    → phase (set_phase (changed s info l w n f) i p) j ≡ phase s j
moves s info l w n f i j q p e can stuck =
    other_phase s info l w n f i j p
      λ same. stuck (subst (CanStep s.lock) (sym e ∙ ap (phase s) same) can)

-- Whatever step is taken, a thread that has none stays in its phase.
Step-phase :
    {s t : State} → Step s t → (j : Thread) → ¬ CanStep s.lock (phase s j) → phase t j ≡ phase s j
Step-phase {s} (create i e e') j c = moves s _ _ _ _ _ i j unborn asking e' tt c
Step-phase {s} (create_failed i e e') j c = moves s _ _ _ _ _ i j unborn absent e' tt c
Step-phase {s} (respond i net host host' buf count rs e e') j c =
    moves s _ _ _ _ _ i j asking (ready buf count rs) e tt c
Step-phase {s} (give_up i net host host' e e') j c = moves s _ _ _ _ _ i j asking failing e tt c
Step-phase {s} (acquire i buf count rs e e') j c =
    moves s _ _ _ _ _ i j (ready buf count rs) (storing buf count rs) e e' c
Step-phase {s} (store i buf left rs info e e') j c =
    moves s info s.lock s.waiter s.server_num s.fail_count i j _ _ e tt c
Step-phase {s} (found i buf rs e pos) j c = moves s _ _ _ _ _ i j (storing buf 0 rs) served e tt c
Step-phase {s} (release i buf rs e empty) j c =
    moves s s.info none s.waiter s.server_num s.fail_count i j (storing buf 0 rs) failing e tt c
Step-phase {s} (count_failure i e) j c = moves s _ _ _ _ _ i j failing failed e tt c
Step-phase {s} (see e e') one c = refl
Step-phase {s} (see e e') two c = refl
Step-phase {s} (see e e') three c = refl
Step-phase {s} (miss e e') one c = refl
Step-phase {s} (miss e e') two c = refl
Step-phase {s} (miss e e') three c = refl
Step-phase {s} (stop e e') one c = refl
Step-phase {s} (stop e e') two c = refl
Step-phase {s} (stop e e') three c = refl
Step-phase {s} (again e e') one c = refl
Step-phase {s} (again e e') two c = refl
Step-phase {s} (again e e') three c = refl

-- Once a thread has stored addresses.
record Stuck (i j : Thread) (buf : Bytes) (count : ℕ) (rs : List ResRecord) (s : State)
    : Type 0 where
  safe : IsSafe s
  done : phase s i ≡ served
  waits : phase s j ≡ ready buf count rs

locked : (s : State) (i : Thread) → IsSafe s → phase s i ≡ served → s.lock ≡ some i
locked s i v e = (subst (Fits s.lock s.info i) e (v.fits i)).0

Step-Stuck :
    (i j : Thread) (buf : Bytes) (count : ℕ) (rs : List ResRecord) {s t : State}
    → Step s t
    → Stuck i j buf count rs s
    → Stuck i j buf count rs t
Step-Stuck i j buf count rs {s} st h =
    let held = locked s i h.safe h.done in
    record {
      safe = Step-IsSafe st h.safe;
      done = Step-phase st i (λ c. subst (CanStep s.lock) h.done c) ∙ h.done;
      waits =
          Step-phase st j (λ c. let free : s.lock ≡ none = subst (CanStep s.lock) h.waits c in cc)
          ∙ h.waits;
    }

Reach-Stuck :
    (i j : Thread) (buf : Bytes) (count : ℕ) (rs : List ResRecord) (s t : State)
    → Stuck i j buf count rs s
    → Reach s t
    → Stuck i j buf count rs t
Reach-Stuck i j buf count rs s t h here = h
Reach-Stuck i j buf count rs s t h (next r st) =
    Step-Stuck i j buf count rs st (Reach-Stuck i j buf count rs s _ h r)

-- A thread that has stored addresses keeps the mutex for ever: in every later state it holds it, and
-- any other thread that was waiting for it with answers still waits.
pub Reach-blocked :
    (s t : State) (i j : Thread) (buf : Bytes) (count : ℕ) (rs : List ResRecord)
    → IsSafe s
    → phase s i ≡ served
    → phase s j ≡ ready buf count rs
    → Reach s t
    → (t.lock ≡ some i) × (phase t j ≡ ready buf count rs)
Reach-blocked s t i j buf count rs v e w r =
    let h = Reach-Stuck i j buf count rs s t (record { safe = v; done = e; waits = w }) r in
    (locked t i h.safe h.done, h.waits)
