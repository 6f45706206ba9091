-- ===== src/Dns/Threads/Invariant.antt =====
-- What holds whenever the query threads run: the mutex guards the list.
use personal_journal.Base.{ℕ, ◌+◌, ◌<◌, ◌≤◌, ◌≡◌, ◌≢◌, subst, Option, none, some, length}
use personal_journal.Dns.Answers.{IpInfo}
use personal_journal.Dns.Threads.{
  Thread, one, two, three, Phase, unborn, absent, asking, failing, failed, served, ready, storing,
  State, Waiter, phase, set_phase,
}

-- What a thread's phase says of the mutex and the list.
abbrev pub Fits : Option Thread → IpInfo → Thread → Phase → Type 0
Fits lock info i (ready buf count rs) = count ≤ 20
Fits lock info i (storing buf left rs) = (lock ≡ some i) × (info.size + left ≤ 20)
Fits lock info i served = (lock ≡ some i) × (0 < info.size)
Fits lock info i _ = Unit

-- The thread that holds the mutex is storing, or has stored and not released it.
abbrev pub Holds : Phase → Type 0
Holds (storing buf left rs) = Unit
Holds served = Unit
Holds _ = ⊥

pub record IsSafe (s : State) : Type 0 where
  pub slots : length s.info.v6_addr ≡ 20
  pub size : s.info.size ≤ 20
  pub free : s.lock ≡ none → s.info.size ≡ 0
  pub held : (i : Thread) → s.lock ≡ some i → Holds (phase s i)
  pub fits : (i : Thread) → Fits s.lock s.info i (phase s i)

-- A thread that does not hold the mutex fits any other holder and list.
pub refit :
    (l l' : Option Thread) (n n' : IpInfo) (i : Thread) (p : Phase)
    → l ≢ some i
    → Fits l n i p
    → Fits l' n' i p
refit l l' n n' i unborn ne h = tt
refit l l' n n' i absent ne h = tt
refit l l' n n' i asking ne h = tt
refit l l' n n' i failing ne h = tt
refit l l' n n' i failed ne h = tt
refit l l' n n' i served ne h = absurd (ne h.0)
refit l l' n n' i (ready buf count rs) ne h = h
refit l l' n n' i (storing buf left rs) ne h = absurd (ne h.0)

module _ (s : State) (info : IpInfo) (lock : Option Thread) (w : Waiter) (n f : ℕ) where
  abbrev pub changed : State
  changed = record s { info = info; lock = lock; waiter = w; server_num = n; fail_count = f }

  -- One thread changes the shared variables and its phase; the others fit what it leaves.
  pub update :
      (i : Thread) (p : Phase)
      → length info.v6_addr ≡ 20
      → info.size ≤ 20
      → (lock ≡ none → info.size ≡ 0)
      → (lock ≡ some i → Holds p)
      → ((j : Thread) → j ≢ i → lock ≡ some j → Holds (phase s j))
      → Fits lock info i p
      → ((j : Thread) → j ≢ i → Fits lock info j (phase s j))
      → IsSafe (set_phase changed i p)
  update one p a b c d e fit rest = record {
    slots = a;
    size = b;
    free = c;
    held = elim [ one ↦ d | two ↦ e two (λ q. cc) | three ↦ e three (λ q. cc) ];
    fits = elim [ one ↦ fit | two ↦ rest two (λ q. cc) | three ↦ rest three (λ q. cc) ];
  }
  update two p a b c d e fit rest = record {
    slots = a;
    size = b;
    free = c;
    held = elim [ one ↦ e one (λ q. cc) | two ↦ d | three ↦ e three (λ q. cc) ];
    fits = elim [ one ↦ rest one (λ q. cc) | two ↦ fit | three ↦ rest three (λ q. cc) ];
  }
  update three p a b c d e fit rest = record {
    slots = a;
    size = b;
    free = c;
    held = elim [ one ↦ e one (λ q. cc) | two ↦ e two (λ q. cc) | three ↦ d ];
    fits = elim [ one ↦ rest one (λ q. cc) | two ↦ rest two (λ q. cc) | three ↦ fit ];
  }

-- The waiting thread's own steps.
pub waiter-IsSafe : (s : State) (w : Waiter) → IsSafe s → IsSafe (record s { waiter = w })
waiter-IsSafe s w h = record {
  slots = h.slots;
  size = h.size;
  free = h.free;
  held = elim [ one ↦ h.held one | two ↦ h.held two | three ↦ h.held three ];
  fits = elim [ one ↦ h.fits one | two ↦ h.fits two | three ↦ h.fits three ];
}

-- A thread takes a new phase, and the list and the mutex are as in `s`.
pub quiet :
    (s : State) (w : Waiter) (n f : ℕ) (i : Thread) (q p : Phase)
    → IsSafe s
    → phase s i ≡ q
    → (Holds q → Holds p)
    → Fits s.lock s.info i p
    → IsSafe (set_phase (changed s s.info s.lock w n f) i p)
quiet s w n f i q p h e hold fit =
    update s s.info s.lock w n f i p h.slots h.size h.free (λ l. hold (subst Holds e (h.held i l)))
      (λ j ne l. h.held j l) fit (λ j ne. h.fits j)
