-- ===== src/Dns/Threads/Births.antt =====
-- The threads that th_gethostbyname has still to create.
use personal_journal.Base.{
  ◌≡◌, ◌≢◌, refl, sym, subst, ap, ◌∙◌, ℕ, suc, ◌+◌, ◌-◌, Option, none, some, List,
}
use personal_journal.Dns.Memory.{Bytes}
use personal_journal.Dns.Answers.{IpInfo}
use personal_journal.Dns.Threads.{
  Thread, one, two, three, Phase, unborn, absent, asking, failing, failed, served, ready, storing,
  State, Waiter, creating, phase, set_phase, after, Step, create, create_failed, respond, give_up,
  acquire, store, found, release, count_failure, see, miss, stop, again, Reach, here, next, start,
}
use personal_journal.Dns.Threads.Invariant.{changed}
use personal_journal.Dns.Threads.Blocked.{other_phase}

-- Whether a thread is still to be created.
abbrev pub ToCome : Waiter → Thread → Type 0
ToCome (creating one) j = Unit
ToCome (creating two) one = ⊥
ToCome (creating two) two = Unit
ToCome (creating two) three = Unit
ToCome (creating three) three = Unit
ToCome _ _ = ⊥

abbrev pub AreUnborn : State → Type 0
AreUnborn s = (j : Thread) → ToCome s.waiter j → phase s j ≡ unborn

pub creating-ToCome : (i : Thread) → ToCome (creating i) i
creating-ToCome one = tt
creating-ToCome two = tt
creating-ToCome three = tt

after-ToCome : (i j : Thread) → ToCome (after i) j → ToCome (creating i) j
after-ToCome one j h = tt
after-ToCome two one h = absurd h
after-ToCome two two h = absurd h
after-ToCome two three h = tt
after-ToCome three j h = absurd h

after-ne : (i j : Thread) → ToCome (after i) j → i ≢ j
after-ne one one h = absurd h
after-ne one two h = λ e. cc
after-ne one three h = λ e. cc
after-ne two one h = absurd h
after-ne two two h = absurd h
after-ne two three h = λ e. cc
after-ne three j h = absurd h

pub waiter-set : (s : State) (i : Thread) (p : Phase) → (set_phase s i p).waiter ≡ s.waiter
waiter-set s one p = refl
waiter-set s two p = refl
waiter-set s three p = refl

renew :
    (s : State) (info : IpInfo) (l : Option Thread) (w : Waiter) (n f : ℕ) (i : Thread) (p : Phase)
    → ((j : Thread) → ToCome w j → (i ≢ j) × (phase s j ≡ unborn))
    → AreUnborn (set_phase (changed s info l w n f) i p)
renew s info l w n f i p rest j c =
    let k = rest j (subst (λ v. ToCome v j) (waiter-set (changed s info l w n f) i p) c) in
    other_phase s info l w n f i j p k.0 ∙ k.1

-- A thread that exists goes on.
older :
    (s : State) (info : IpInfo) (l : Option Thread) (n f : ℕ) (i : Thread) (q p : Phase)
    → phase s i ≡ q
    → q ≢ unborn
    → AreUnborn s
    → AreUnborn (set_phase (changed s info l s.waiter n f) i p)
older s info l n f i q p e born h =
    renew s info l s.waiter n f i p
      (λ j c. (λ same. born (sym e ∙ (ap (phase s) same ∙ h j c)), h j c))

-- A thread is created, or is not.
begun :
    (s : State) (n : ℕ) (i : Thread) (p : Phase)
    → s.waiter ≡ creating i
    → AreUnborn s
    → AreUnborn (set_phase (changed s s.info s.lock (after i) n s.fail_count) i p)
begun s n i p e h =
    renew s s.info s.lock (after i) n s.fail_count i p
      (λ j c. (after-ne i j c, h j (subst (λ v. ToCome v j) (sym e) (after-ToCome i j c))))

Step-AreUnborn : {s t : State} → Step s t → AreUnborn s → AreUnborn t
Step-AreUnborn {s} (create i e e') h = begun s s.server_num i asking e h
Step-AreUnborn {s} (create_failed i e e') h = begun s (s.server_num - 1) i absent e h
Step-AreUnborn {s} (respond i net host host' buf count rs e e') h =
    older s s.info s.lock s.server_num s.fail_count i asking (ready buf count rs) e (λ q. cc) h
Step-AreUnborn {s} (give_up i net host host' e e') h =
    older s s.info s.lock s.server_num s.fail_count i asking failing e (λ q. cc) h
Step-AreUnborn {s} (acquire i buf count rs e e') h =
    older s s.info (some i) s.server_num s.fail_count i (ready buf count rs) (storing buf count rs)
      e (λ q. cc) h
Step-AreUnborn {s} (store i buf left rs info e e') h =
    older s info s.lock s.server_num s.fail_count i (storing buf (suc left) rs) _ e (λ q. cc) h
Step-AreUnborn {s} (found i buf rs e pos) h =
    older s s.info s.lock s.server_num s.fail_count i (storing buf 0 rs) served e (λ q. cc) h
Step-AreUnborn {s} (release i buf rs e empty) h =
    older s s.info none s.server_num s.fail_count i (storing buf 0 rs) failing e (λ q. cc) h
Step-AreUnborn {s} (count_failure i e) h =
    older s s.info s.lock s.server_num (s.fail_count + 1) i failing failed e (λ q. cc) h
Step-AreUnborn {s} (see e e') h = λ j c. absurd c
Step-AreUnborn {s} (miss e e') h = λ j c. absurd c
Step-AreUnborn {s} (stop e e') h = λ j c. absurd c
Step-AreUnborn {s} (again e e') h = λ j c. absurd c

pub Reach-AreUnborn :
    (n f : ℕ) (slots : List Bytes) (s : State) → Reach (start n f slots) s → AreUnborn s
Reach-AreUnborn n f slots s here = elim [ one ↦ λ c. refl | two ↦ λ c. refl | three ↦ λ c. refl ]
Reach-AreUnborn n f slots s (next {t} r st) = Step-AreUnborn st (Reach-AreUnborn n f slots t r)
