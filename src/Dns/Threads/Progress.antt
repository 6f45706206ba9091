-- ===== src/Dns/Threads/Progress.antt =====
-- th_gethostbyname once an address is in the list.
use personal_journal.Base.{
  ℕ, suc, ◌+◌, ◌-◌, ◌<◌, ◌≤◌, ◌≡◌, ◌≢◌, refl, sym, subst, ap, ◌∙◌, ◌⊎◌, inl, inr, Option, none,
  some, List, arith, length,
}
use personal_journal.Dns.Memory.{Bytes}
use personal_journal.Dns.Answers.{IpInfo}
use personal_journal.Dns.Host.{success, failure}
use personal_journal.Dns.Threads.{
  Thread, one, two, three, Phase, absent, asking, failing, failed, served, ready, storing, State,
  Waiter, creating, polling, checked, returned, set_phase, after, Step, create, create_failed,
  respond, give_up, acquire, store, found, release, count_failure, see, miss, stop, again, Reach,
  next, start,
}
use personal_journal.Dns.Threads.Invariant.{IsSafe, changed}
use personal_journal.Dns.Threads.Preserve.{Grown-store, Reach-start-IsSafe}
use personal_journal.Dns.Threads.Counts.{IsCounted}
use personal_journal.Dns.Threads.Result.{
  Means, Reach-IsCounted, Reach-start-Means, all_settled, empty_when_settled,
}
use personal_journal.Dns.Threads.Births.{
  ToCome, AreUnborn, creating-ToCome, waiter-set, Reach-AreUnborn,
}

-- How many steps the waiting thread has still to take.
abbrev pub rank : Waiter → ℕ
rank (creating one) = 4
rank (creating two) = 3
rank (creating three) = 2
rank checked = 2
rank polling = 1
rank (returned r) = 0

rank-after : (i : Thread) → suc (rank (after i)) ≤ rank (creating i)
rank-after = elim [ one ↦ omega arith | two ↦ omega arith | three ↦ omega arith ]

-- The steps of a run, with the number of those that the waiting thread has taken.
pub data Turns (s : State) : ℕ → State → Type 0 where
  none_yet : Turns s 0 s
  other : {k : ℕ} {t u : State} → Turns s k t → Step t u → u.waiter ≡ t.waiter → Turns s k u
  own : {k : ℕ} {t u : State} → Turns s k t → Step t u → u.waiter ≢ t.waiter → Turns s (suc k) u

-- What a step leaves of the list, and of the waiting thread's way.
abbrev Nearer : State → State → Type 0
Nearer s t = (0 < t.info.size) × ((t.waiter ≡ s.waiter) ⊎ (suc (rank t.waiter) ≤ rank s.waiter))

info-set : (s : State) (i : Thread) (p : Phase) → (set_phase s i p).info ≡ s.info
info-set s one p = refl
info-set s two p = refl
info-set s three p = refl

-- A query thread's step.
aside :
    (s : State) (info : IpInfo) (l : Option Thread) (n f : ℕ) (i : Thread) (p : Phase)
    → 0 < info.size
    → Nearer s (set_phase (changed s info l s.waiter n f) i p)
aside s info l n f i p pos = (
  subst (λ (x : IpInfo). 0 < x.size) (sym (info-set (changed s info l s.waiter n f) i p)) pos,
  inl (waiter-set (changed s info l s.waiter n f) i p),
)

begins :
    (s : State) (n : ℕ) (i : Thread) (p : Phase)
    → s.waiter ≡ creating i
    → 0 < s.info.size
    → Nearer s (set_phase (changed s s.info s.lock (after i) n s.fail_count) i p)
begins s n i p e pos =
    let t = changed s s.info s.lock (after i) n s.fail_count in
    let moved : rank (set_phase t i p).waiter ≡ rank (after i) = ap rank (waiter-set t i p) in
    let from : rank s.waiter ≡ rank (creating i) = ap rank e in
    (
      subst (λ (x : IpInfo). 0 < x.size) (sym (info-set t i p)) pos,
      inr (omega (arith, moved, from, rank-after i)),
    )

-- While there is an address, not all threads have failed.
not_all_failed :
    (s : State) → IsSafe s → IsCounted s → 0 < s.info.size → s.fail_count ≢ s.server_num
not_all_failed s v h pos e =
    let empty = empty_when_settled s v (all_settled s (omega (arith, e, h.failures, h.servers))) in
    absurd (omega (arith, empty, pos))

Step-Nearer : {s t : State} → Step s t → IsSafe s → IsCounted s → 0 < s.info.size → Nearer s t
Step-Nearer {s} (create i e e') v h pos = begins s s.server_num i asking e pos
Step-Nearer {s} (create_failed i e e') v h pos = begins s (s.server_num - 1) i absent e pos
Step-Nearer {s} (respond i net host host' buf count rs e e') v h pos =
    aside s s.info s.lock s.server_num s.fail_count i (ready buf count rs) pos
Step-Nearer {s} (give_up i net host host' e e') v h pos =
    aside s s.info s.lock s.server_num s.fail_count i failing pos
Step-Nearer {s} (acquire i buf count rs e e') v h pos =
    aside s s.info (some i) s.server_num s.fail_count i (storing buf count rs) pos
Step-Nearer {s} (store i buf left rs info e e') v h pos =
    let g = Grown-store buf s.info info _ (omega (arith, v.size, v.slots)) e' in
    aside s info s.lock s.server_num s.fail_count i (storing buf left _)
      (omega (arith, pos, g.grows))
Step-Nearer {s} (found i buf rs e q) v h pos =
    aside s s.info s.lock s.server_num s.fail_count i served pos
Step-Nearer {s} (release i buf rs e empty) v h pos =
    aside s s.info none s.server_num s.fail_count i failing pos
Step-Nearer {s} (count_failure i e) v h pos =
    aside s s.info s.lock s.server_num (s.fail_count + 1) i failed pos
Step-Nearer {s} (see e e') v h pos = (pos, inr (rw e omega arith))
Step-Nearer {s} (miss e e') v h pos = absurd (omega (arith, e', pos))
Step-Nearer {s} (stop e e') v h pos = absurd (not_all_failed s v h pos e')
Step-Nearer {s} (again e e') v h pos = (pos, inr (rw e omega arith))

-- The waiting thread can take a step, unless it has returned.
abbrev pub Turn : State → Type 0
Turn s = (t : State) × Step s t × (t.waiter ≢ s.waiter)

waiter-Turn :
    (s : State) (w : Waiter)
    → s.waiter ≡ w
    → AreUnborn s
    → IsSafe s
    → IsCounted s
    → 0 < s.info.size
    → w ≢ returned failure
    → (w ≡ returned success) ⊎ Turn s
waiter-Turn s (creating i) e born v h pos ne =
    let unborn_i = born i (subst (λ w. ToCome w i) (sym e) (creating-ToCome i)) in
    let stays_apart : (set_phase (record s { waiter = after i }) i asking).waiter ≢ s.waiter = λ q.
      let r : rank (after i) ≡ rank (creating i) =
        ap rank (sym (waiter-set (record s { waiter = after i }) i asking) ∙ (q ∙ e)) in
      absurd (omega (arith, r, rank-after i)) in
    inr (_, create i e unborn_i, stays_apart)
waiter-Turn s polling e born v h pos ne = inr (_, see e pos, λ q. cc)
waiter-Turn s checked e born v h pos ne = inr (_, again e (not_all_failed s v h pos), λ q. cc)
waiter-Turn s (returned success) e born v h pos ne = inl refl
waiter-Turn s (returned failure) e born v h pos ne = absurd (ne refl)

rank-le : (w : Waiter) → rank w ≤ 4
rank-le (creating one) = omega arith
rank-le (creating two) = omega arith
rank-le (creating three) = omega arith
rank-le polling = omega arith
rank-le checked = omega arith
rank-le (returned r) = omega arith

module _ (slots : List Bytes) (s : State) (n : length slots ≡ 20) (r : Reach (start 3 0 slots) s)
    (pos : 0 < s.info.size) where
  Turns-Reach : (k : ℕ) (t : State) → Turns s k t → Reach (start 3 0 slots) t
  Turns-Reach _ t none_yet = r
  Turns-Reach _ t (other {k = k} {t = u} p st e) = next (Turns-Reach k u p) st
  Turns-Reach _ t (own {k = k} {t = u} p st e) = next (Turns-Reach k u p) st

  near : (k : ℕ) (u t : State) → Turns s k u → Step u t → 0 < u.info.size → Nearer u t
  near k u t p st q =
      let x = Turns-Reach k u p in
      Step-Nearer st (Reach-start-IsSafe 3 0 slots u n x) (Reach-IsCounted slots u n x) q

  counts :
      (k : ℕ) (t : State) → Turns s k t → (0 < t.info.size) × (k + rank t.waiter ≤ rank s.waiter)
  counts _ t none_yet = (pos, omega arith)
  counts _ t (other {k = k} {t = u} p st e) =
      let before = counts k u p in
      let now = near k u t p st before.0 in
      let same : rank t.waiter ≡ rank u.waiter = ap rank e in (now.0, omega (arith, before.1, same))
  counts _ t (own {k = k} {t = u} p st e) =
      let before = counts k u p in
      let now = near k u t p st before.0 in
      (now.0, elim now.1 [ inl q ↦ absurd (e q) | inr l ↦ omega (arith, before.1, l) ])

  -- In the first call, once there is an address in the list: however the threads interleave from
  -- there, the waiting thread takes at most four more steps, and as long as it has not returned 0 it
  -- has one to take. With its share of the processor th_gethostbyname therefore returns 0.
  pub Turns-success :
      (k : ℕ) (t : State) → Turns s k t → (k ≤ 4) × ((t.waiter ≡ returned success) ⊎ Turn t)
  Turns-success k t p =
      let x = Turns-Reach k t p in
      let c = counts k t p in
      let means = (Reach-start-Means slots t n x).2 in
      (
        omega (arith, c.1, rank-le s.waiter),
        waiter-Turn t t.waiter refl (Reach-AreUnborn 3 0 slots t x)
            (Reach-start-IsSafe 3 0 slots t n x) (Reach-IsCounted slots t n x) c.0
            (λ q.
              let none' : (t.info.size ≡ 0) × _ = subst (Means t) q means in
              absurd (omega (arith, none'.0, c.0))),
      )
