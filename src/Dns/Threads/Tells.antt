-- ===== src/Dns/Threads/Tells.antt =====
-- What the list of the query threads owes to the response of the thread that holds the mutex.
use personal_journal.Base.{
  ℕ, suc, ◌≡◌, ◌≢◌, refl, sym, ap, ◌∙◌, inl, inr, Option, none, some, List, [], ◌∷◌, arith, ◌==◌,
  true, false, Outcome, ok, fault, aborted, out_of_fuel, ◌>>=◌, Yields, if◌then◌else◌, Bool-cases,
}
use personal_journal.Dns.Memory.{Bytes}
use personal_journal.Dns.Answers.{IpInfo, ResRecord, store_answer, store_answers}
use personal_journal.Dns.Answers.Kept.{IsKept}
use personal_journal.Dns.Host.{Net, answered, ask, Took, take_answers, success, failure}
use personal_journal.Dns.Threads.{
  Thread, one, two, three, Phase, unborn, absent, asking, failing, failed, served, ready, storing,
  State, Waiter, phase, set_phase, this_record, other_records,
}
use personal_journal.Dns.Threads.Invariant.{Holds, Fits, changed}

-- A response that a query to a server can bring.
abbrev pub IsResponse : Bytes → (count : ℕ) → List ResRecord → Type 0
IsResponse buf count rs =
    (net : Net) × (host : Bytes) × (host' : Bytes) × (ask net host
      ≡ ok (answered buf count rs, host'))

-- The end of take_answers, on the list that the loop has left.
abbrev pub conclude : IpInfo → Outcome Took
conclude info =
    if info.size == 0
    then ok (record { info = info; ret = failure; holds_mutex = false })
    else ok (record { info = info; ret = success; holds_mutex = true })

-- What a thread that holds the mutex will come to, if it goes on.
abbrev pub remaining : IpInfo → Phase → Outcome Took
remaining info (storing buf left rs) = store_answers buf left info rs >>= conclude
remaining info served = ok (record { info = info; ret = success; holds_mutex = true })
remaining info _ = fault

abbrev pub Comes : (first info : IpInfo) → Phase → Type 0
Comes first info p =
    (buf : Bytes) × (count : ℕ) × (rs : List ResRecord) × IsResponse buf count rs
    × (remaining info p ≡ take_answers first (answered buf count rs))

abbrev pub Tells : (first info : IpInfo) → Phase → Type 0
Tells first info (ready buf count rs) = IsResponse buf count rs
Tells first info (storing buf left rs) = Comes first info (storing buf left rs)
Tells first info served = Comes first info served
Tells first info _ = Unit

pub record IsTold (first : IpInfo) (s : State) : Type 0 where
  pub free : s.lock ≡ none → s.info ≡ first
  pub tells : (i : Thread) → Tells first s.info (phase s i)

-- A thread that does not hold the mutex says nothing of the list.
pub retell :
    (first info info' : IpInfo) (p : Phase) → ¬ Holds p → Tells first info p → Tells first info' p
retell first info info' unborn n t = tt
retell first info info' absent n t = tt
retell first info info' asking n t = tt
retell first info info' failing n t = tt
retell first info info' failed n t = tt
retell first info info' served n t = absurd (n tt)
retell first info info' (ready buf count rs) n t = t
retell first info info' (storing buf left rs) n t = absurd (n tt)

-- A thread takes a new phase.
pub tell :
    (first : IpInfo) (s : State) (info : IpInfo) (l : Option Thread) (w : Waiter) (n f : ℕ)
    (i : Thread) (p : Phase)
    → (l ≡ none → info ≡ first)
    → Tells first info p
    → ((j : Thread) → j ≢ i → Tells first info (phase s j))
    → IsTold first (set_phase (changed s info l w n f) i p)
tell first s info l w n f one p e t rest = record {
  free = e;
  tells = elim [ one ↦ t | two ↦ rest two (λ q. cc) | three ↦ rest three (λ q. cc) ];
}
tell first s info l w n f two p e t rest = record {
  free = e;
  tells = elim [ one ↦ rest one (λ q. cc) | two ↦ t | three ↦ rest three (λ q. cc) ];
}
tell first s info l w n f three p e t rest = record {
  free = e;
  tells = elim [ one ↦ rest one (λ q. cc) | two ↦ rest two (λ q. cc) | three ↦ t ];
}

-- The list and the mutex stay.
pub tell_more :
    (first : IpInfo) (s : State) (w : Waiter) (n f : ℕ) (i : Thread) (p : Phase)
    → IsTold first s
    → Tells first s.info p
    → IsTold first (set_phase (changed s s.info s.lock w n f) i p)
tell_more first s w n f i p h t = tell first s s.info s.lock w n f i p h.free t (λ j ne. h.tells j)

pub waiter-IsTold :
    (first : IpInfo) (s : State) (w : Waiter)
    → IsTold first s
    → IsTold first (record s { waiter = w })
waiter-IsTold first s w h = record {
  free = h.free;
  tells = elim [ one ↦ h.tells one | two ↦ h.tells two | three ↦ h.tells three ];
}

pub some-inj : (i j : Thread) → some i ≡ some j → i ≡ j
some-inj i j e = cc

-- A thread that holds the mutex is the one that the mutex names.
pub holder :
    (l : Option Thread) (info : IpInfo) (j : Thread) (p : Phase)
    → Fits l info j p
    → Holds p
    → l ≡ some j
holder l info j unborn f h = absurd h
holder l info j absent f h = absurd h
holder l info j asking f h = absurd h
holder l info j failing f h = absurd h
holder l info j failed f h = absurd h
holder l info j (ready buf count rs) f h = absurd h
holder l info j (storing buf left rs) f h = f.0
holder l info j served f h = f.0

-- A round of the loop.
pub store_answers-round :
    (buf : Bytes) (left : ℕ) (rs : List ResRecord) (info info' : IpInfo)
    → store_answer buf info (this_record rs) ≡ ok info'
    → store_answers buf (suc left) info rs ≡ store_answers buf left info' (other_records rs)
unfolding store_answers
store_answers-round buf left [] info info' e = rw e refl
store_answers-round buf left (r ∷ rs) info info' e = rw e refl

took_info : IpInfo → Outcome Took → IpInfo
took_info info (ok t) = t.info
took_info info _ = info

took_info-conclude : (d info : IpInfo) → took_info d (conclude info) ≡ info
unfolding took_info
took_info-conclude d info = elim (Bool-cases (info.size == 0)) [
  | inl z ↦ rw z refl
  | inr z ↦ rw z refl
]

concluded : (info : IpInfo) → (t : Took) × (conclude info ≡ ok t)
concluded info = elim (Bool-cases (info.size == 0)) [
  | inl z ↦ (record { info = info; ret = failure; holds_mutex = false }, rw z refl)
  | inr z ↦ (record { info = info; ret = success; holds_mutex = true }, rw z refl)
]

-- A response that has left the list empty has not touched it.
pub untouched :
    (first info : IpInfo) (m : Outcome IpInfo)
    → Yields (IsKept first) m
    → first.size ≡ 0
    → info.size ≡ 0
    → conclude info ≡ (m >>= conclude)
    → info ≡ first
untouched first info (ok b) y z e q =
    let same : info ≡ b =
      sym (took_info-conclude first info) ∙ (ap (took_info first) q ∙ took_info-conclude first b) in
    let size : info.size ≡ b.size = ap (λ (x : IpInfo). x.size) same in
    elim y [ inl k ↦ same ∙ k | inr l ↦ absurd (omega (arith, l, size, e)) ]
untouched first info fault y z e q = let (t, c) = concluded info in cc
untouched first info aborted y z e q = let (t, c) = concluded info in cc
untouched first info out_of_fuel y z e q = let (t, c) = concluded info in cc
