-- ===== src/P2p/Peer/Punch.antt =====
-- The sockets of connect_peer, and the functions that use one.
use personal_journal.Base.{
  ℕ, zero, suc, ◌+◌, ◌*◌, ◌≤◌, ◌<◌, ◌≡◌, refl, sym, ◌∙◌, ap, Bool, true, false, not, Bool-cases,
  inl, inr, Option, Option-cases, none, some, List, [], ◌∷◌, ◌++◌, append-nil, append_assoc, lt→ltb,
  ◌&&◌, arith, if◌then◌else◌,
}
use personal_journal.P2p.Peer.{
  Attempt, Trace, no_trace, safe_close, reaches, pause, connect_loop, connect_peer, finish_punch,
  punch_hole,
}

-- The attempts that are made: each up to the first that reaches the peer.
abbrev pub opened : (ℕ → Attempt) → (rounds i : ℕ) → List ℕ
opened attempts zero i = []
opened attempts (suc n) i =
    let rest = opened attempts n (i + 1) in
    elim (attempts i).sock [
      | none ↦ rest
      | some sock ↦ sock ∷ (if reaches (attempts i) then [] else rest)
    ]

-- The first of so many attempts that has a socket and reaches the peer.
abbrev pub first_reaching : (ℕ → Attempt) → (rounds i : ℕ) → Option ℕ
first_reaching attempts zero i = none
first_reaching attempts (suc n) i =
    let rest = first_reaching attempts n (i + 1) in
    elim (attempts i).sock [
      | none ↦ rest
      | some sock ↦ if reaches (attempts i) then some sock else rest
    ]

abbrev pub listed : Option ℕ → List ℕ
listed none = []
listed (some s) = s ∷ []

-- The first attempt that reaches the peer gives the socket, every other socket is closed, and the
-- time slept is bounded.
pub record Accounts (attempts : ℕ → Attempt) (n i : ℕ) (t : Trace) (r : Option ℕ × Trace)
    : Type 0 where
  pub first : r.0 ≡ first_reaching attempts n i
  pub closes : r.1.closed ++ listed r.0 ≡ t.closed ++ opened attempts n i
  pub sleeps : r.1.slept ≤ t.slept + 20 * n

abbrev pub IsDescriptor : Attempt → Type 0
IsDescriptor a = (s : ℕ) → a.sock ≡ some s → 0 < s

-- What a failed attempt with a socket leaves.
closed-safe_close :
    (sock : ℕ) (a : Attempt) (t : Trace)
    → 0 < sock
    → (safe_close sock (pause a t)).closed ≡ t.closed ++ sock ∷ []
closed-safe_close sock a t pos = rw (lt→ltb 0 sock pos) (same a.options_set a.bound a.timed_out)
  where
    same :
        (x y z : Bool)
        → (if x && y && not z then record t { slept = t.slept + 20 } else t).closed ++ sock ∷ []
          ≡ t.closed ++ sock ∷ []
    same x y z = elim (Bool-cases (x && y && not z)) [ inl e ↦ rw e refl | inr e ↦ rw e refl ]

slept-safe_close :
    (sock : ℕ) (a : Attempt) (t : Trace) → (safe_close sock (pause a t)).slept ≤ t.slept + 20
slept-safe_close sock a t = ground arith

connect_loop-Accounts :
    (attempts : ℕ → Attempt) (n i : ℕ) (t : Trace)
    → ((j : ℕ) → IsDescriptor (attempts j))
    → Accounts attempts n i t (connect_loop attempts n i t)
unfolding connect_loop
connect_loop-Accounts attempts zero i t pos = record {
  first = refl;
  closes = refl;
  sleeps = omega arith;
}
connect_loop-Accounts attempts (suc n) i t pos = elim (Option-cases (attempts i).sock) [
  | inl e ↦
      let rest = connect_loop-Accounts attempts n (i + 1) t pos in
      rw (e, connect_loop)
        (record {
          first = rw (e, first_reaching) rest.first;
          closes = rw (e, opened) rest.closes;
          sleeps = omega (arith, rest.sleeps);
        })
  | inr (sock, e) ↦ elim (Bool-cases (reaches (attempts i))) [
    | inl good ↦
        rw (e, connect_loop, good)
          (record {
            first = rw (e, first_reaching, good) refl;
            closes = rw (e, opened, good) refl;
            sleeps = omega arith;
          })
    | inr bad ↦
        let t' = safe_close sock (pause (attempts i) t) in
        let rest = connect_loop-Accounts attempts n (i + 1) t' pos in
        let slept = slept-safe_close sock (attempts i) t in
        let closed = closed-safe_close sock (attempts i) t (pos i sock e) in
        rw (e, connect_loop, bad)
          (record {
            first = rw (e, first_reaching, bad) rest.first;
            closes =
                rw (e, opened, bad)
                  (rest.closes
                    ∙ ap (λ l. l ++ opened attempts n (i + 1)) closed
                    ∙ append_assoc t.closed (sock ∷ []) (opened attempts n (i + 1)));
            sleeps = omega (arith, rest.sleeps, slept);
          })
  ]
]

-- If no socket is the descriptor 0, then of at most nine attempts connect_peer returns the socket of
-- the first that reaches the peer, or none if none does; the sockets that it has closed, in order,
-- and the one that it returns are all that were opened; and it sleeps at most 180 seconds.
pub connect_peer-Accounts :
    (attempts : ℕ → Attempt)
    → ((j : ℕ) → IsDescriptor (attempts j))
    → Accounts attempts 9 0 no_trace (connect_peer attempts)
unfolding connect_peer
connect_peer-Accounts attempts pos = connect_loop-Accounts attempts 9 0 no_trace pos

first_reaching-positive :
    (attempts : ℕ → Attempt) (n i s : ℕ)
    → ((j : ℕ) → IsDescriptor (attempts j))
    → first_reaching attempts n i ≡ some s
    → 0 < s
first_reaching-positive attempts zero i s pos e = cc
first_reaching-positive attempts (suc n) i s pos e = elim (Option-cases (attempts i).sock) [
  | inl none' ↦ first_reaching-positive attempts n (i + 1) s pos (skip none' e)
  | inr (sock, has) ↦ elim (Bool-cases (reaches (attempts i))) [
    | inl good ↦ let same : some sock ≡ some s = here has good e in pos i s (has ∙ same)
    | inr bad ↦ first_reaching-positive attempts n (i + 1) s pos (past has bad e)
  ]
]
  where
    skip :
        (attempts i).sock ≡ none
        → first_reaching attempts (suc n) i ≡ some s
        → first_reaching attempts n (i + 1) ≡ some s
    skip h e' = sym (rw (h, first_reaching) refl) ∙ e'

    here :
        {sock : ℕ}
        → (attempts i).sock ≡ some sock
        → reaches (attempts i) ≡ true
        → first_reaching attempts (suc n) i ≡ some s
        → some sock ≡ some s
    here h good e' = sym (rw (h, first_reaching, good) refl) ∙ e'

    past :
        {sock : ℕ}
        → (attempts i).sock ≡ some sock
        → reaches (attempts i) ≡ false
        → first_reaching attempts (suc n) i ≡ some s
        → first_reaching attempts n (i + 1) ≡ some s
    past h bad e' = sym (rw (h, first_reaching, bad) refl) ∙ e'

finish-closes :
    (attempts : ℕ → Attempt) (sent : Bool) (r : Option ℕ × Trace)
    → Accounts attempts 9 0 no_trace r
    → ((s : ℕ) → r.0 ≡ some s → 0 < s)
    → (finish_punch sent r).1.closed ≡ opened attempts 9 0
finish-closes attempts sent (none, t) a pos = sym (append-nil t.closed) ∙ a.closes
finish-closes attempts sent (some s, t) a pos = rw (lt→ltb 0 s (pos s refl)) a.closes

-- If no socket is the descriptor 0, punch_hole closes every socket that it has opened, once and in
-- order, whether a hole is punched, the text is sent, or neither.
pub punch_hole-closes :
    (attempts : ℕ → Attempt) (sent : Bool)
    → ((j : ℕ) → IsDescriptor (attempts j))
    → (punch_hole attempts sent).1.closed ≡ opened attempts 9 0
unfolding punch_hole
punch_hole-closes attempts sent pos =
    let a = connect_peer-Accounts attempts pos in
    finish-closes attempts sent (connect_peer attempts) a
      (λ s e. first_reaching-positive attempts 9 0 s pos (sym a.first ∙ e))
