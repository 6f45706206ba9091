-- ===== src/P2p/Client/Held.antt =====
-- The sockets that a peer holds between connect_server and uninit.
use personal_journal.Base.{
  ℕ, ◌<◌, ◌≡◌, refl, ◌∙◌, Bool-cases, inl, inr, ◌⊎◌, Option, none, some, List, [], ◌∷◌, ◌++◌, ◌==◌,
  ltb, lt→ltb, Ret, success, failure,
}
use personal_journal.P2p.Peer.{test_peer_device_sn}
use personal_journal.P2p.Client.{
  Peer, Calls, close_sock, add_ping_timer, add_user_timer, add_query_timer, dispatch, then_do,
  uninit,
}

abbrev pub Occurs : ℕ → List ℕ → Type 0
Occurs s [] = ⊥
Occurs s (x ∷ xs) = (s ≡ x) ⊎ Occurs s xs

-- What the steps after connect_server keep.
pub record Holding (l : ℕ) (sock : Option ℕ) (closed : List ℕ) (p : Peer) : Type 0 where
  pub listener : p.client.listener ≡ some l
  pub conn : p.client.conn_server_sock ≡ sock
  pub shut : p.closed ≡ closed

module _ (c : Calls) (l : ℕ) (sock : Option ℕ) (closed : List ℕ) where
  then_do-Holding :
      (x : Peer × Ret) (f : Peer → Peer × Ret)
      → Holding l sock closed x.0
      → ((p : Peer) → Holding l sock closed p → Holding l sock closed (f p).0)
      → Holding l sock closed (then_do x f).0
  then_do-Holding (p, failure) f h k = h
  then_do-Holding (p, success) f h k = k p h

  ping-Holding : (p : Peer) → Holding l sock closed p → Holding l sock closed (add_ping_timer c p).0
  unfolding add_ping_timer
  ping-Holding p h = elim (Bool-cases c.ping_event_made) [
    | inl e ↦ rw e (record { listener = h.listener; conn = h.conn; shut = h.shut })
    | inr e ↦ rw e h
  ]

  query-Holding :
      (p : Peer) → Holding l sock closed p → Holding l sock closed (add_query_timer c p).0
  unfolding add_user_timer
  query-Holding p h = elim (Bool-cases (p.client.device_sn == test_peer_device_sn)) [
    | inl e ↦ rw e h
    | inr e ↦ elim (Bool-cases c.user_event_made) [
      | inl u ↦ rw (e, u) (record { listener = h.listener; conn = h.conn; shut = h.shut })
      | inr u ↦ rw (e, u) h
    ]
  ]

  -- From the connection on.
  pub rest-Holding :
      (x : Peer × Ret)
      → Holding l sock closed x.0
      → Holding l sock closed
          (then_do (then_do (then_do x (add_ping_timer c)) (add_query_timer c)) (dispatch c)).0
  rest-Holding x h =
      then_do-Holding (then_do (then_do x (add_ping_timer c)) (add_query_timer c)) (dispatch c)
        (then_do-Holding (then_do x (add_ping_timer c)) (add_query_timer c)
          (then_do-Holding x (add_ping_timer c) h ping-Holding) query-Holding)
        (λ p h'. h')

Occurs-append : (s : ℕ) (xs ys : List ℕ) → Occurs s xs → Occurs s (xs ++ ys)
Occurs-append s [] ys h = absurd h
Occurs-append s (x ∷ xs) ys (inl e) = inl e
Occurs-append s (x ∷ xs) ys (inr h) = inr (Occurs-append s xs ys h)

Occurs-last : (s : ℕ) (xs : List ℕ) → Occurs s (xs ++ s ∷ [])
Occurs-last s [] = inl refl
Occurs-last s (x ∷ xs) = inr (Occurs-last s xs)

Occurs-close_sock : (s : ℕ) (o : Option ℕ) (xs : List ℕ) → Occurs s xs → Occurs s (close_sock o xs)
Occurs-close_sock s none xs h = h
Occurs-close_sock s (some t) xs h = elim (Bool-cases (ltb 0 t)) [
  | inl e ↦ rw e (Occurs-append s xs (t ∷ []) h)
  | inr e ↦ rw e h
]

-- uninit closes the listener's socket and that of the connection, and opens none again.
module _ (l : ℕ) (sock : Option ℕ) (closed : List ℕ) (p : Peer) (h : Holding l sock closed p) where
  pub uninit-listener : Occurs l (uninit p).closed
  unfolding uninit
  uninit-listener =
      rw (h.listener, h.shut)
        (Occurs-close_sock l p.client.listen_local_sock _
          (Occurs-close_sock l p.client.conn_server_sock _ (Occurs-last l closed)))

  pub uninit-conn : (s : ℕ) → 0 < s → sock ≡ some s → Occurs s (uninit p).closed
  unfolding uninit
  uninit-conn s pos e =
      rw (h.conn ∙ e, h.listener, lt→ltb 0 s pos)
        (Occurs-close_sock s p.client.listen_local_sock _ (Occurs-last s _))

  pub uninit-earlier : (s : ℕ) → Occurs s closed → Occurs s (uninit p).closed
  unfolding uninit
  uninit-earlier s o =
      rw (h.listener, h.shut)
        (Occurs-close_sock s p.client.listen_local_sock _
          (Occurs-close_sock s p.client.conn_server_sock _ (Occurs-append s closed (l ∷ []) o)))
