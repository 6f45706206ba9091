-- ===== src/P2p/Server/Run.antt =====
-- The server's life: the callbacks in the order in which libevent makes them.
use personal_journal.Base.{
  ℕ, ◌≡◌, refl, sym, ◌∙◌, ap, Bool-cases, inl, inr, Option, none, some, List, [], ◌∷◌, ◌++◌,
  append_assoc, ◌==◌, Outcome, ok, ◌>>=◌, success, failure, Ret, Yields, Yields-bind, Yields-mono,
}
use personal_journal.P2p.Message.{PingMsg, DeviceInfo, Message, ping_cmd, query_device_info_request}
use personal_journal.P2p.Devices.{Device, ListOps}
use personal_journal.P2p.Server.{
  Client, Conn, Server, Env, Incoming, Found, is_open, search, punch_message, nothing_found,
  bufferevent_write, process_ping_cmd, send_punch_hole_cmd_to_peer, answer_query,
  process_query_device_info_cmd, conn_read_cb, listener_cb, conn_event_cb,
}

-- A callback: of the listener, of a connection that can be read, or of one that has ended.
pub data Event : Type 0 where
  accept : Env → (bev : Option ℕ) (sock : ℕ) → Client → Event
  readable : Env → Conn → Incoming → Event
  ended : Conn → Event

module _ {L : Type 0} (ops : ListOps L) where
  unfoldable pub handle : Event → Server L → Outcome (Server L)
  handle (accept env bev sock client) s = ok (listener_cb ops env bev sock client s)
  handle (readable env c i) s = conn_read_cb ops env c i s
  handle (ended c) s = ok (conn_event_cb c s)

  unfoldable pub run : List Event → Server L → Outcome (Server L)
  run [] s = ok s
  run (e ∷ es) s = handle e s >>= λ t. run es t

  -- The devices of the later state are those of the earlier one, behind newer ones.
  abbrev pub Extends : Server L → Server L → Type 0
  Extends s t = (new : List Device) × (ops.entries t.devices ≡ new ++ ops.entries s.devices)

  Extends-refl : (s t : Server L) → t.devices ≡ s.devices → Extends s t
  Extends-refl s t e = ([], ap ops.entries e)

  Extends-trans : (s t u : Server L) → Extends s t → Extends t u → Extends s u
  Extends-trans s t u (n, e) (m, f) =
      (m ++ n, f ∙ ap (λ l. m ++ l) e ∙ sym (append_assoc m n (ops.entries s.devices)))

  write-devices :
      (env : Env) (bev : ℕ) (m : Message) (s : Server L)
      → Yields (λ r. r.0.devices ≡ s.devices) (bufferevent_write ops env bev m s)
  unfolding bufferevent_write
  write-devices env bev m s = elim (Bool-cases (is_open bev s.conns)) [
    | inr e ↦ rw e tt
    | inl e ↦ elim (Bool-cases (env.write bev)) [ inl w ↦ rw (e, w) refl | inr w ↦ rw (e, w) refl ]
  ]

  send-devices :
      (env : Env) (dst : Option ℕ) (src : DeviceInfo) (s : Server L)
      → Yields (λ r. r.0.devices ≡ s.devices) (send_punch_hole_cmd_to_peer ops env dst src s)
  unfolding send_punch_hole_cmd_to_peer
  send-devices env none src s = tt
  send-devices env (some dst) src s = elim (Bool-cases (env.alloc 4)) [
    | inr e ↦ rw e refl
    | inl e ↦ rw e (write-devices env dst (punch_message src) s)
  ]

  answer-devices :
      (env : Env) (bev : ℕ) (f : Found) (s : Server L) (r : Server L × Ret)
      → r.0.devices ≡ s.devices
      → Yields (λ r'. r'.0.devices ≡ s.devices) (answer_query ops env bev f r)
  unfolding bufferevent_write
  answer-devices env bev f s (t, failure) e = e
  answer-devices env bev f s (t, success) e = elim (Bool-cases (is_open bev t.conns)) [
    | inr o ↦ rw o tt
    | inl o ↦ elim (Bool-cases (env.write bev)) [ inl w ↦ rw (o, w) e | inr w ↦ rw (o, w) e ]
  ]

  query-devices :
      (env : Env) (bev src_sn query_sn : ℕ) (s : Server L)
      → Yields
          (λ r. r.0.devices ≡ s.devices)
          (process_query_device_info_cmd ops env bev src_sn query_sn s)
  unfolding process_query_device_info_cmd
  query-devices env bev src_sn query_sn s = elim (Bool-cases (env.alloc 2)) [
    | inr e ↦ rw e refl
    | inl e ↦ elim (Bool-cases (env.alloc 3)) [
      | inr e' ↦ rw (e, e') refl
      | inl e' ↦
          rw (e, e')
            (let f = search query_sn src_sn (ops.entries s.devices) nothing_found in
              Yields-bind (λ r. r.0.devices ≡ s.devices) (λ r. r.0.devices ≡ s.devices)
                (send_punch_hole_cmd_to_peer ops env f.dst f.src s) _
                (send-devices env f.dst f.src s) (λ r h. answer-devices env bev f s r h))
    ]
  ]

  ping-Extends :
      (env : Env) (bev : ℕ) (p : PingMsg) (client : Client) (s : Server L)
      → Extends s (process_ping_cmd ops env bev p client s).0
  unfolding process_ping_cmd
  ping-Extends env bev p client s = elim (Bool-cases (env.alloc 2)) [
    | inr e ↦ rw e ([], refl)
    | inl e ↦ rw e (_ ∷ [], ops.entries-add _ s.devices)
  ]

  read-Extends :
      (env : Env) (c : Conn) (i : Incoming) (s : Server L)
      → Yields (λ t. Extends s t) (conn_read_cb ops env c i s)
  unfolding conn_read_cb
  read-Extends env c i s = elim (Bool-cases (env.alloc 0)) [
    | inr e ↦ rw e ([], refl)
    | inl e ↦ elim (Bool-cases (i.head.cmd == ping_cmd)) [
      | inl p ↦ elim (Bool-cases (env.alloc 1)) [
        | inr a ↦ rw (e, p, a) ([], refl)
        | inl a ↦ rw (e, p, a) (ping-Extends env c.bev i.ping c.client s)
      ]
      | inr p ↦ elim (Bool-cases (i.head.cmd == query_device_info_request)) [
        | inr q ↦ rw (e, p, q) ([], refl)
        | inl q ↦ elim (Bool-cases (env.alloc 1)) [
          | inr a ↦ rw (e, p, q, a) ([], refl)
          | inl a ↦
              rw (e, p, q, a)
                (Yields-bind (λ r. r.0.devices ≡ s.devices) (λ t. Extends s t)
                  (process_query_device_info_cmd ops env c.bev i.head.src_device_sn i.info.device_sn
                    s)
                  _ (query-devices env c.bev i.head.src_device_sn i.info.device_sn s)
                  (λ r h. Extends-refl s r.0 h))
        ]
      ]
    ]
  ]

  handle-Extends : (e : Event) (s : Server L) → Yields (λ t. Extends s t) (handle e s)
  unfolding handle listener_cb conn_event_cb
  handle-Extends (accept env none sock client) s = elim (Bool-cases (env.alloc 0)) [
    | inr e ↦ rw e ([], refl)
    | inl e ↦ rw e ([], refl)
  ]
  handle-Extends (accept env (some bev) sock client) s = elim (Bool-cases (env.alloc 0)) [
    | inr e ↦ rw e ([], refl)
    | inl e ↦ rw e ([], refl)
  ]
  handle-Extends (readable env c i) s = read-Extends env c i s
  handle-Extends (ended c) s = ([], refl)

  -- Whatever the peers do, and in whatever order, as long as the server runs it forgets no device
  -- and changes none: the list after a sequence of callbacks is the list before it, behind newer
  -- registrations. In particular a connection that ends takes no device off the list.
  pub run-Extends : (es : List Event) (s : Server L) → Yields (λ t. Extends s t) (run es s)
  unfolding run
  run-Extends [] s = ([], refl)
  run-Extends (e ∷ es) s =
      Yields-bind (λ t. Extends s t) (λ u. Extends s u) (handle e s) _ (handle-Extends e s)
        λ t h.
          Yields-mono (λ u. Extends t u) (λ u. Extends s u) (run es t)
            (λ u h'. Extends-trans s t u h h') (run-Extends es t)
