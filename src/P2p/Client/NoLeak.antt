-- ===== src/P2p/Client/NoLeak.antt =====
-- However far the peer's start gets, no socket stays open.
use personal_journal.Base.{
  ℕ, Bool, true, false, Option, none, some, List, [], ◌∷◌, ◌&&◌, All, if◌then◌else◌, Ret,
}
use personal_journal.P2p.Client.{
  Peer, Calls, connect_server, add_ping_timer, add_query_timer, dispatch, then_do, uninit,
}
use personal_journal.P2p.Client.Held.{Occurs}

abbrev pub listed : Option ℕ → List ℕ
listed none = []
listed (some s) = s ∷ []

-- The sockets that the start opens: the listener's, and if that is set up, the connection's.
abbrev pub opened : Calls → List ℕ
opened c = elim c.listener [
  | none ↦ []
  | some l ↦ l ∷ (if c.listener_options_set then listed c.sock else [])
]

-- There is a peer at the end, and it has closed all of these.
abbrev pub ClosesAll : List ℕ → Option Peer → Type 0
ClosesAll os none = ⊥
ClosesAll os (some p) = All (λ s. Occurs s p.closed) os

abbrev start : Calls → Peer
start c = record {
  client = record {
    device_sn = c.device_sn;
    base = true;
    user_event = false;
    ping_event = false;
    ping_bev = false;
    listener = none;
    conn_server_sock = none;
    listen_local_sock = none;
  };
  closed = [];
}

abbrev rest : Calls → Peer × Ret → Peer
rest c x = (then_do (then_do (then_do x (add_ping_timer c)) (add_query_timer c)) (dispatch c)).0

abbrev connects : Calls → Bool
connects c = c.options_set && (c.bound && (c.connected && c.bev_made))

-- The start with a listener.
abbrev listening : Calls → ℕ → Peer
listening c l = record (start c) {
  client = record ((start c).client) { listener = some l; listen_local_sock = some l };
}

-- The peer at the end, after what listen_local leaves.
abbrev at_end : Calls → Peer × Ret → Peer
at_end c x = uninit (rest c (then_do x (connect_server c)))
