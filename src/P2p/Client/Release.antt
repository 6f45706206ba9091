-- ===== src/P2p/Client/Release.antt =====
-- What the peer has given back at its end.
use personal_journal.Base.{
  ℕ, ◌<◌, ◌≡◌, refl, true, false, Bool-cases, inl, inr, Option, none, some, List, [], ◌∷◌, ◌==◌,
  lt→ltb, if◌then◌else◌, success, failure,
}
use personal_journal.P2p.Peer.{test_peer_device_sn}
use personal_journal.P2p.Client.{
  Peer, Calls, init, listen_local, connect_server, add_ping_timer, add_user_timer, then_do, uninit,
  peer_main,
}

-- Every call of the peer's start succeeds, with these sockets for the listener and the connection.
pub record IsSmooth (calls : Calls) (l s : ℕ) : Type 0 where
  pub allocated : calls.allocated ≡ true
  pub base_made : calls.base_made ≡ true
  pub listener : calls.listener ≡ some l
  pub listener_options_set : calls.listener_options_set ≡ true
  pub sock : calls.sock ≡ some s
  pub options_set : calls.options_set ≡ true
  pub bound : calls.bound ≡ true
  pub connected : calls.connected ≡ true
  pub bev_made : calls.bev_made ≡ true
  pub ping_event_made : calls.ping_event_made ≡ true
  pub user_event_made : calls.user_event_made ≡ true

-- The sockets closed by the end, if there is a peer.
abbrev pub Closes : List ℕ → Option Peer → Type 0
Closes cs none = ⊥
Closes cs (some p) = p.closed ≡ cs

module _ (calls : Calls) (l s : ℕ) (smooth : IsSmooth calls l s) where
  fresh : Peer
  fresh = record {
    client = record {
      device_sn = calls.device_sn;
      base = true;
      user_event = false;
      ping_event = false;
      ping_bev = false;
      listener = none;
      conn_server_sock = none;
      listen_local_sock = none;
    };
    closed = [];
  }

  connected_peer : Peer
  unfolding fresh
  connected_peer = record {
    client = record (fresh.client) {
      listener = some l;
      listen_local_sock = some l;
      conn_server_sock = some s;
      ping_bev = true;
      ping_event = true;
    };
    closed = [];
  }

  starts :
      (init calls ≡ some fresh)
      × (then_do (then_do (listen_local calls fresh) (connect_server calls)) (add_ping_timer calls)
          ≡ (connected_peer, success))
  unfolding init listen_local connect_server add_ping_timer fresh connected_peer
  starts = (
    rw (smooth.allocated, smooth.base_made) refl,
    rw
        (
          smooth.listener, listen_local, smooth.listener_options_set, smooth.sock, connect_server,
          smooth.options_set, smooth.bound, smooth.connected, smooth.bev_made,
          smooth.ping_event_made,
        )
        refl,
  )

  -- A peer that has got through all of its start closes, at its end, its listener's socket twice:
  -- once with the listener, and once more after the socket of the connection.
  pub peer_main-closed :
      0 < l
      → 0 < s
      → (Closes (l ∷ s ∷ l ∷ []) (peer_main calls).0)
        × ((peer_main calls).1 ≡ (if calls.dispatched then success else failure))
  unfolding peer_main add_user_timer uninit fresh connected_peer
  peer_main-closed lp sp = elim (Bool-cases (calls.device_sn == test_peer_device_sn)) [
    | inl y ↦ rw (starts.0, peer_main, starts.1, y, lt→ltb 0 l lp, lt→ltb 0 s sp) (refl, refl)
    | inr n ↦
        rw (starts.0, peer_main, starts.1, n, smooth.user_event_made, lt→ltb 0 l lp, lt→ltb 0 s sp)
          (refl, refl)
  ]
