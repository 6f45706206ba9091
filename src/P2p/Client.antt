-- ===== src/P2p/Client.antt =====
-- p2p_transfer_peer.c: the peer's start and end (init, listen_local, connect_server, the timers, main,
-- uninit), with what it acquires and gives back.
pub mod Release
pub mod Held
pub mod NoLeak
use personal_journal.Base.{
  ℕ, ◌+◌, Bool, true, false, not, Option, none, some, List, [], ◌∷◌, ◌++◌, ◌==◌, ltb, ◌&&◌,
  if◌then◌else◌, Ret, success, failure,
}
use personal_journal.P2p.Peer.{test_peer_device_sn}

-- `struct p2p_transfer_client_t`: a pointer is whether it is not NULL, the listener by its socket.
pub record Client : Type 0 where
  pub device_sn : ℕ
  pub base : Bool
  pub user_event : Bool
  pub ping_event : Bool
  pub ping_bev : Bool
  pub listener : Option ℕ
  pub conn_server_sock : Option ℕ
  pub listen_local_sock : Option ℕ

-- The peer, and the sockets closed so far, in order.
pub record Peer : Type 0 where
  pub client : Client
  pub closed : List ℕ

-- What the calls do: the command line's number, and for each call its success or its socket.
pub record Calls : Type 0 where
  pub device_sn : ℕ
  pub allocated : Bool
  pub base_made : Bool
  pub listener : Option ℕ
  pub listener_options_set : Bool
  pub sock : Option ℕ
  pub options_set : Bool
  pub bound : Bool
  pub connected : Bool
  pub bev_made : Bool
  pub ping_event_made : Bool
  pub user_event_made : Bool
  pub dispatched : Bool

abbrev pub close_sock : Option ℕ → List ℕ → List ℕ
close_sock none closed = closed
close_sock (some s) closed = if ltb 0 s then closed ++ s ∷ [] else closed

module _ (calls : Calls) where
  -- configure_log never returns the -1 that init tests for, and is left out.
  unfoldable pub init : Option Peer
  init =
      if not calls.allocated
      then none
      else if not calls.base_made
      then none
      else some (record {
        client = record {
          device_sn = calls.device_sn;
          base = true;
          user_event = false;
          ping_event = false;
          ping_bev = false;
          listener = none;
          conn_server_sock = none;
          listen_local_sock = none;
        };
        closed = [];
      })

  -- evconnlistener_free closes the socket of a listener made with LEV_OPT_CLOSE_ON_FREE.
  unfoldable pub listen_local : Peer → Peer × Ret
  listen_local p = elim calls.listener [
    | none ↦ (p, failure)
    | some s ↦
        if calls.listener_options_set
        then (
          record p { client = record (p.client) { listener = some s; listen_local_sock = some s } },
          success,
        )
        else (record p { closed = p.closed ++ s ∷ [] }, failure)
  ]

  unfoldable pub connect_server : Peer → Peer × Ret
  connect_server p = elim calls.sock [
    | none ↦ (p, failure)
    | some s ↦
        if calls.options_set && (calls.bound && (calls.connected && calls.bev_made))
        then (
          record p { client = record (p.client) { conn_server_sock = some s; ping_bev = true } },
          success,
        )
        else (record p { closed = close_sock (some s) p.closed }, failure)
  ]

  unfoldable pub add_ping_timer : Peer → Peer × Ret
  add_ping_timer p =
      if calls.ping_event_made
      then (record p { client = record (p.client) { ping_event = true } }, success)
      else (p, failure)

  unfoldable pub add_user_timer : Peer → Peer × Ret
  add_user_timer p =
      if calls.user_event_made
      then (record p { client = record (p.client) { user_event = true } }, success)
      else (p, failure)

  -- `if (s_ppt_client->device_sn != 2222)`.
  abbrev pub add_query_timer : Peer → Peer × Ret
  add_query_timer p =
      if p.client.device_sn == test_peer_device_sn then (p, success) else add_user_timer p

  abbrev pub dispatch : Peer → Peer × Ret
  dispatch p = (p, if calls.dispatched then success else failure)

-- One step of main after another, until one returns -1.
abbrev pub then_do : Peer × Ret → (Peer → Peer × Ret) → Peer × Ret
then_do (p, failure) f = (p, failure)
then_do (p, success) f = f p

-- uninit: the events, the listener with its socket, the two sockets, and the base.
unfoldable pub uninit : Peer → Peer
uninit p = record {
  client = record (p.client) {
    base = false;
    user_event = false;
    ping_event = false;
    listener = none;
    conn_server_sock = none;
    listen_local_sock = none;
  };
  closed =
      close_sock p.client.listen_local_sock
        (close_sock p.client.conn_server_sock (free_listener p.client.listener p.closed));
}
  where
    free_listener : Option ℕ → List ℕ → List ℕ
    free_listener none closed = closed
    free_listener (some s) closed = closed ++ s ∷ []

abbrev pub finish : Peer × Ret → Option Peer × Ret
finish (p, r) = (some (uninit p), r)

-- main: the peer at the end, if init has made one, and the result.
unfoldable pub peer_main : Calls → Option Peer × Ret
peer_main calls = elim (init calls) [
  | none ↦ (none, failure)
  | some p ↦ finish (
      then_do
        (then_do
          (then_do (then_do (listen_local calls p) (connect_server calls)) (add_ping_timer calls))
          (add_query_timer calls))
        (dispatch calls))
]
