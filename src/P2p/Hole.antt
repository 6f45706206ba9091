-- ===== src/P2p/Hole.antt =====
-- Server and peers together: both sides of a hole.
use personal_journal.Base.{ℕ, ◌≡◌, ◌≢◌, refl, true, some, [], ◌∷◌, ◌++◌, ok}
use personal_journal.P2p.Message.{Message, device_info, ping, query_device_info_response}
use personal_journal.P2p.Devices.{ListOps}
use personal_journal.P2p.Server.{
  Conn, Server, Env, Incoming, is_open, info_of, punch_message, response_message,
}
use personal_journal.P2p.Server.Search.{registered}
use personal_journal.P2p.Server.Run.{readable, run}
use personal_journal.P2p.Server.Meet.{device_of, run-meet}
use personal_journal.P2p.Peer.{
  Calls, ping_message, query_message, test_peer_device_sn, user_cb, conn_read_cb,
}

-- What the reads of a receiver leave of a message.
abbrev pub arriving : Message → Incoming
arriving m = record {
  head = m.head;
  ping = elim m.payload [ ping p ↦ p | device_info d ↦ record { device_sn = 0; network_type = 0 } ];
  info = elim m.payload [
    | ping p ↦ record { device_sn = 0; ip_addr = 0; port = 0; network_type = 0 }
    | device_info d ↦ d
  ];
}

-- The calls of user_cb when the server's response arrives.
abbrev pub hearing : Message → Calls
hearing m = record {
  allocated = true;
  sent = true;
  received = some ((arriving m).head, (arriving m).info);
}

module _ {L : Type 0} (ops : ListOps L) (env : Env) (ready : (n : ℕ) → env.alloc n ≡ true) where
  -- A peer and the one with the number 2222, both new to a server on which every call succeeds: the
  -- pings of both and the first one's query, in the form in which the peers send them, make the
  -- server hand over two messages, the first to the other peer's connection and the second to the
  -- first one's; with these the other peer starts to connect to the first one's public address, and
  -- the first one to the other's.
  pub both-punch :
      (c c' : Conn) (sn : ℕ) (s : Server L)
      → test_peer_device_sn ≢ sn
      → registered sn (ops.entries s.devices) ≡ 0
      → registered test_peer_device_sn (ops.entries s.devices) ≡ 0
      → is_open c.bev s.conns ≡ true
      → is_open c'.bev s.conns ≡ true
      → ((bev : ℕ) → env.write bev ≡ true)
      → let i = arriving (ping_message sn) in
        let i' = arriving (ping_message test_peer_device_sn) in
        let q = arriving (query_message sn) in
        (m : Message) × (m' : Message) × (t : Server L) × (run ops
            (readable env c i ∷ readable env c' i' ∷ readable env c q ∷ [])
            s
          ≡ ok t)
        × (t.sent ≡ s.sent ++ (c'.bev, m) ∷ (c.bev, m') ∷ [])
        × (conn_read_cb (λ n. true) true m.head (arriving m).info
            ≡ some (info_of (device_of c i.ping)))
        × ((user_cb sn (hearing m')).1 ≡ some (info_of (device_of c' i'.ping)))
  unfolding conn_read_cb user_cb
  both-punch c c' sn s other new new' up up' writes = (
    punch_message (info_of (device_of c (arriving (ping_message sn)).ping)),
    response_message query_device_info_response
        (info_of (device_of c' (arriving (ping_message test_peer_device_sn)).ping)),
    _,
    run-meet ops env ready c c' (arriving (ping_message sn))
        (arriving (ping_message test_peer_device_sn)) (arriving (query_message sn)) s refl refl refl
        refl refl other new new' up up' writes,
    refl,
    refl,
    refl,
  )
