-- ===== src/P2p/Server/Meet.antt =====
-- Two peers meet through the server.
use personal_journal.Base.{
  ℕ, ◌≡◌, ◌≢◌, refl, sym, ◌∙◌, ap, true, none, some, List, [], ◌∷◌, ◌++◌, eq→==, ne→==, arith, ok,
  success, Ret,
}
use personal_journal.P2p.Message.{
  PingMsg, ping_cmd, query_device_info_request, query_device_info_response,
}
use personal_journal.P2p.Devices.{Device, ListOps}
use personal_journal.P2p.Server.{
  Conn, Server, Env, Incoming, is_open, info_of, punch_message, response_message, process_ping_cmd,
  process_query_device_info_cmd, conn_read_cb,
}
use personal_journal.P2p.Server.Search.{registered, last_of, unregistered}
use personal_journal.P2p.Server.Query.{process_query-registered}
use personal_journal.P2p.Server.Run.{readable, handle, run}

-- The entry that a ping over a connection makes.
abbrev pub device_of : Conn → PingMsg → Device
device_of c p = record {
  pbev = c.bev;
  device_sn = p.device_sn;
  ip_addr = c.client.ip_addr;
  port = c.client.port;
  network_type = p.network_type;
}

last_of-unregistered : (sn : ℕ) (ds : List Device) → registered sn ds ≡ 0 → last_of sn ds ≡ none
last_of-unregistered sn [] e = refl
last_of-unregistered sn (d ∷ ds) e =
    let x = unregistered sn d ds e in rw (last_of-unregistered sn ds x.1, x.0) refl

module _ (d e : Device) (ds : List Device) (other : e.device_sn ≢ d.device_sn)
    (new : registered d.device_sn ds ≡ 0) (new' : registered e.device_sn ds ≡ 0) where
  two_entries :
      (registered d.device_sn (e ∷ d ∷ ds) ≡ 1)
      × (registered e.device_sn (e ∷ d ∷ ds) ≡ 1)
      × (last_of d.device_sn (e ∷ d ∷ ds) ≡ some d)
      × (last_of e.device_sn (e ∷ d ∷ ds) ≡ some e)
  two_entries =
      let own = eq→== d.device_sn d.device_sn refl in
      let own' = eq→== e.device_sn e.device_sn refl in
      let ne = ne→== e.device_sn d.device_sn other in
      let ne' = ne→== d.device_sn e.device_sn (λ q. other (sym q)) in
      (
        rw (own, ne, new) refl,
        rw (own', ne', new') refl,
        rw (last_of-unregistered d.device_sn ds new, own) refl,
        rw (last_of-unregistered e.device_sn ds new', ne', own') refl,
      )

module _ {L : Type 0} (ops : ListOps L) (env : Env) (ready : (n : ℕ) → env.alloc n ≡ true) where
  read-ping :
      (c : Conn) (i : Incoming) (s : Server L)
      → i.head.cmd ≡ ping_cmd
      → conn_read_cb ops env c i s
        ≡ ok (record s { devices = ops.list_add (device_of c i.ping) s.devices })
  unfolding conn_read_cb process_ping_cmd
  read-ping c i s e = rw (ready 0, e, ready 1, ready 2) refl

  read-query :
      (c : Conn) (i : Incoming) (s t : Server L) (r : Ret)
      → i.head.cmd ≡ query_device_info_request
      → process_query_device_info_cmd ops env c.bev i.head.src_device_sn i.info.device_sn s
        ≡ ok (t, r)
      → conn_read_cb ops env c i s ≡ ok t
  unfolding conn_read_cb
  read-query c i s t r e q = rw (ready 0, e, ready 1, q) refl

  -- From a state in which neither of two devices is registered, with their connections open and all
  -- writes and allocations successful: once the first and then the second has sent a ping, a query
  -- of either about the other makes the server send the other the command to punch a hole to the
  -- public address of the one that asks, and the one that asks the public address of the other.
  -- Here the first asks.
  pub run-meet :
      (c c' : Conn) (i i' q : Incoming) (s : Server L)
      → i.head.cmd ≡ ping_cmd
      → i'.head.cmd ≡ ping_cmd
      → q.head.cmd ≡ query_device_info_request
      → q.head.src_device_sn ≡ i.ping.device_sn
      → q.info.device_sn ≡ i'.ping.device_sn
      → i'.ping.device_sn ≢ i.ping.device_sn
      → registered i.ping.device_sn (ops.entries s.devices) ≡ 0
      → registered i'.ping.device_sn (ops.entries s.devices) ≡ 0
      → is_open c.bev s.conns ≡ true
      → is_open c'.bev s.conns ≡ true
      → ((bev : ℕ) → env.write bev ≡ true)
      → run ops (readable env c i ∷ readable env c' i' ∷ readable env c q ∷ []) s
        ≡ ok (record s {
          devices =
              ops.list_add (device_of c' i'.ping) (ops.list_add (device_of c i.ping) s.devices);
          sent =
              s.sent
              ++ (c'.bev, punch_message (info_of (device_of c i.ping)))
                ∷ (
                  c.bev,
                  response_message query_device_info_response (info_of (device_of c' i'.ping)),
                )
                ∷ [];
        })
  unfolding run handle
  run-meet c c' i i' q s ping ping' asks src queried other new new' up up' writes =
      rw
        (read-ping c i s ping, read-ping c' i' s1 ping', read-query c q s2 s3 success asks answered)
        refl
    where
      d : Device
      d = device_of c i.ping

      e : Device
      e = device_of c' i'.ping

      s1 : Server L
      s1 = record s { devices = ops.list_add d s.devices }

      s2 : Server L
      s2 = record s { devices = ops.list_add e (ops.list_add d s.devices) }

      table : ops.entries s2.devices ≡ e ∷ d ∷ ops.entries s.devices
      table =
          ops.entries-add e (ops.list_add d s.devices)
          ∙ ap (λ l. e ∷ l) (ops.entries-add d s.devices)

      two :
          (registered d.device_sn (e ∷ d ∷ ops.entries s.devices) ≡ 1)
          × (registered e.device_sn (e ∷ d ∷ ops.entries s.devices) ≡ 1)
          × (last_of d.device_sn (e ∷ d ∷ ops.entries s.devices) ≡ some d)
          × (last_of e.device_sn (e ∷ d ∷ ops.entries s.devices) ≡ some e)
      two = two_entries d e (ops.entries s.devices) other new new'

      s3 : Server L
      s3 = record s2 {
        sent =
            s.sent
            ++ (c'.bev, punch_message (info_of d))
              ∷ (c.bev, response_message query_device_info_response (info_of e))
              ∷ [];
      }

      answered :
          process_query_device_info_cmd ops env c.bev q.head.src_device_sn q.info.device_sn s2
          ≡ ok (s3, success)
      answered =
          rw (src, queried)
            (process_query-registered ops env ready c.bev i.ping.device_sn i'.ping.device_sn s2 e d
              (rw table (omega (arith, two.1))) (rw table (omega (arith, two.0))) (rw table two.3)
              (rw table two.2) up' up (writes c'.bev) (writes c.bev))
