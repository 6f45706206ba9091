-- ===== src/P2p/Server/Query.antt =====
-- What a query makes the server do.
use personal_journal.Base.{
  ℕ, ◌≤◌, ◌≡◌, ◌≢◌, refl, sym, ◌∙◌, true, false, Bool-cases, inl, inr, some, List, [], ◌∷◌, ◌++◌,
  append_assoc, ◌==◌, eq→==, ne→==, arith, ok, fault, aborted, success,
}
use personal_journal.P2p.Message.{zero_info, query_device_info_response}
use personal_journal.P2p.Devices.{Device, ListOps}
use personal_journal.P2p.Server.{
  Conn, Server, Env, nothing_found, is_open, info_of, search, punch_message, response_message,
  bufferevent_write, send_punch_hole_cmd_to_peer, process_query_device_info_cmd, remove_conn,
  conn_event_cb,
}
use personal_journal.P2p.Server.Search.{registered, last_of, search-both, search-unregistered}

search_repeated :
    (q s : ℕ) (newer older : Device) (ds : List Device)
    → (newer.device_sn == q) ≡ true
    → (older.device_sn == q) ≡ true
    → (newer.device_sn == s) ≡ false
    → (older.device_sn == s) ≡ false
    → search q s (newer ∷ older ∷ ds) nothing_found ≡ record {
      cmd = query_device_info_response;
      query = info_of older;
      dst = some older.pbev;
      src = zero_info;
      num = 2;
    }
unfolding search
search_repeated q s newer older ds a b c d = rw (a, b, c, d) refl

is_open-remove_conn : (bev : ℕ) (cs : List Conn) → is_open bev (remove_conn bev cs) ≡ false
is_open-remove_conn bev [] = refl
is_open-remove_conn bev (c ∷ cs) = elim (Bool-cases (c.bev == bev)) [
  | inl y ↦ rw y (is_open-remove_conn bev cs)
  | inr n ↦ rw (n, n) (is_open-remove_conn bev cs)
]

module _ {L : Type 0} (ops : ListOps L) (env : Env) (ready : (n : ℕ) → env.alloc n ≡ true) where
  -- A query about a device that has not registered ends the server in a failed assertion, whoever
  -- asks and however often that device is registered, before any message is sent.
  pub process_query-unregistered :
      (bev src_sn query_sn : ℕ) (s : Server L)
      → registered query_sn (ops.entries s.devices) ≡ 0
      → process_query_device_info_cmd ops env bev src_sn query_sn s ≡ aborted
  unfolding process_query_device_info_cmd send_punch_hole_cmd_to_peer
  process_query-unregistered bev src_sn query_sn s e =
      rw
        (
          ready 2,
          ready 3,
          search-unregistered query_sn src_sn (ops.entries s.devices) nothing_found e,
          send_punch_hole_cmd_to_peer,
        )
        refl

  -- A query about a device that is registered once, by one that is registered once, with both
  -- connections open, sends two messages: to the queried device's connection the command to punch a
  -- hole to the asking one, and then to the asking connection what is known of the queried one.
  pub process_query-registered :
      (bev src_sn query_sn : ℕ) (s : Server L) (d e : Device)
      → registered query_sn (ops.entries s.devices) ≤ 1
      → registered src_sn (ops.entries s.devices) ≤ 1
      → last_of query_sn (ops.entries s.devices) ≡ some d
      → last_of src_sn (ops.entries s.devices) ≡ some e
      → is_open d.pbev s.conns ≡ true
      → is_open bev s.conns ≡ true
      → env.write d.pbev ≡ true
      → env.write bev ≡ true
      → process_query_device_info_cmd ops env bev src_sn query_sn s
        ≡ ok (
          record s {
            sent =
                s.sent
                ++ (d.pbev, punch_message (info_of e))
                  ∷ (bev, response_message query_device_info_response (info_of d))
                  ∷ [];
          },
          success,
        )
  unfolding process_query_device_info_cmd send_punch_hole_cmd_to_peer bufferevent_write
  process_query-registered bev src_sn query_sn s d e once once' last last' up up' written written' =
      let (cmd, query, dst, src) =
        search-both query_sn src_sn (ops.entries s.devices) d e (omega (arith, once, once')) last
          last' in
      rw
        (
          ready 2,
          ready 3,
          dst,
          send_punch_hole_cmd_to_peer,
          ready 4,
          up,
          written,
          src,
          up',
          written',
          cmd,
          query,
          append_assoc s.sent ((d.pbev, punch_message (info_of e)) ∷ []),
        )
        refl

  -- Two registrations of the queried device in front of any of the asking one end the search early:
  -- the command to punch a hole goes out with nothing in it, and both messages go by the older of
  -- the two registrations.
  pub process_query-repeated :
      (bev src_sn query_sn : ℕ) (s : Server L) (newer older : Device) (ds : List Device)
      → ops.entries s.devices ≡ newer ∷ older ∷ ds
      → newer.device_sn ≡ query_sn
      → older.device_sn ≡ query_sn
      → src_sn ≢ query_sn
      → is_open older.pbev s.conns ≡ true
      → is_open bev s.conns ≡ true
      → env.write older.pbev ≡ true
      → env.write bev ≡ true
      → process_query_device_info_cmd ops env bev src_sn query_sn s
        ≡ ok (
          record s {
            sent =
                s.sent
                ++ (older.pbev, punch_message zero_info)
                  ∷ (bev, response_message query_device_info_response (info_of older))
                  ∷ [];
          },
          success,
        )
  unfolding process_query_device_info_cmd send_punch_hole_cmd_to_peer bufferevent_write
  process_query-repeated bev src_sn query_sn s newer older ds table n o other up up' written
        written' =
      rw
        (
          ready 2,
          ready 3,
          table,
          search_repeated query_sn src_sn newer older ds (eq→== newer.device_sn query_sn n)
              (eq→== older.device_sn query_sn o)
              (ne→== newer.device_sn src_sn (λ e. other (sym e ∙ n)))
              (ne→== older.device_sn src_sn (λ e. other (sym e ∙ o))),
          ready 4,
          up,
          written,
          up',
          written',
          append_assoc s.sent ((older.pbev, punch_message zero_info) ∷ []),
        )
        refl

  -- After the event callback of a connection, a query about a device that registered over it, and is
  -- registered once, uses the freed bufferevent.
  pub process_query-freed :
      (bev src_sn query_sn : ℕ) (s : Server L) (c : Conn) (d e : Device)
      → registered query_sn (ops.entries s.devices) ≤ 1
      → registered src_sn (ops.entries s.devices) ≤ 1
      → last_of query_sn (ops.entries s.devices) ≡ some d
      → last_of src_sn (ops.entries s.devices) ≡ some e
      → d.pbev ≡ c.bev
      → process_query_device_info_cmd ops env bev src_sn query_sn (conn_event_cb c s) ≡ fault
  unfolding process_query_device_info_cmd send_punch_hole_cmd_to_peer bufferevent_write
      conn_event_cb
  process_query-freed bev src_sn query_sn s c d e once once' last last' same =
      let (cmd, query, dst, src) =
        search-both query_sn src_sn (ops.entries s.devices) d e (omega (arith, once, once')) last
          last' in
      rw
        (
          ready 2,
          ready 3,
          dst,
          send_punch_hole_cmd_to_peer,
          ready 4,
          same,
          is_open-remove_conn c.bev s.conns,
        )
        refl
