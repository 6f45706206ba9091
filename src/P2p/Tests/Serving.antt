-- ===== src/P2p/Tests/Serving.antt =====
-- The server.
use personal_journal.Base.{◌≡◌, refl, [], ◌∷◌, arith, ok, fault, aborted, Yields, false}
use personal_journal.P2p.Tests.{as_list, willing, conn_a, conn_b, incoming, two_conns, device}
use personal_journal.P2p.Server.{
  punch_message, response_message, info_of, process_query_device_info_cmd, conn_event_cb,
}
use personal_journal.P2p.Server.Query.{process_query-unregistered, process_query-freed}
use personal_journal.P2p.Server.Run.{readable, ended, run, Extends, run-Extends}
use personal_journal.P2p.Server.Meet.{run-meet}
use personal_journal.P2p.Message.{Message}
use personal_journal.P2p.Server.Main.{Calls}
use personal_journal.P2p.Peer.{ping_message, query_message, conn_read_cb, user_cb}
use personal_journal.P2p.Hole.{arriving, hearing, both-punch}
use personal_journal.Base.{true, some, List}
use personal_journal.P2p.Server.{Server}
use personal_journal.P2p.Devices.{Device}

-- The address of the listener is taken.
abbrev bind_fails : Calls
bind_fails = record {
  allocated = true;
  log_configured = true;
  base_made = true;
  listener_made = false;
  dispatched = true;
}

run-meet_example :
    run as_list
      (readable willing conn_a (incoming 1 1111 0)
        ∷ readable willing conn_b (incoming 1 2222 0)
        ∷ readable willing conn_a (incoming 2 1111 2222)
        ∷ [])
      (two_conns [])
    ≡ ok
        (record (two_conns (
          record { pbev = 2; device_sn = 2222; ip_addr = 200; port = 6000; network_type = 4 }
          ∷ device 1 1111
          ∷ [])) {
            sent =
                (2, punch_message (info_of (device 1 1111)))
                ∷ (
                  1,
                  response_message 3
                      (record { device_sn = 2222; ip_addr = 200; port = 6000; network_type = 4 }),
                )
                ∷ [];
          })
run-meet_example =
    run-meet as_list willing (λ n. refl) conn_a conn_b (incoming 1 1111 0) (incoming 1 2222 0)
      (incoming 2 1111 2222) (two_conns []) refl refl refl refl refl (omega arith) refl refl refl
      refl (λ b. refl)

run-Extends_example :
    Yields
      (λ t. Extends as_list (two_conns (device 2 2222 ∷ [])) t)
      (run as_list
        (readable willing conn_a (incoming 1 1111 0) ∷ ended conn_b ∷ [])
        (two_conns (device 2 2222 ∷ [])))
run-Extends_example =
    run-Extends as_list (readable willing conn_a (incoming 1 1111 0) ∷ ended conn_b ∷ [])
      (two_conns (device 2 2222 ∷ []))

process_query-unregistered_example :
    process_query_device_info_cmd as_list willing 1 1111 2222 (two_conns (device 1 1111 ∷ []))
    ≡ aborted
process_query-unregistered_example =
    process_query-unregistered as_list willing (λ n. refl) 1 1111 2222
      (two_conns (device 1 1111 ∷ [])) refl

process_query-freed_example :
    process_query_device_info_cmd as_list willing 1 1111 2222
      (conn_event_cb conn_b (two_conns (device 2 2222 ∷ device 1 1111 ∷ [])))
    ≡ fault
process_query-freed_example =
    process_query-freed as_list willing (λ n. refl) 1 1111 2222
      (two_conns (device 2 2222 ∷ device 1 1111 ∷ [])) conn_b (device 2 2222) (device 1 1111)
      (omega arith) (omega arith) refl refl refl

both-punch_example :
    (m : Message) × (m' : Message) × (t : Server (List Device)) × (run as_list
        (readable willing conn_a (arriving (ping_message 1111))
          ∷ readable willing conn_b (arriving (ping_message 2222))
          ∷ readable willing conn_a (arriving (query_message 1111))
          ∷ [])
        (two_conns [])
      ≡ ok t)
    × (t.sent ≡ (2, m) ∷ (1, m') ∷ [])
    × (conn_read_cb (λ n. true) true m.head (arriving m).info
        ≡ some (record { device_sn = 1111; ip_addr = 100; port = 5152; network_type = 4 }))
    × ((user_cb 1111 (hearing m')).1
        ≡ some (record { device_sn = 2222; ip_addr = 200; port = 6000; network_type = 4 }))
both-punch_example =
    both-punch as_list willing (λ n. refl) conn_a conn_b 1111 (two_conns []) (omega arith) refl refl
      refl refl (λ b. refl)
