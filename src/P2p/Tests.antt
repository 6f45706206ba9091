-- ===== src/P2p/Tests.antt =====
-- Examples for the server and the peer.
mod Serving
mod Logging
mod Punching
use personal_journal.Base.{ℕ, Bool, true, List, [], ◌∷◌, refl}
use personal_journal.P2p.Message.{PingMsg, DeviceInfo, MsgHead, zero_head, zero_info}
use personal_journal.P2p.Devices.{Device, ListOps}
use personal_journal.P2p.Server.{Client, Conn, Server, Env, Incoming}

-- The list as a list of devices, newest first.
abbrev as_list : ListOps (List Device)
as_list = record {
  init_list_head = [];
  list_add = λ d l. d ∷ l;
  entries = λ l. l;
  entries-init = refl;
  entries-add = λ d l. refl;
}

abbrev willing : Env
willing = record { alloc = λ n. true; write = λ n. true }

-- Two connections and what comes over them.
abbrev conn_a : Conn
conn_a = record { bev = 1; sock = 7; client = record { ip_addr = 100; port = 5152 } }

abbrev conn_b : Conn
conn_b = record { bev = 2; sock = 8; client = record { ip_addr = 200; port = 6000 } }

abbrev incoming : (cmd sn asked : ℕ) → Incoming
incoming cmd sn asked = record {
  head = record zero_head { cmd = cmd; src_device_sn = sn };
  ping = record { device_sn = sn; network_type = 4 };
  info = record zero_info { device_sn = asked };
}

abbrev two_conns : List Device → Server (List Device)
two_conns devices = record {
  devices = devices;
  conns = conn_a ∷ conn_b ∷ [];
  sent = [];
  closed = [];
}

abbrev device : (bev sn : ℕ) → Device
device bev sn = record { pbev = bev; device_sn = sn; ip_addr = 100; port = 5152; network_type = 4 }
