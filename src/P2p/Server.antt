-- ===== src/P2p/Server.antt =====
-- p2p_transfer_server.c: the device table, and the callbacks that serve the peers' connections.
pub mod Search
pub mod Query
pub mod Run
pub mod Meet
pub mod Main
use personal_journal.Base.{
  ℕ, ◌+◌, Bool, true, false, not, Option, none, some, List, [], ◌∷◌, ◌++◌, ◌==◌, ltb, if◌then◌else◌,
  Outcome, ok, fault, aborted, ◌>>=◌, Ret, success, failure,
}
use personal_journal.P2p.Message.{
  PingMsg, DeviceInfo, MsgHead, Message, device_info, zero_head, zero_info, device_info_size,
  p2p_transfer_magic, unknown_cmd, ping_cmd, query_device_info_request, query_device_info_response,
  punch_hole_cmd,
}
use personal_journal.P2p.Devices.{Device, ListOps}

-- A client's address, as accept gives it; and a connection: its bufferevent, its socket, and the
-- address that its callbacks get.
pub record Client : Type 0 where
  pub ip_addr : ℕ
  pub port : ℕ

pub record Conn : Type 0 where
  pub bev : ℕ
  pub sock : ℕ
  pub client : Client

-- The device list, the connections whose bufferevents are not freed, the messages handed to
-- bufferevent_write, and the sockets in the order in which they were closed.
pub record Server (L : Type 0) : Type 0 where
  pub devices : L
  pub conns : List Conn
  pub sent : List (ℕ × Message)
  pub closed : List ℕ

-- Whether the n-th calloc of a callback succeeds, and a write to a bufferevent.
pub record Env : Type 0 where
  pub alloc : ℕ → Bool
  pub write : ℕ → Bool

-- What bufferevent_read leaves in the zeroed blocks of conn_read_cb.
pub record Incoming : Type 0 where
  pub head : MsgHead
  pub ping : PingMsg
  pub info : DeviceInfo

abbrev pub is_open : ℕ → List Conn → Bool
is_open bev [] = false
is_open bev (c ∷ cs) = if c.bev == bev then true else is_open bev cs

abbrev pub info_of : Device → DeviceInfo
info_of d = record {
  device_sn = d.device_sn;
  ip_addr = d.ip_addr;
  port = d.port;
  network_type = d.network_type;
}

-- The variables of the search in process_query_device_info_cmd: `presponse->cmd`,
-- `*pquery_device_info`, `pdst_peer_bev`, `*psrc_device_info` and `num`.
pub record Found : Type 0 where
  pub cmd : ℕ
  pub query : DeviceInfo
  pub dst : Option ℕ
  pub src : DeviceInfo
  pub num : ℕ

abbrev pub nothing_found : Found
nothing_found = record {
  cmd = unknown_cmd;
  query = zero_info;
  dst = none;
  src = zero_info;
  num = 0;
}

abbrev pub note_query : ℕ → Device → Found → Found
note_query sn d f =
    if d.device_sn == sn
    then record {
      cmd = query_device_info_response;
      query = info_of d;
      dst = some d.pbev;
      src = f.src;
      num = f.num + 1;
    }
    else f

abbrev pub note_src : ℕ → Device → Found → Found
note_src sn d f = if d.device_sn == sn then record f { src = info_of d; num = f.num + 1 } else f

-- The loop over the list, which ends early when `num == 2`.
unfoldable pub search : (query_sn src_sn : ℕ) → List Device → Found → Found
search query_sn src_sn [] f = f
search query_sn src_sn (d ∷ ds) f =
    let f' = note_src src_sn d (note_query query_sn d f) in
    let rest = search query_sn src_sn ds f' in if f'.num == 2 then f' else rest

-- The two messages that a query leads to.
abbrev pub punch_message : DeviceInfo → Message
punch_message src = record {
  head = record zero_head {
    magic = p2p_transfer_magic;
    cmd = punch_hole_cmd;
    cmd_len = device_info_size;
  };
  payload = device_info src;
}

abbrev pub response_message : (cmd : ℕ) → DeviceInfo → Message
response_message cmd query = record {
  head = record zero_head { magic = p2p_transfer_magic; cmd = cmd; cmd_len = device_info_size };
  payload = device_info query;
}

module _ {L : Type 0} (ops : ListOps L) (env : Env) where
  -- bufferevent_write: a freed bufferevent is a fault.
  unfoldable pub bufferevent_write : ℕ → Message → Server L → Outcome (Server L × Ret)
  bufferevent_write bev m s =
      if not (is_open bev s.conns)
      then fault
      else if env.write bev
      then ok (record s { sent = s.sent ++ (bev, m) ∷ [] }, success)
      else ok (s, failure)

  unfoldable pub process_ping_cmd : ℕ → PingMsg → Client → Server L → Server L × Ret
  process_ping_cmd bev p client s =
      if not (env.alloc 2)
      then (s, failure)
      else (record s { devices = ops.list_add device s.devices }, success)
    where
      device : Device
      device = record {
        pbev = bev;
        device_sn = p.device_sn;
        ip_addr = client.ip_addr;
        port = client.port;
        network_type = p.network_type;
      }

  -- `assert(pdst_peer_bev != NULL)`, the allocation, and the write.
  unfoldable pub send_punch_hole_cmd_to_peer :
      Option ℕ → DeviceInfo → Server L → Outcome (Server L × Ret)
  send_punch_hole_cmd_to_peer none src s = aborted
  send_punch_hole_cmd_to_peer (some dst) src s =
      if not (env.alloc 4) then ok (s, failure) else bufferevent_write dst (punch_message src) s

  -- What follows the punch message: the response to the peer that asked.
  abbrev pub answer_query : ℕ → Found → Server L × Ret → Outcome (Server L × Ret)
  answer_query bev f (s, failure) = ok (s, failure)
  answer_query bev f (s, success) = bufferevent_write bev (response_message f.cmd f.query) s

  unfoldable pub process_query_device_info_cmd :
      ℕ → (src_sn query_sn : ℕ) → Server L → Outcome (Server L × Ret)
  process_query_device_info_cmd bev src_sn query_sn s =
      if not (env.alloc 2)
      then ok (s, failure)
      else if not (env.alloc 3)
      then ok (s, failure)
      else let f = search query_sn src_sn (ops.entries s.devices) nothing_found in
        send_punch_hole_cmd_to_peer f.dst f.src s >>= λ r. answer_query bev f r

  -- The read callback of a connection; the magic number is not looked at.
  unfoldable pub conn_read_cb : Conn → Incoming → Server L → Outcome (Server L)
  conn_read_cb c i s =
      if not (env.alloc 0)
      then ok s
      else if i.head.cmd == ping_cmd
      then (if not (env.alloc 1) then ok s else ok (process_ping_cmd c.bev i.ping c.client s).0)
      else if i.head.cmd == query_device_info_request
      then (if not (env.alloc 1)
          then ok s
          else (process_query_device_info_cmd c.bev i.head.src_device_sn i.info.device_sn s >>= λ r.
              ok r.0))
      else ok s

  -- The accept callback, with the bufferevent that libevent makes for the socket, or none.
  unfoldable pub listener_cb : Option ℕ → (sock : ℕ) → Client → Server L → Server L
  listener_cb bev sock client s = if not (env.alloc 0) then s else elim bev [
    | none ↦ s
    | some b ↦ record s { conns = record { bev = b; sock = sock; client = client } ∷ s.conns }
  ]

abbrev pub remove_conn : ℕ → List Conn → List Conn
remove_conn bev [] = []
remove_conn bev (c ∷ cs) = let rest = remove_conn bev cs in if c.bev == bev then rest else c ∷ rest

-- The event callback: bufferevent_free closes the socket (BEV_OPT_CLOSE_ON_FREE), and SAFE_CLOSE
-- closes it again. The device list stays as it is.
unfoldable pub conn_event_cb : {L : Type 0} → Conn → Server L → Server L
conn_event_cb c s = record s {
  conns = remove_conn c.bev s.conns;
  closed = s.closed ++ c.sock ∷ (if ltb 0 c.sock then c.sock ∷ [] else []);
}
