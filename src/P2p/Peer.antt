-- ===== src/P2p/Peer.antt =====
-- p2p_transfer_peer.c: punching a hole to another peer.
pub mod Punch
use personal_journal.Base.{
  ℕ, zero, suc, ◌+◌, Bool, true, false, not, Option, none, some, List, [], ◌∷◌, ◌++◌, ◌==◌, ltb,
  ◌&&◌, if◌then◌else◌, Ret, success, failure,
}
use personal_journal.P2p.Message.{
  PingMsg, DeviceInfo, MsgHead, Message, ping, device_info, zero_head, zero_info, ping_size,
  device_info_size, p2p_transfer_magic, unknown_cmd, ping_cmd, query_device_info_request,
  punch_hole_cmd,
}

-- One attempt of connect_peer: the socket, or none; whether set_sock_opt, bind and connect succeed;
-- and whether connect failed with ETIMEDOUT.
pub record Attempt : Type 0 where
  pub sock : Option ℕ
  pub options_set : Bool
  pub bound : Bool
  pub connected : Bool
  pub timed_out : Bool

-- The sockets closed, in order, and the seconds slept.
pub record Trace : Type 0 where
  pub closed : List ℕ
  pub slept : ℕ

abbrev pub no_trace : Trace
no_trace = record { closed = []; slept = 0 }

-- `SAFE_CLOSE(sock)`.
abbrev pub safe_close : ℕ → Trace → Trace
safe_close sock t = if ltb 0 sock then record t { closed = t.closed ++ sock ∷ [] } else t

-- All three calls after `socket` succeed.
abbrev pub reaches : Attempt → Bool
reaches a = a.options_set && (a.bound && a.connected)

-- `sleep(20)` after a failed connect, unless it timed out.
abbrev pub pause : Attempt → Trace → Trace
pause a t =
    if a.options_set && a.bound && not a.timed_out then record t { slept = t.slept + 20 } else t

-- `while (--retry)`, with the rounds left.
unfoldable pub connect_loop : (ℕ → Attempt) → (rounds i : ℕ) → Trace → Option ℕ × Trace
connect_loop attempts zero i t = (none, t)
connect_loop attempts (suc n) i t =
    let skipped = connect_loop attempts n (i + 1) t in
    elim (attempts i).sock [
      | none ↦ skipped
      | some sock ↦
          let on = connect_loop attempts n (i + 1) (safe_close sock (pause (attempts i) t)) in
          if reaches (attempts i) then (some sock, t) else on
    ]

-- connect_peer: `retry` is 10, and the loop's test takes one away first.
unfoldable pub connect_peer : (ℕ → Attempt) → Option ℕ × Trace
connect_peer attempts = connect_loop attempts 9 0 no_trace

-- punch_hole, and the thread that answers a command to punch a hole (process_punch_hole_cmd_cb),
-- which receives where punch_hole sends.
abbrev pub finish_punch : (sent : Bool) → Option ℕ × Trace → Ret × Trace
finish_punch sent (none, t) = (failure, t)
finish_punch sent (some sock, t) = (if sent then success else failure, safe_close sock t)

unfoldable pub punch_hole : (ℕ → Attempt) → (sent : Bool) → Ret × Trace
punch_hole attempts sent = finish_punch sent (connect_peer attempts)

unfoldable pub process_punch_hole_cmd_cb : (ℕ → Attempt) → Trace
process_punch_hole_cmd_cb attempts =
    let (sock, t) = connect_peer attempts in elim sock [ none ↦ t | some s ↦ safe_close s t ]

-- The messages of ping_cb and user_cb.
abbrev pub ping_message : (device_sn : ℕ) → Message
ping_message sn = record {
  head = record zero_head {
    magic = p2p_transfer_magic;
    cmd_len = ping_size;
    src_device_sn = sn;
    cmd = ping_cmd;
  };
  payload = ping (record { device_sn = sn; network_type = 4 });
}

abbrev pub test_peer_device_sn : ℕ
test_peer_device_sn = 2222

abbrev pub query_message : (device_sn : ℕ) → Message
query_message sn = record {
  head = record zero_head {
    magic = p2p_transfer_magic;
    src_device_sn = sn;
    cmd_len = device_info_size;
    cmd = query_device_info_request;
  };
  payload = device_info (record zero_info { device_sn = test_peer_device_sn });
}

-- The calls that user_cb makes: the two allocations, send, and recv, with what it leaves in the
-- response or none for -1.
pub record Calls : Type 0 where
  pub allocated : Bool
  pub sent : Bool
  pub received : Option (MsgHead × DeviceInfo)

-- user_cb: the message that is sent, and the device that a hole is punched to.
unfoldable pub user_cb : (device_sn : ℕ) → Calls → Option Message × Option DeviceInfo
user_cb sn c =
    if not c.allocated then (none, none) else if not c.sent then (none, none) else elim c.received [
      | none ↦ (some (query_message sn), none)
      | some (head, info) ↦
          if head.cmd == unknown_cmd
          then (some (query_message sn), none)
          else (some (query_message sn), some info)
    ]

-- process_punch_hole_cmd: the device that a thread is started for, if pthread_create succeeds.
abbrev pub process_punch_hole_cmd : (created : Bool) → DeviceInfo → Option DeviceInfo
process_punch_hole_cmd created info = if created then some info else none

-- The read callback of the connection to the server, given which of its two allocations succeed,
-- what has arrived, and whether a thread can be created.
unfoldable pub conn_read_cb :
    (alloc : ℕ → Bool) (created : Bool) → MsgHead → DeviceInfo → Option DeviceInfo
conn_read_cb alloc created head info =
    if not (alloc 0)
    then none
    else if head.cmd == punch_hole_cmd
    then (if not (alloc 1) then none else process_punch_hole_cmd created info)
    else none

-- The event callback: the socket is closed with the bufferevent, and once more.
abbrev pub conn_event_cb : (sock : ℕ) → Trace → Trace
conn_event_cb sock t = safe_close sock (record t { closed = t.closed ++ sock ∷ [] })
