-- ===== src/P2p/Message.antt =====
-- p2p_transfer.h: the messages between server and peers. Numbers are those of the wire; a
-- `network_type` is the 32 bits of an int.
use personal_journal.Base.{ℕ}

abbrev pub p2p_transfer_magic : ℕ
p2p_transfer_magic = 0xbeefdead1234

-- The commands.
abbrev pub unknown_cmd : ℕ
unknown_cmd = 0

abbrev pub ping_cmd : ℕ
ping_cmd = 1

abbrev pub query_device_info_request : ℕ
query_device_info_request = 2

abbrev pub query_device_info_response : ℕ
query_device_info_response = 3

abbrev pub punch_hole_cmd : ℕ
punch_hole_cmd = 4

-- `struct p2p_msg_ping_t`, `struct p2p_msg_device_info_t`, and their sizes on a 64-bit machine.
pub record PingMsg : Type 0 where
  pub device_sn : ℕ
  pub network_type : ℕ

pub record DeviceInfo : Type 0 where
  pub device_sn : ℕ
  pub ip_addr : ℕ
  pub port : ℕ
  pub network_type : ℕ

abbrev pub ping_size : ℕ
ping_size = 16

abbrev pub device_info_size : ℕ
device_info_size = 24

-- `struct p2p_msg_head_t`.
pub record MsgHead : Type 0 where
  pub magic : ℕ
  pub msgid : ℕ
  pub src_device_sn : ℕ
  pub dst_device_sn : ℕ
  pub cmd_len : ℕ
  pub cmd : ℕ

-- A message: the head and what stands in `cmd_data`.
pub data Payload : Type 0 where
  ping : PingMsg → Payload
  device_info : DeviceInfo → Payload

pub record Message : Type 0 where
  pub head : MsgHead
  pub payload : Payload

-- What calloc makes of the structures.
abbrev pub zero_head : MsgHead
zero_head = record {
  magic = 0;
  msgid = 0;
  src_device_sn = 0;
  dst_device_sn = 0;
  cmd_len = 0;
  cmd = 0;
}

abbrev pub zero_info : DeviceInfo
zero_info = record { device_sn = 0; ip_addr = 0; port = 0; network_type = 0 }
