-- ===== src/P2p/Devices.antt =====
-- The list that p2p_transfer_server.c keeps its devices in: what it relies on of list.h, which is
-- another project's. Each call of the program is an operation, and the laws say what the list's own
-- documentation promises of it.
use personal_journal.Base.{ℕ, ◌≡◌, List, [], ◌∷◌}

-- `struct p2p_server_device_info_t` without its link: `pbev` names a bufferevent.
pub record Device : Type 0 where
  pub pbev : ℕ
  pub device_sn : ℕ
  pub ip_addr : ℕ
  pub port : ℕ
  pub network_type : ℕ

-- INIT_LIST_HEAD, list_add, and the entries in the order of list_for_each_entry.
pub record ListOps (L : Type 0) : Type 0 where
  pub init_list_head : L
  pub list_add : Device → L → L
  pub entries : L → List Device
  pub entries-init : entries init_list_head ≡ []
  pub entries-add : (d : Device) (l : L) → entries (list_add d l) ≡ d ∷ entries l
