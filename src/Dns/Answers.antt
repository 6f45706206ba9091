-- ===== src/Dns/Answers.antt =====
-- dns64_query_c/dns_v6/dnsquery.c: the records of a response (R_DATA, RES_RECORD, ReadRecvAnswer) and
-- the addresses that socket_gethostbyname takes from them.
pub mod Response
pub mod Store
pub mod Bounds
pub mod Kept
pub mod Overrun
pub mod Mixed
use personal_journal.Base.{
  ℕ, zero, suc, ◌+◌, ◌*◌, Bool, true, false, Option, none, some, List, [], ◌∷◌, ◌++◌, ltb, ◌==◌,
  if◌then◌else◌, length, set, take, Outcome, ok, fault, ◌>>=◌,
}
use personal_journal.Dns.Memory.{Bytes, byte}
use personal_journal.Dns.Name.{read_name}
use personal_journal.Dns.Packet.{aaaa}

-- `SOCKET_MAX_IP_COUNT`.
abbrev pub socket_max_ip_count : ℕ
socket_max_ip_count = 20

-- `struct socket_ipinfo_t`.
pub record IpInfo : Type 0 where
  pub size : ℕ
  pub v6_addr : List Bytes

-- `struct RES_RECORD`: `none` is NULL, and `resource` is an index into the receive buffer.
pub record ResRecord : Type 0 where
  pub name : Option Bytes
  pub resource : Option ℕ
  pub rdata : Option Bytes

-- The allocator: whether the n-th allocation for the name, or for the data, of the i-th record
-- succeeds, and how many bytes a block that is asked for holds.
pub record Allocator : Type 0 where
  pub for_name : ℕ → ℕ → Bool
  pub for_rdata : ℕ → ℕ → Bool
  pub usable : ℕ → ℕ

-- `ntohs` of the two bytes at an index.
unfoldable pub u16_at : Bytes → ℕ → Outcome ℕ
u16_at buf i = do high ← byte buf i; low ← byte buf (i + 1); ok (high * 256 + low)

-- `rdata[j] = _reader[j]`, with the rounds left.
unfoldable pub copy_rdata : Bytes → (rounds reader : ℕ) → Outcome Bytes
copy_rdata buf zero reader = ok []
copy_rdata buf (suc n) reader = do
  b ← byte buf reader
  rest ← copy_rdata buf n (reader + 1)
  ok (b ∷ rest)

-- The record that ReadRecvAnswer stores, and where it reads on; `stopped` is its early return.
pub data Step : Type 0 where
  stored : ResRecord → (reader : ℕ) → Step
  stopped : ResRecord → Step

module _ (alloc : Allocator) (buf : Bytes) (fuel : ℕ) where
  -- The data of an address record: a block of `data_len` bytes, the bytes, and a zero behind them,
  -- which needs a block that holds one byte more than was asked for.
  unfoldable pub read_address : ℕ → (reader : ℕ) → Option Bytes → (resource : ℕ) → Outcome Step
  read_address i reader name resource = do
    data_len ← u16_at buf (resource + 8)
    if alloc.for_rdata i 0
        then (do
          bytes ← copy_rdata buf data_len reader
          if ltb data_len (alloc.usable data_len)
              then ok (
                  stored
                    (record {
                      name = name;
                      resource = some resource;
                      rdata = some (bytes ++ 0 ∷ []);
                    })
                    (reader + data_len))
              else fault)
        else ok (stopped (record { name = name; resource = some resource; rdata = none }))

  -- The data of any other record is read as a name.
  unfoldable pub read_other : ℕ → (reader : ℕ) → Option Bytes → (resource : ℕ) → Outcome Step
  read_other i reader name resource = do
    (rdata, stop) ← read_name (alloc.for_rdata i) buf fuel reader
    ok (stored (record { name = name; resource = some resource; rdata = rdata }) (reader + stop))

  -- One round of ReadRecvAnswer, on the i-th record.
  unfoldable pub read_answer : (i reader : ℕ) → Outcome Step
  read_answer i reader = do
    (name, stop) ← read_name (alloc.for_name i) buf fuel reader
    type ← u16_at buf (reader + stop)
    if type == aaaa
        then read_address i (reader + stop + 10) name (reader + stop)
        else read_other i (reader + stop + 10) name (reader + stop)

  -- ReadRecvAnswer, with the rounds left: the records that it fills in, first to last.
  unfoldable pub read_answers : (rounds i reader : ℕ) → Outcome (List ResRecord)
  read_answers zero i reader = ok []
  read_answers (suc n) i reader = do
    s ← read_answer i reader
    elim s [
      | stopped r ↦ ok (r ∷ [])
      | stored r reader' ↦ read_answers n (i + 1) reader' >>= λ rest. ok (r ∷ rest)
    ]

-- `min(SOCKET_MAX_IP_COUNT, (int)ntohs(dns->ans_count))`.
unfoldable pub answer_count : Bytes → Outcome ℕ
answer_count buf = do
  n ← u16_at buf 6
  ok (if ltb socket_max_ip_count n then socket_max_ip_count else n)

-- A record that ReadRecvAnswer did not reach is still zero from the memset.
abbrev pub no_record : ResRecord
no_record = record { name = none; resource = none; rdata = none }

-- Sixteen bytes of `rdata`; a NULL `rdata`, and a read past what was stored there, are faults.
unfoldable pub read_address_bytes : Option Bytes → Outcome Bytes
read_address_bytes none = fault
read_address_bytes (some rdata) = if ltb (length rdata) 16 then fault else ok (take 16 rdata)

-- `_ipinfo->v6_addr[_ipinfo->size] = …; _ipinfo->size++;`, a fault past the array's end.
unfoldable pub put_address : IpInfo → Bytes → Outcome IpInfo
put_address info addr =
    if ltb info.size (length info.v6_addr)
    then ok (record { size = info.size + 1; v6_addr = set info.v6_addr info.size addr })
    else fault

-- One round of the loop of socket_gethostbyname over the answers.
unfoldable pub store_answer : Bytes → IpInfo → ResRecord → Outcome IpInfo
store_answer buf info r = elim r.resource [
  | none ↦ fault
  | some resource ↦ do
    type ← u16_at buf resource
    if type == aaaa then (do addr ← read_address_bytes r.rdata; put_address info addr) else ok info
]

-- The loop, with the rounds left; past the records that were filled in it meets zeroed ones.
unfoldable pub store_answers : Bytes → (rounds : ℕ) → IpInfo → List ResRecord → Outcome IpInfo
store_answers buf zero info rs = ok info
store_answers buf (suc n) info [] =
    store_answer buf info no_record >>= λ info'. store_answers buf n info' []
store_answers buf (suc n) info (r ∷ rs) =
    store_answer buf info r >>= λ info'. store_answers buf n info' rs
