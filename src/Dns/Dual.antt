-- ===== src/Dns/Dual.antt =====
-- dnsquery/dnsquery.cc: the resolver for both families, from which the C resolvers were made. What
-- differs from them is here: the queries and answers of either type, the two lists, and the choice.
pub mod Choice
pub mod Same
pub mod FirstOctets
pub mod Answered
use personal_journal.Base.{
  ℕ, zero, suc, ◌+◌, Bool, true, false, not, ◌&&◌, Option, none, some, List, [], ◌∷◌, ◌++◌, ltb,
  ◌==◌, if◌then◌else◌, length, get_or, set, drop, Outcome, ok, fault, out_of_fuel, ◌>>=◌, Ret,
  success, failure,
}
use personal_journal.Dns.Memory.{Bytes, strlen, mem_copy}
use personal_journal.Dns.Name.{change_to_dns_name_format, read_name}
use personal_journal.Dns.Packet.{
  aaaa, store_u16, htons, header_size, header_bytes, query_header, send_packlen,
}
use personal_journal.Dns.Answers.{
  Allocator, ResRecord, Step, stored, stopped, no_record, u16_at, read_address, read_other,
  answer_count, read_address_bytes,
}
use personal_journal.Dns.Receive.{exchange}
use personal_journal.Dns.Host.{Net}
use personal_journal.Dns.Single.{wide_buf}

-- `A`, and the type that goes with the global `ipv4`.
abbrev pub a_record : ℕ
a_record = 1

abbrev pub type_for : (ipv4 : Bool) → ℕ
type_for true = a_record
type_for false = aaaa

-- PrepareDnsQueryPacket; the host name is a `std::string` by value.
abbrev pub question_for : (ipv4 : Bool) → Bytes
question_for ipv4 = store_u16 (htons (type_for ipv4)) ++ store_u16 (htons 1)

unfoldable pub fill_packet_for : (ipv4 : Bool) → (buf header qname : Bytes) → Bytes
fill_packet_for ipv4 buf header qname =
    let with_header = mem_copy buf 0 header in
    let with_name = mem_copy with_header header_size qname in
    let end = header_size + (strlen (drop header_size with_name) + 1) in
    mem_copy with_name end (question_for ipv4)

unfoldable pub prepare_for : (ipv4 : Bool) → (pid : ℕ) → Bytes → Bytes → Bytes
prepare_for ipv4 pid buf host =
    let (qname, host') = change_to_dns_name_format host in
    fill_packet_for ipv4 buf (header_bytes (query_header pid)) qname

-- ReadRecvAnswer.
module _ (ipv4 : Bool) (alloc : Allocator) (buf : Bytes) (fuel : ℕ) where
  unfoldable pub read_answer_for : (i reader : ℕ) → Outcome Step
  read_answer_for i reader = do
    (name, stop) ← read_name (alloc.for_name i) buf fuel reader
    type ← u16_at buf (reader + stop)
    if type == type_for ipv4
        then read_address alloc buf fuel i (reader + stop + 10) name (reader + stop)
        else read_other alloc buf fuel i (reader + stop + 10) name (reader + stop)

  unfoldable pub read_answers_for : (rounds i reader : ℕ) → Outcome (List ResRecord)
  read_answers_for zero i reader = ok []
  read_answers_for (suc n) i reader = do
    s ← read_answer_for i reader
    elim s [
      | stopped r ↦ ok (r ∷ [])
      | stored r reader' ↦ read_answers_for n (i + 1) reader' >>= λ rest. ok (r ∷ rest)
    ]

-- `struct socket_ipinfo_t`, with one size for two arrays.
pub record DualInfo : Type 0 where
  pub size : ℕ
  pub v6_addr : List Bytes
  pub v4_addr : List Bytes

unfoldable pub put_v6 : DualInfo → Bytes → Outcome DualInfo
put_v6 info addr =
    if ltb info.size (length info.v6_addr)
    then ok (record info { size = info.size + 1; v6_addr = set info.v6_addr info.size addr })
    else fault

-- `v4_addr[size].s_addr = *answers[i].rdata`, on a little-endian machine; `rdata[0]` to `rdata[3]` are
-- printed.
unfoldable pub first_octet : Option Bytes → Outcome ℕ
first_octet none = fault
first_octet (some rdata) = if ltb (length rdata) 4 then fault else ok (get_or rdata 0 0)

unfoldable pub put_v4 : DualInfo → (octet : ℕ) → Outcome DualInfo
put_v4 info octet =
    if ltb info.size (length info.v4_addr)
    then ok (record info {
      size = info.size + 1;
      v4_addr = set info.v4_addr info.size (octet ∷ 0 ∷ 0 ∷ 0 ∷ []);
    })
    else fault

-- The loops over the answers of socketv4_gethostbyname and socketv6_gethostbyname.
abbrev pub take_rdata : (ipv4 : Bool) → DualInfo → Option Bytes → Outcome DualInfo
take_rdata true info rdata = first_octet rdata >>= λ octet. put_v4 info octet
take_rdata false info rdata = read_address_bytes rdata >>= λ addr. put_v6 info addr

unfoldable pub store_answer_for : (ipv4 : Bool) → Bytes → DualInfo → ResRecord → Outcome DualInfo
store_answer_for ipv4 buf info r = elim r.resource [
  | none ↦ fault
  | some resource ↦ do
    type ← u16_at buf resource
    if type == type_for ipv4 then take_rdata ipv4 info r.rdata else ok info
]

unfoldable pub store_answers_for :
    (ipv4 : Bool) → Bytes → (rounds : ℕ) → DualInfo → List ResRecord → Outcome DualInfo
store_answers_for ipv4 buf zero info rs = ok info
store_answers_for ipv4 buf (suc n) info [] =
    store_answer_for ipv4 buf info no_record >>= λ info'. store_answers_for ipv4 buf n info' []
store_answers_for ipv4 buf (suc n) info (r ∷ rs) =
    store_answer_for ipv4 buf info r >>= λ info'. store_answers_for ipv4 buf n info' rs

abbrev pub verdict : DualInfo → DualInfo × Ret
verdict info = (info, if info.size == 0 then failure else success)

-- What both do once they have a socket.
unfoldable pub query_for : (ipv4 : Bool) → Net → Bytes → DualInfo → Outcome (DualInfo × Ret)
query_for ipv4 net host info =
    let send_buf = prepare_for ipv4 net.pid wide_buf host in
    exchange net.attempts 3 0 wide_buf >>= λ recv_buf. answer_count recv_buf >>= λ count.
    read_answers_for ipv4 net.alloc recv_buf net.fuel count 0 (send_packlen send_buf) >>= λ records.
    store_answers_for ipv4 recv_buf count (record info { size = 0 }) records >>= λ info'.
    ok (verdict info')

-- How a call ends: with the list, `none` being NULL, and a result, or in `exit(-1)`.
pub data Called : Type 0 where
  returned : Option DualInfo → Ret → Called
  exited : Called

abbrev pub came_back : DualInfo × Ret → Called
came_back (info, ret) = returned (some info) ret

-- The server's text is not tested for NULL before it goes to inet_pton.
unfoldable pub socketv6_gethostbyname : Net → Option Bytes → Option DualInfo → Outcome Called
socketv6_gethostbyname net none info = ok (returned info failure)
socketv6_gethostbyname net (some host) none = ok (returned none failure)
socketv6_gethostbyname net (some host) (some info) =
    if not net.has_socket
    then ok exited
    else if not net.has_server
    then fault
    else query_for false net host info >>= λ r. ok (came_back r)

-- The servers that are collected are not used: the query goes to 8.8.8.8.
unfoldable pub socketv4_gethostbyname : Net → Option Bytes → Option DualInfo → Outcome Called
socketv4_gethostbyname net none info = ok (returned info failure)
socketv4_gethostbyname net (some host) none = ok (returned none failure)
socketv4_gethostbyname net (some host) (some info) =
    if not net.has_socket
    then ok exited
    else (query_for true net host info >>= λ r. ok (came_back r))

-- `ret = connect(…)` of a datagram socket: interrupted, done or refused.
pub data Connect : Type 0 where
  interrupted connected refused : Connect

-- _test_connect, given whether there is a socket and how the calls of connect end.
unfoldable pub connect_rounds : List Connect → Outcome Bool
connect_rounds [] = out_of_fuel
connect_rounds (interrupted ∷ calls) = connect_rounds calls
connect_rounds (connected ∷ calls) = ok true
connect_rounds (refused ∷ calls) = ok false

unfoldable pub test_connect : (socket : Bool) → List Connect → Outcome Bool
test_connect false calls = ok false
test_connect true calls = connect_rounds calls

pub data Family : Type 0 where
  stack_none stack_ipv4 stack_ipv6 stack_dual : Family

-- The assignments of checknetfamily to `net_family`, in their order.
abbrev pub family_of : (have_ipv4 have_ipv6 : Bool) → Family
family_of have_ipv4 have_ipv6 =
    let first = if have_ipv4 then stack_ipv4 else stack_none in
    let second = if have_ipv6 then stack_ipv6 else first in
    if have_ipv4 && have_ipv6 then stack_dual else second

pub record Probe : Type 0 where
  pub socket4 : Bool
  pub calls4 : List Connect
  pub socket6 : Bool
  pub calls6 : List Connect

unfoldable pub checknetfamily : Probe → Outcome Family
checknetfamily p = do
  have_ipv4 ← test_connect p.socket4 p.calls4
  have_ipv6 ← test_connect p.socket6 p.calls6
  ok (family_of have_ipv4 have_ipv6)

-- socket_gethostbyname returns nothing; a call that does not exit leaves the list.
abbrev pub ask_family : Family → (net4 net6 : Net) → Option Bytes → Option DualInfo → Outcome Called
ask_family stack_ipv6 net4 net6 host info = socketv6_gethostbyname net6 host info
ask_family _ net4 net6 host info = socketv4_gethostbyname net4 host info

unfoldable pub dual_gethostbyname :
    Probe → (net4 net6 : Net) → Option Bytes → Option DualInfo → Outcome Called
dual_gethostbyname p net4 net6 host info =
    checknetfamily p >>= λ family. ask_family family net4 net6 host info
