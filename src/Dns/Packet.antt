-- ===== src/Dns/Packet.antt =====
-- dns64_query_c/dns_v6/dnsquery.c: the query packet (DNS_HEADER, QUESTION, PrepareDnsQueryPacket).
pub mod Form
use personal_journal.Base.{ℕ, ◌+◌, ◌*◌, ◌/◌, ◌%◌, [], ◌∷◌, ◌++◌, drop}
use personal_journal.Dns.Memory.{Bytes, strlen, mem_copy}
use personal_journal.Dns.Name.{change_to_dns_name_format}

-- `AAAA`, the type of an IPv6 address record.
abbrev pub aaaa : ℕ
aaaa = 0x1c

-- An `unsigned short` in the memory of a little-endian machine, and `htons` there.
abbrev pub store_u16 : ℕ → Bytes
store_u16 v = v % 256 ∷ (v / 256 % 256) ∷ []

abbrev pub htons : ℕ → ℕ
htons v = v % 256 * 256 + v / 256 % 256

pub record DnsHeader : Type 0 where
  pub id : ℕ
  pub rd : ℕ
  pub tc : ℕ
  pub aa : ℕ
  pub opcode : ℕ
  pub qr : ℕ
  pub rcode : ℕ
  pub cd : ℕ
  pub ad : ℕ
  pub z : ℕ
  pub ra : ℕ
  pub q_count : ℕ
  pub ans_count : ℕ
  pub auth_count : ℕ
  pub add_count : ℕ

abbrev pub header_size : ℕ
header_size = 12

-- The packed structure in memory: the bit fields of a byte from its low end.
unfoldable pub header_bytes : DnsHeader → Bytes
header_bytes h =
    store_u16 h.id
    ++ (h.rd + 2 * h.tc + 4 * h.aa + 8 * h.opcode + 128 * h.qr)
      ∷ (h.rcode + 16 * h.cd + 32 * h.ad + 64 * h.z + 128 * h.ra)
      ∷ (store_u16 h.q_count
          ++ store_u16 h.ans_count
          ++ store_u16 h.auth_count
          ++ store_u16 h.add_count)

-- The header that PrepareDnsQueryPacket fills in: a standard query with one question.
abbrev pub query_header : (pid : ℕ) → DnsHeader
query_header pid = record {
  id = pid % 65536;
  rd = 1;
  tc = 0;
  aa = 0;
  opcode = 0;
  qr = 0;
  rcode = 0;
  cd = 0;
  ad = 0;
  z = 0;
  ra = 0;
  q_count = htons 1;
  ans_count = 0;
  auth_count = 0;
  add_count = 0;
}

-- `struct QUESTION` with `qtype = htons(AAAA)` and `qclass = htons(1)`.
abbrev pub question : Bytes
question = store_u16 (htons aaaa) ++ store_u16 (htons 1)

-- The stores into the send buffer: the header, the name behind it, and the question behind the name.
unfoldable pub fill_packet : (buf header qname : Bytes) → Bytes
fill_packet buf header qname =
    let with_header = mem_copy buf 0 header in
    let with_name = mem_copy with_header header_size qname in
    let end = header_size + (strlen (drop header_size with_name) + 1) in
    mem_copy with_name end question

-- The send buffer afterwards, and the host name, which has been changed in place.
unfoldable pub prepare_dns_query_packet : (pid : ℕ) → Bytes → Bytes → Bytes × Bytes
prepare_dns_query_packet pid buf host =
    let (qname, host') = change_to_dns_name_format host in
    (fill_packet buf (header_bytes (query_header pid)) qname, host')

-- `send_packlen`: the header, the name with its zero, and the question.
abbrev pub send_packlen : Bytes → ℕ
send_packlen send_buf = header_size + (strlen (drop header_size send_buf) + 1) + 4
