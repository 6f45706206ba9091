-- ===== src/Dns/Tests/Queries.antt =====
-- The exchange with one server.
use personal_journal.Base.{
  ℕ, zero, suc, ◌<◌, ◌≤◌, ◌≡◌, refl, true, false, none, some, [], ◌∷◌, arith, replicate, ok,
}
use personal_journal.Dns.Memory.{mem_copy}
use personal_journal.Dns.Tests.{
  label_a, rounding, reply, head_bytes, question_bytes, packet, empty_slots,
}
use personal_journal.Dns.Tests.Records.{rounding-IsRoomy, owner_name}
use personal_journal.Dns.Receive.{interrupted, returned, recv_within_time, Attempt, exchange}
use personal_journal.Dns.Answers.Response.{Readable}
use personal_journal.Dns.Answers.Store.{ip_info}
use personal_journal.Dns.Packet.{prepare_dns_query_packet}
use personal_journal.Dns.Host.Dots.{without_host, socket_gethostbyname-dots}
use personal_journal.Dns.Host.{Net, zero_buf, socket_gethostbyname, failure}
use personal_journal.Dns.Host.Attempts.{Lost, Got, exchange-Lost}
use personal_journal.Dns.Host.Reception.{Response}
use personal_journal.Dns.Host.Silent.{socket_gethostbyname-Lost}

-- A signal and then a timeout; a datagram.
abbrev timeout : Attempt
timeout = record { sent = true; selects = interrupted ∷ returned false false ∷ []; received = none }

abbrev arrival : Attempt
arrival = record { sent = true; selects = returned false true ∷ []; received = some packet }

-- The first attempt is lost and the others bring the packet; all are lost.
abbrev pub second_time : ℕ → Attempt
second_time zero = timeout
second_time (suc n) = arrival

timeout-Lost : Lost timeout
unfolding recv_within_time
timeout-Lost = record { sent = refl; nothing = refl }

pub arrival-Got : Got arrival packet
unfolding recv_within_time
arrival-Got = record { sent = refl; datagram = refl }

pub first-Lost : (j : ℕ) → 0 ≤ j → j < 1 → Lost (second_time j)
first-Lost zero a b = timeout-Lost
first-Lost (suc j) a b = absurd (omega arith)

all_lost : exchange (λ i. timeout) 3 0 (replicate 64 0) ≡ ok (replicate 64 0)
all_lost = exchange-Lost (λ i. timeout) (replicate 64 0) 3 0 (λ j a b. timeout-Lost)

abbrev pub net : Net
net = record {
  has_server = true;
  has_socket = true;
  pid = 4660;
  attempts = second_time;
  alloc = rounding;
  fuel = 20;
}

abbrev silent_net : Net
silent_net = record net { attempts = λ i. timeout }

socket_gethostbyname-Lost_example :
    socket_gethostbyname silent_net label_a (ip_info 0 empty_slots)
    ≡ ok (
      record { info = ip_info 0 empty_slots; ret = failure; holds_mutex = false },
      (prepare_dns_query_packet 4660 zero_buf label_a).1,
    )
socket_gethostbyname-Lost_example =
    socket_gethostbyname-Lost silent_net label_a (ip_info 0 empty_slots) refl refl
      (λ j a b. timeout-Lost)

pub response : Response (label_a ∷ []) (reply ∷ []) packet
response = record {
  id_flags = head_bytes;
  count0 = 0;
  count1 = 1;
  others = 0 ∷ 0 ∷ 0 ∷ 0 ∷ [];
  asked = question_bytes;
  more = [];
  six = refl;
  four = refl;
  as_asked = refl;
  counted = refl;
  form = refl;
}

pub names : Readable rounding rounding-IsRoomy (mem_copy zero_buf 0 packet) 20 0 19 (reply ∷ [])
unfolding zero_buf
names = ((label_a, owner_name (replicate 2001 0)), tt)

-- "a..", after two queries.
socket_gethostbyname-dots_example :
    without_host (socket_gethostbyname net (97 ∷ 46 ∷ 46 ∷ []) (ip_info 0 empty_slots))
    ≡ without_host (socket_gethostbyname net label_a (ip_info 0 empty_slots))
socket_gethostbyname-dots_example =
    socket_gethostbyname-dots net label_a [] 2 (ground arith) (ip_info 0 empty_slots) (omega arith)
