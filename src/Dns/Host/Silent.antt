-- ===== src/Dns/Host/Silent.antt =====
-- socket_gethostbyname when no datagram comes.
use personal_journal.Base.{
  ℕ, ◌<◌, ◌≤◌, ◌≡◌, refl, true, not, arith, ◌==◌, if◌then◌else◌, Bool-cases, inl, inr, ok,
}
use personal_journal.Dns.Memory.{Bytes, byte}
use personal_journal.Dns.Packet.{prepare_dns_query_packet}
use personal_journal.Dns.Answers.{IpInfo, answer_count, read_answers, store_answers, u16_at}
use personal_journal.Dns.Host.{
  Net, zero_buf, ask, ask_with, success, failure, take_answers, socket_gethostbyname,
}
use personal_journal.Dns.Host.Attempts.{Lost, exchange-Lost}

zero_buf-no_answers : answer_count zero_buf ≡ ok 0
unfolding answer_count u16_at byte zero_buf
zero_buf-no_answers = refl

-- With three attempts that bring nothing, the list stays as it was, and the result goes by what is
-- in it: on an empty list the call returns -1 and the mutex is released; where another thread has
-- already put addresses there, it returns 0 and the mutex stays locked.
pub socket_gethostbyname-Lost :
    (net : Net) (host : Bytes) (info : IpInfo)
    → net.has_server ≡ true
    → net.has_socket ≡ true
    → ((j : ℕ) → 0 ≤ j → j < 3 → Lost (net.attempts j))
    → socket_gethostbyname net host info
      ≡ ok (
        record {
          info = info;
          ret = if info.size == 0 then failure else success;
          holds_mutex = not (info.size == 0);
        },
        (prepare_dns_query_packet net.pid zero_buf host).1,
      )
unfolding socket_gethostbyname ask ask_with take_answers store_answers read_answers
socket_gethostbyname-Lost net host info server socket lost =
    rw
      (
        server,
        socket,
        exchange-Lost net.attempts zero_buf 3 0 (λ j a b. lost j a (omega arith)),
        zero_buf-no_answers,
      )
      (elim (Bool-cases (info.size == 0)) [ inl e ↦ rw e | inr e ↦ rw e ])
