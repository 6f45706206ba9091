-- ===== src/Dns/Host.antt =====
-- dns64_query_c/dns_v6/dnsquery.c: one query to one server (socket_gethostbyname).
pub mod Attempts
pub mod Reception
pub mod Resolve
pub mod Silent
pub mod Aliases
pub mod Dots
pub use personal_journal.Base.{Ret, success, failure}
use personal_journal.Base.{
  ℕ, ◌+◌, Bool, true, false, not, List, [], ltb, ◌==◌, if◌then◌else◌, replicate, Outcome, ok, ◌>>=◌,
}
use personal_journal.Dns.Memory.{Bytes}
use personal_journal.Dns.Packet.{prepare_dns_query_packet, send_packlen}
use personal_journal.Dns.Answers.{
  IpInfo, ResRecord, Allocator, read_answers, answer_count, store_answers,
}
use personal_journal.Dns.Receive.{Attempt, exchange}

-- `unsigned char send_buf[2048] = {0};` and `recv_buf` likewise.
unfoldable pub zero_buf : Bytes
zero_buf = replicate 2048 0

-- What one call meets: a server address or NULL, the socket call's success, the process id, the
-- three attempts, the allocator, and how many rounds ReadName is followed.
pub record Net : Type 0 where
  pub has_server : Bool
  pub has_socket : Bool
  pub pid : ℕ
  pub attempts : ℕ → Attempt
  pub alloc : Allocator
  pub fuel : ℕ

-- What a call has before it takes the mutex: nothing, or the receive buffer and the records in it.
pub data Asked : Type 0 where
  unasked : Asked
  answered : (recv_buf : Bytes) (count : ℕ) → List ResRecord → Asked

-- socket_gethostbyname up to `pthread_mutex_lock`, with what its two buffers hold at first and the
-- host name, which the query changes.
unfoldable pub ask_with : (blank : Bytes) → Net → Bytes → Outcome (Asked × Bytes)
ask_with blank net host =
    if not net.has_server
    then ok (unasked, host)
    else if not net.has_socket
    then ok (unasked, host)
    else let (send_buf, host') = prepare_dns_query_packet net.pid blank host in
      exchange net.attempts 3 0 blank >>= λ recv_buf. answer_count recv_buf >>= λ count.
      read_answers net.alloc recv_buf net.fuel count 0 (send_packlen send_buf) >>= λ records.
      ok (answered recv_buf count records, host')

unfoldable pub ask : Net → Bytes → Outcome (Asked × Bytes)
ask = ask_with zero_buf

-- The address list, the result, and whether the caller's thread still holds the mutex.
pub record Took : Type 0 where
  pub info : IpInfo
  pub ret : Ret
  pub holds_mutex : Bool

-- From `pthread_mutex_lock` on: the addresses are stored, and the mutex is released only if there
-- are none.
unfoldable pub take_answers : IpInfo → Asked → Outcome Took
take_answers info unasked = ok (record { info = info; ret = failure; holds_mutex = false })
take_answers info (answered recv_buf count records) =
    store_answers recv_buf count info records >>= λ info'.
    if info'.size == 0
    then ok (record { info = info'; ret = failure; holds_mutex = false })
    else ok (record { info = info'; ret = success; holds_mutex = true })

-- socket_gethostbyname, and the host name afterwards.
unfoldable pub socket_gethostbyname : Net → Bytes → IpInfo → Outcome (Took × Bytes)
socket_gethostbyname net host info = do
  (asked, host') ← ask net host
  took ← take_answers info asked
  ok (took, host')
