-- ===== src/Dns/Single/Answered.antt =====
-- The older socket_gethostbyname, with a response and without one.
use personal_journal.Base.{
  ℕ, ◌+◌, ◌<◌, ◌≤◌, ◌≡◌, refl, true, some, List, [], ◌∷◌, ◌++◌, arith, length, All, ok, ne→==,
}
use personal_journal.Dns.Memory.{Bytes, mem_copy, byte}
use personal_journal.Dns.Name.Labels.{join, encode, IsLabel}
use personal_journal.Dns.Packet.{prepare_dns_query_packet}
use personal_journal.Dns.Answers.{IpInfo, answer_count, read_answers, store_answers, u16_at}
use personal_journal.Dns.Answers.Response.{Reply, IsReply, IsRoomy, Readable}
use personal_journal.Dns.Answers.Store.{ip_info, addresses}
use personal_journal.Dns.Host.{Net, ask_with, success, failure}
use personal_journal.Dns.Host.Attempts.{Lost, Got, exchange-Lost, length-replicate}
use personal_journal.Dns.Host.Reception.{Response, answers_at}
use personal_journal.Dns.Host.Resolve.{ask_with-response, store_answers-response}
use personal_journal.Dns.Single.{wide_buf, keep_answers, single_gethostbyname}

pub length-wide_buf : length wide_buf ≡ 65536
unfolding wide_buf
length-wide_buf = length-replicate 65536

module _ (net : Net) (packet l : Bytes) (ls : List Bytes) (rs : List Reply) (k : ℕ)
    (server : net.has_server ≡ true) (socket : net.has_socket ≡ true)
    (labels : All IsLabel (l ∷ ls)) (short : length (encode (l ∷ ls)) + 17 ≤ 65536)
    (in_time : k < 3) (lost : (j : ℕ) → 0 ≤ j → j < k → Lost (net.attempts j))
    (got : Got (net.attempts k) packet) (fits : length packet ≤ 65536)
    (response : Response (l ∷ ls) rs packet) (few : length rs ≤ 20) (replies : All IsReply rs)
    (roomy : IsRoomy net.alloc)
    (names : Readable net.alloc roomy
      (mem_copy wide_buf 0 packet)
      net.fuel
      0
      (answers_at (l ∷ ls))
      rs) where
  -- A name is answered as by the newer resolver, whatever the list held: if the server and the socket
  -- are there, one of the three attempts brings a response to the name with one to twenty address
  -- records, and those before it bring none, the call returns 0, and the list holds the addresses of
  -- the records in order; but the caller's own host name has a dot appended.
  pub single_gethostbyname-response :
      (size : ℕ) (old back : List Bytes)
      → length old ≡ length rs
      → 0 < length rs
      → single_gethostbyname net (some (join l ls)) (some (ip_info size (old ++ back)))
        ≡ ok (record {
          info = some (ip_info (length rs) (addresses rs ++ back));
          ret = success;
          host = some (join l ls ++ b'.' ∷ []);
        })
  unfolding single_gethostbyname keep_answers
  single_gethostbyname-response size old back eo some' = rw (
    ask_with-response wide_buf net packet l ls rs k server socket labels (rw length-wide_buf short)
        in_time lost got (rw length-wide_buf fits) response few replies roomy names,
    store_answers-response wide_buf net packet l ls rs k server socket labels
        (rw length-wide_buf short) in_time lost got (rw length-wide_buf fits) response few replies
        roomy names old back eo,
    ne→== (length rs) 0 (omega arith),
  )

wide_buf-no_answers : answer_count wide_buf ≡ ok 0
unfolding answer_count u16_at byte wide_buf
wide_buf-no_answers = refl

-- With three attempts that bring nothing the call returns -1 and empties the list, whatever it held.
pub single_gethostbyname-Lost :
    (net : Net) (host : Bytes) (info : IpInfo)
    → net.has_server ≡ true
    → net.has_socket ≡ true
    → ((j : ℕ) → 0 ≤ j → j < 3 → Lost (net.attempts j))
    → single_gethostbyname net (some host) (some info)
      ≡ ok (record {
        info = some (record info { size = 0 });
        ret = failure;
        host = some (prepare_dns_query_packet net.pid wide_buf host).1;
      })
unfolding single_gethostbyname ask_with keep_answers store_answers read_answers
single_gethostbyname-Lost net host info server socket lost =
    rw
      (
        server,
        socket,
        exchange-Lost net.attempts wide_buf 3 0 (λ j a b. lost j a (omega arith)),
        wide_buf-no_answers,
      )
      refl
