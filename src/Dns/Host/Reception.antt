-- ===== src/Dns/Host/Reception.antt =====
-- socket_gethostbyname up to the mutex, with a response that holds its answers in some form.
use personal_journal.Base.{
  ℕ, ◌+◌, ◌*◌, ◌%◌, ◌/◌, ◌<◌, ◌≤◌, ◌≡◌, sym, ap, ◌∙◌, true, List, [], ◌∷◌, ◌++◌, append_assoc,
  arith, length, length-append, All, ok, ge→ltb,
}
use personal_journal.Dns.Memory.{Bytes, mem_copy}
use personal_journal.Dns.Name.Labels.{join, encode, IsLabel}
use personal_journal.Dns.Packet.{prepare_dns_query_packet, send_packlen}
use personal_journal.Dns.Packet.Form.{query, prepare-eq, send_packlen-query}
use personal_journal.Dns.Answers.{ResRecord, answer_count, read_answers}
use personal_journal.Dns.Answers.Response.{Reply, wires, u16_at-append}
use personal_journal.Dns.Answers.Store.{}
use personal_journal.Dns.Host.{Net, answered, ask_with}
use personal_journal.Dns.Host.Attempts.{Lost, Got, exchange-Got, copy-front}

pub zero_add : {n : ℕ} → 0 + n ≡ n
zero_add = omega arith

answer_count-few :
    (buf pre post : Bytes) (c0 c1 n : ℕ)
    → buf ≡ pre ++ c0 ∷ c1 ∷ post
    → length pre ≡ 6
    → c0 * 256 + c1 ≡ n
    → n ≤ 20
    → answer_count buf ≡ ok n
unfolding answer_count
answer_count-few buf pre post c0 c1 n e h en few =
    rw (u16_at-append buf pre post c0 c1 6 e (sym h), en, ge→ltb 20 n few)

-- A response to the query for a name: six bytes of header, the count of answers, four more, as many
-- bytes as the question has, the answers, and whatever follows.
pub record Carries (ls : List Bytes) (n : ℕ) (body packet : Bytes) : Type 0 where
  pub id_flags : Bytes
  pub count0 : ℕ
  pub count1 : ℕ
  pub others : Bytes
  pub asked : Bytes
  pub more : Bytes
  pub six : length id_flags ≡ 6
  pub four : length others ≡ 4
  pub as_asked : length asked ≡ length (encode ls) + 5
  pub counted : count0 * 256 + count1 ≡ n
  pub form : packet ≡ id_flags ++ count0 ∷ count1 ∷ (others ++ (asked ++ (body ++ more)))

-- One whose answers are addresses.
abbrev pub Response : List Bytes → List Reply → Bytes → Type 0
Response ls rs packet = Carries ls (length rs) (wires rs) packet

-- Where the records stand in a response.
abbrev pub answers_at : List Bytes → ℕ
answers_at ls = length (encode ls) + 17

module _ (blank packet body : Bytes) (ls : List Bytes) (n : ℕ) (fits : length packet ≤ length blank)
    (response : Carries ls n body packet) where
  abbrev pub front_of : Bytes
  front_of =
      response.id_flags ++ response.count0 ∷ response.count1 ∷ (response.others ++ response.asked)

  pub received :
      (rest : Bytes) × (mem_copy blank 0 packet ≡ front_of ++ (body ++ (response.more ++ rest)))
  received =
      let (rest, e) = copy-front blank packet fits in
      (rest, e ∙ ap (λ p. p ++ rest) response.form ∙ simp append_assoc)

  pub size_front : length front_of ≡ answers_at ls
  size_front = omega (
    arith,
    length-append response.id_flags
        (response.count0 ∷ response.count1 ∷ (response.others ++ response.asked)),
    length-append response.others response.asked,
    response.six,
    response.four,
    response.as_asked,
  )

-- What is asked for a name, when its answers are taken apart in one way or another.
module _ (blank : Bytes) (net : Net) (packet body l : Bytes) (ls : List Bytes) (n k : ℕ)
    (server : net.has_server ≡ true) (socket : net.has_socket ≡ true)
    (labels : All IsLabel (l ∷ ls)) (short : length (encode (l ∷ ls)) + 17 ≤ length blank)
    (in_time : k < 3) (lost : (j : ℕ) → 0 ≤ j → j < k → Lost (net.attempts j))
    (got : Got (net.attempts k) packet) (fits : length packet ≤ length blank)
    (response : Carries (l ∷ ls) n body packet) (few : n ≤ 20) where
  pub ask_with-carries :
      (records : List ResRecord)
      → read_answers net.alloc (mem_copy blank 0 packet) net.fuel n 0 (answers_at (l ∷ ls))
        ≡ ok records
      → ask_with blank net (join l ls)
        ≡ ok (answered (mem_copy blank 0 packet) n records, join l ls ++ b'.' ∷ [])
  unfolding ask_with
  ask_with-carries records reads = rw (
    server,
    socket,
    sent.1,
    exchange-Got net.attempts blank packet 3 0 k (omega arith) (omega arith) lost got,
    counted,
    at,
    reads,
  )
    where
      buffer :
          (rest : Bytes) × (mem_copy blank 0 packet
            ≡ front_of blank packet body (l ∷ ls) n fits response
              ++ (body ++ (response.more ++ rest)))
      buffer = received blank packet body (l ∷ ls) n fits response

      sent :
          (rest : Bytes) × (prepare_dns_query_packet net.pid blank (join l ls) ≡ (
            query (net.pid % 65536 % 256) (net.pid % 65536 / 256 % 256) (l ∷ ls) ++ rest,
            join l ls ++ b'.' ∷ [],
          ))
      sent = prepare-eq net.pid blank l ls labels short

      q : Bytes
      q = query (net.pid % 65536 % 256) (net.pid % 65536 / 256 % 256) (l ∷ ls)

      at : send_packlen (q ++ sent.0) ≡ answers_at (l ∷ ls)
      at =
          send_packlen-query (net.pid % 65536 % 256) (net.pid % 65536 / 256 % 256) (l ∷ ls) sent.0
            labels
          ∙ omega (arith, length-append (encode (l ∷ ls)) (0 ∷ 0 ∷ 28 ∷ 0 ∷ 1 ∷ []))

      counted : answer_count (mem_copy blank 0 packet) ≡ ok n
      counted =
          answer_count-few (mem_copy blank 0 packet) response.id_flags
            ((response.others ++ response.asked) ++ (body ++ (response.more ++ buffer.0)))
            response.count0 response.count1 n (buffer.1 ∙ append_assoc response.id_flags _ _)
            response.six response.counted few
