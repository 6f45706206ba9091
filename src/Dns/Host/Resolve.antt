-- ===== src/Dns/Host/Resolve.antt =====
-- socket_gethostbyname as a whole.
use personal_journal.Base.{
  ℕ, ◌+◌, ◌<◌, ◌≤◌, ◌≡◌, refl, sym, true, List, [], ◌∷◌, ◌++◌, length, All, ok,
}
use personal_journal.Dns.Memory.{Bytes, mem_copy}
use personal_journal.Dns.Name.Labels.{join, encode, IsLabel}
use personal_journal.Dns.Packet.{}
use personal_journal.Dns.Packet.Form.{}
use personal_journal.Dns.Answers.{store_answers}
use personal_journal.Dns.Answers.Response.{
  Reply, IsReply, wires, IsRoomy, Readable, records_of, read_answers-replies,
}
use personal_journal.Dns.Answers.Store.{ip_info, addresses, store_answers-replies}
use personal_journal.Dns.Host.{Net, zero_buf, answered, ask, ask_with}
use personal_journal.Dns.Host.Attempts.{Lost, Got, length-zero_buf}
use personal_journal.Dns.Host.Reception.{
  Response, answers_at, ask_with-carries, front_of, received, size_front, zero_add,
}

module _ (blank : Bytes) (net : Net) (packet l : Bytes) (ls : List Bytes) (rs : List Reply) (k : ℕ)
    (server : net.has_server ≡ true) (socket : net.has_socket ≡ true)
    (labels : All IsLabel (l ∷ ls)) (short : length (encode (l ∷ ls)) + 17 ≤ length blank)
    (in_time : k < 3) (lost : (j : ℕ) → 0 ≤ j → j < k → Lost (net.attempts j))
    (got : Got (net.attempts k) packet) (fits : length packet ≤ length blank)
    (response : Response (l ∷ ls) rs packet) (few : length rs ≤ 20) (replies : All IsReply rs)
    (roomy : IsRoomy net.alloc)
    (names : Readable net.alloc roomy
      (mem_copy blank 0 packet)
      net.fuel
      0
      (answers_at (l ∷ ls))
      rs) where
  front : Bytes
  front = front_of blank packet (wires rs) (l ∷ ls) (length rs) fits response

  buffer :
      (rest : Bytes) × (mem_copy blank 0 packet ≡ front ++ (wires rs ++ (response.more ++ rest)))
  unfolding front
  buffer = received blank packet (wires rs) (l ∷ ls) (length rs) fits response

  size : length front ≡ answers_at (l ∷ ls)
  unfolding front
  size = size_front blank packet (wires rs) (l ∷ ls) (length rs) fits response

  pub ask_with-response :
      ask_with blank net (join l ls)
      ≡ ok (
        answered (mem_copy blank 0 packet) (length rs) (
            records_of net.alloc roomy
              (mem_copy blank 0 packet)
              net.fuel
              0
              (answers_at (l ∷ ls))
              rs
              names),
        join l ls ++ b'.' ∷ [],
      )
  ask_with-response =
      ask_with-carries blank net packet (wires rs) l ls (length rs) k server socket labels short
        in_time lost got fits response few _
        (read_answers-replies net.alloc roomy (mem_copy blank 0 packet) net.fuel front
          (response.more ++ buffer.0) rs (length rs) 0 (answers_at (l ∷ ls)) names replies buffer.1
          (sym size) refl)

  -- The loop over the answers, on a list that is empty.
  pub store_answers-response :
      (old back : List Bytes)
      → length old ≡ length rs
      → store_answers (mem_copy blank 0 packet) (length rs) (ip_info 0 (old ++ back)) (
          records_of net.alloc roomy
            (mem_copy blank 0 packet)
            net.fuel
            0
            (answers_at (l ∷ ls))
            rs
            names)
        ≡ ok (ip_info (length rs) (addresses rs ++ back))
  store_answers-response old back eo = rw (
    store_answers-replies net.alloc roomy (mem_copy blank 0 packet) net.fuel front
        (response.more ++ buffer.0) [] old back rs (length rs) 0 0 (answers_at (l ∷ ls)) names
        replies buffer.1 (sym size) refl eo refl,
    zero_add,
  )

module _ (net : Net) (packet l : Bytes) (ls : List Bytes) (rs : List Reply) (k : ℕ)
    (server : net.has_server ≡ true) (socket : net.has_socket ≡ true)
    (labels : All IsLabel (l ∷ ls)) (short : length (encode (l ∷ ls)) + 17 ≤ 2048) (in_time : k < 3)
    (lost : (j : ℕ) → 0 ≤ j → j < k → Lost (net.attempts j)) (got : Got (net.attempts k) packet)
    (fits : length packet ≤ 2048) (response : Response (l ∷ ls) rs packet) (few : length rs ≤ 20)
    (replies : All IsReply rs) (roomy : IsRoomy net.alloc)
    (names : Readable net.alloc roomy
      (mem_copy zero_buf 0 packet)
      net.fuel
      0
      (answers_at (l ∷ ls))
      rs) where
  pub ask-response :
      ask net (join l ls)
      ≡ ok (
        answered (mem_copy zero_buf 0 packet) (length rs) (
            records_of net.alloc roomy
              (mem_copy zero_buf 0 packet)
              net.fuel
              0
              (answers_at (l ∷ ls))
              rs
              names),
        join l ls ++ b'.' ∷ [],
      )
  unfolding ask
  ask-response =
      ask_with-response zero_buf net packet l ls rs k server socket labels
        (rw length-zero_buf short) in_time lost got (rw length-zero_buf fits) response few replies
        roomy names
