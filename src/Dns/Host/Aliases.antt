-- ===== src/Dns/Host/Aliases.antt =====
-- socket_gethostbyname on a response with other records among the addresses.
use personal_journal.Base.{ℕ, ◌+◌, ◌<◌, ◌≤◌, ◌≡◌, true, List, ◌∷◌, length, All}
use personal_journal.Dns.Memory.{Bytes, mem_copy}
use personal_journal.Dns.Name.Labels.{encode, IsLabel}
use personal_journal.Dns.Answers.Response.{IsRoomy}
use personal_journal.Dns.Answers.Mixed.{Answer, IsAnswer, wires_of, AllNames}
use personal_journal.Dns.Host.{Net, zero_buf}
use personal_journal.Dns.Host.Attempts.{Lost, Got, length-zero_buf}
use personal_journal.Dns.Host.Reception.{Carries, answers_at, front_of}

module _ (net : Net) (packet l : Bytes) (ls : List Bytes) (xs : List Answer) (k : ℕ)
    (server : net.has_server ≡ true) (socket : net.has_socket ≡ true)
    (labels : All IsLabel (l ∷ ls)) (short : length (encode (l ∷ ls)) + 17 ≤ 2048) (in_time : k < 3)
    (lost : (j : ℕ) → 0 ≤ j → j < k → Lost (net.attempts j)) (got : Got (net.attempts k) packet)
    (fits : length packet ≤ 2048) (response : Carries (l ∷ ls) (length xs) (wires_of xs) packet)
    (few : length xs ≤ 20) (answers : All IsAnswer xs) (roomy : IsRoomy net.alloc)
    (names : AllNames net.alloc roomy
      (mem_copy zero_buf 0 packet)
      net.fuel
      0
      (answers_at (l ∷ ls))
      xs) where
  within : length packet ≤ length zero_buf
  within = rw length-zero_buf fits

  front : Bytes
  front = front_of zero_buf packet (wires_of xs) (l ∷ ls) (length xs) within response
