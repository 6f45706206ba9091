-- ===== src/Dns/Host/Dots.antt =====
-- socket_gethostbyname on a host name that earlier queries have changed.
use personal_journal.Base.{
  ℕ, ◌+◌, arith, suc, [], ◌%◌, ◌/◌, ◌≤◌, ◌≡◌, refl, sym, ap, ◌∙◌, inl, inr, List, ◌∷◌, ◌++◌,
  Bool-cases, length, All, Outcome, ok, ◌>>=◌, bind_assoc, bind_ok, binds-cong,
}
use personal_journal.Dns.Memory.{Bytes}
use personal_journal.Dns.Name.Labels.{join, encode, IsLabel}
use personal_journal.Dns.Name.Format.{dots}
use personal_journal.Dns.Packet.{prepare_dns_query_packet, send_packlen}
use personal_journal.Dns.Packet.Form.{query, prepare-eq, prepare-dots, send_packlen-query}
use personal_journal.Dns.Answers.{IpInfo, answer_count, read_answers}
use personal_journal.Dns.Receive.{exchange}
use personal_journal.Dns.Host.{Net, zero_buf, ask, ask_with, take_answers, socket_gethostbyname}
use personal_journal.Dns.Host.Attempts.{length-zero_buf}

abbrev pub without_host {ℓ} : {A : Type ℓ} {B : Type ℓ} → Outcome (A × B) → Outcome A
without_host m = m >>= λ r. ok r.0

taken :
    (net : Net) (host : Bytes) (info : IpInfo)
    → without_host (socket_gethostbyname net host info)
      ≡ (without_host (ask net host) >>= take_answers info)
unfolding socket_gethostbyname
taken net host info =
    binds-cong (ask net host) _ _ _ _
      (λ r. bind_assoc (take_answers info r.0) _ _ ∙ bind_ok (take_answers info r.0))

module _ (net : Net) (l : Bytes) (ls : List Bytes) (k : ℕ) (labels : All IsLabel (l ∷ ls)) where
  ask_with-dots :
      (blank : Bytes)
      → length (encode (l ∷ ls)) + k + 17 ≤ length blank
      → without_host (ask_with blank net (join l ls ++ dots k))
        ≡ without_host (ask_with blank net (join l ls))
  unfolding ask_with
  ask_with-dots blank fits = elim (Bool-cases net.has_server) [
    | inr e ↦ rw e refl
    | inl e ↦ elim (Bool-cases net.has_socket) [
      | inr e' ↦ rw (e, e') refl
      | inl e' ↦
          rw (e, e', with_dots.1, plain.1, size with_dots.0, size plain.0)
            (binds-cong (exchange net.attempts 3 0 blank) _ _ _ _ (λ buf.
              binds-cong (answer_count buf) _ _ _ _ (λ n.
                binds-cong (read_answers net.alloc buf net.fuel n 0 (length q)) _ _ _ _
                  (λ rs. refl))))
    ]
  ]
    where
      q : Bytes
      q = query (net.pid % 65536 % 256) (net.pid % 65536 / 256 % 256) (l ∷ ls)

      with_dots :
          (rest : Bytes) × (prepare_dns_query_packet net.pid blank (join l ls ++ dots k)
            ≡ (q ++ rest, join l ls ++ dots (suc k)))
      with_dots = prepare-dots net.pid blank l ls k labels fits

      plain :
          (rest : Bytes) × (prepare_dns_query_packet net.pid blank (join l ls)
            ≡ (q ++ rest, join l ls ++ b'.' ∷ []))
      plain = prepare-eq net.pid blank l ls labels (omega arith)

      size : (rest : Bytes) → send_packlen (q ++ rest) ≡ length q
      size rest =
          send_packlen-query (net.pid % 65536 % 256) (net.pid % 65536 / 256 % 256) (l ∷ ls) rest
            labels

  -- What a query comes to does not depend on the dots that earlier ones have appended: for a name of
  -- labels that are nonempty, shorter than 192 and free of dots, with any number of dots behind it
  -- that fit into the packet as zeros, socket_gethostbyname leaves the same list, result and mutex as
  -- for the name alone, or fails as it does, whatever the network, the packet and the list.
  pub socket_gethostbyname-dots :
      (info : IpInfo)
      → length (encode (l ∷ ls)) + k + 17 ≤ 2048
      → without_host (socket_gethostbyname net (join l ls ++ dots k) info)
        ≡ without_host (socket_gethostbyname net (join l ls) info)
  unfolding ask
  socket_gethostbyname-dots info fits =
      taken net (join l ls ++ dots k) info
      ∙ ap (λ m. m >>= take_answers info) (ask_with-dots zero_buf (rw length-zero_buf fits))
      ∙ sym (taken net (join l ls) info)
