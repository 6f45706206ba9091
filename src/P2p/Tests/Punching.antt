-- ===== src/P2p/Tests/Punching.antt =====
-- The peer.
use personal_journal.Base.{
  ℕ, zero, suc, ◌≡◌, ◌<◌, refl, ap, true, false, some, none, [], ◌∷◌, arith, ok,
}
use personal_journal.P2p.Transfer.{get_string_network_type, symmetric_nat, unknown}
use personal_journal.P2p.Peer.{Attempt, no_trace, connect_peer, punch_hole}
use personal_journal.P2p.Peer.Punch.{
  Accounts, IsDescriptor, connect_peer-Accounts, punch_hole-closes,
}
use personal_journal.P2p.Client.{Calls}
use personal_journal.P2p.Client.Release.{IsSmooth}

five_is_symmetric : get_string_network_type 5 ≡ ok symmetric_nat
unfolding get_string_network_type
five_is_symmetric = refl

minus_one_is_unknown : get_string_network_type 4294967295 ≡ ok unknown
unfolding get_string_network_type
minus_one_is_unknown = refl

-- The first attempt is refused, the second reaches the peer.
abbrev refused : Attempt
refused = record {
  sock = some 5;
  options_set = true;
  bound = true;
  connected = false;
  timed_out = false;
}

abbrev second_time : ℕ → Attempt
second_time zero = refused
second_time (suc n) = record refused { sock = some 6; connected = true }

positive_of_some : (a s : ℕ) → 0 < a → some a ≡ some s → 0 < s
positive_of_some a s pos e =
    let same : a ≡ s = ap (λ o. elim o [ none ↦ a | some x ↦ x ]) e in omega (arith, pos, same)

descriptors : (j : ℕ) → IsDescriptor (second_time j)
descriptors zero s e = positive_of_some 5 s (omega arith) e
descriptors (suc n) s e = positive_of_some 6 s (omega arith) e

connect_peer-Accounts_example : Accounts second_time 9 0 no_trace (connect_peer second_time)
connect_peer-Accounts_example = connect_peer-Accounts second_time descriptors

punch_hole-closes_example : (punch_hole second_time false).1.closed ≡ 5 ∷ 6 ∷ []
punch_hole-closes_example = punch_hole-closes second_time false descriptors

abbrev calls : Calls
calls = record {
  device_sn = 1111;
  allocated = true;
  base_made = true;
  listener = some 5;
  listener_options_set = true;
  sock = some 6;
  options_set = true;
  bound = true;
  connected = true;
  bev_made = true;
  ping_event_made = true;
  user_event_made = true;
  dispatched = true;
}

smooth : IsSmooth calls 5 6
smooth = record {
  allocated = refl;
  base_made = refl;
  listener = refl;
  listener_options_set = refl;
  sock = refl;
  options_set = refl;
  bound = refl;
  connected = refl;
  bev_made = refl;
  ping_event_made = refl;
  user_event_made = refl;
}

-- The connection is refused.
abbrev unconnected : Calls
unconnected = record calls { connected = false }
