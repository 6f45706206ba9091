-- ===== src/Dns/Name/Loops.antt =====
-- ReadName ends on packets that hold no pointer.
use personal_journal.Base.{ℕ, ◌+◌, ◌<◌, ◌≤◌, ◌≡◌, length}
use personal_journal.Dns.Memory.{Bytes}
use personal_journal.Dns.Name.{Round, finished, no_memory, next}

-- The inner conversion loop stays inside the block and keeps its size.
abbrev InBlock : ℕ → ℕ → Bytes × ℕ → Type 0
InBlock size i b = (length b.0 ≡ size) × (i ≤ b.1) × (b.1 < size)

abbrev Anything {ℓ} : {A : Type ℓ} → A → Type 0
Anything a = Unit

-- After a round over a byte that is no pointer the reader stands one further, inside the packet.
abbrev Onward : ℕ → ℕ → Round → Type 0
Onward size i finished = Unit
Onward size i (no_memory count) = Unit
Onward size i (next s') = (s'.reader ≡ i + 1) × (i < size)
