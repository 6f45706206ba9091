-- ===== src/Dns/Resolver/Size.antt =====
-- getaddrinfo_v6 on any argument: the list that it leaves, given what a run of th_gethostbyname can
-- come to.
use personal_journal.Base.{◌<◌, ◌≤◌, ◌≡◌, Option, none, some, List, length, Outcome, ok}
use personal_journal.Dns.Memory.{Bytes}
use personal_journal.Dns.Answers.{IpInfo}
use personal_journal.Dns.Host.{Ret, success, failure}
use personal_journal.Dns.Threads.{State, Reach, start, returned}

-- The list has twenty slots, `size` of them count, and a result of 0 means that there are some.
abbrev pub IsResult : IpInfo × Ret → Type 0
IsResult r =
    (length r.0.v6_addr ≡ 20)
    × (r.0.size ≤ 20)
    × elim r.1 [ success ↦ 0 < r.0.size | failure ↦ r.0.size ≡ 0 ]

-- th_gethostbyname on an empty list ends in a state of Threads.antt, with its counters at 3 and 0.
abbrev pub IsRun : (IpInfo → Outcome (IpInfo × Ret)) → Type 0
IsRun th =
    (slots : List Bytes) (info : IpInfo) (ret : Ret)
    → th (record { size = 0; v6_addr = slots }) ≡ ok (info, ret)
    → (s : State) × Reach (start 3 0 slots) s × (s.waiter ≡ returned ret) × (s.info ≡ info)

-- What getaddrinfo_v6 hands back for two arguments that are not NULL.
abbrev pub IsAnswer : Option IpInfo × Ret → Type 0
IsAnswer r = elim r.0 [ none ↦ ⊥ | some info ↦ IsResult (info, r.1) ]
