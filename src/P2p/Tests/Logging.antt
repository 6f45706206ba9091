-- ===== src/P2p/Tests/Logging.antt =====
-- Examples for the logger.
use personal_journal.Base.{
  ℕ, ◌+◌, ◌<◌, ◌≤◌, ◌≡◌, refl, ◌⊎◌, true, List, [], ◌∷◌, ◌++◌, some, arith, replicate, codes, ok,
  fault,
}
use personal_journal.Dns.Memory.{Bytes}
use personal_journal.P2p.Log.{
  Log, opened, closed, Sink, file, Call, tag, compose, configure_log, clamp, initial_log,
}
use personal_journal.P2p.Log.Lines.{line_text, line_size}
use personal_journal.P2p.Log.Overflow.{compose-bounds}
use personal_journal.P2p.Log.Session.{session, session-outcome, configured}
use personal_journal.P2p.Log.Runs.{
  logging_all, sink_text, lines_for, line_of, Fits, logging_all-lines,
}

abbrev call : (lvl : ℕ) → Bytes → Call
call lvl message = record {
  stamp = codes "[2014-05-01 12:00:00]";
  lvl = lvl;
  source_file = codes "p2p.c";
  func = codes "main";
  line = 343;
  message = message;
}

tag_text : tag (call 3 []) (codes "WARN") ≡ codes "[  WARN][p2p.c:343][main] "
unfolding tag
tag_text = refl

abbrev buffer : Bytes
buffer = replicate 512 7

-- A level above ERROR is lowered, and the log is open.
abbrev ready : Log
ready = record { log_level = 1; enable_console = true; log_stream = opened; out = [] }

opened_log : configure_log buffer 1 (some []) true true (call 4 []) initial_log ≡ ok (ready, 0)
unfolding configure_log clamp
opened_log = refl

abbrev calls : List (Bytes × Call)
calls = (buffer, call 0 (codes "a")) ∷ (buffer, call 3 (codes "bc")) ∷ []

first-Fits : Fits buffer (call 0 (codes "a"))
unfolding tag
first-Fits = record { whole = refl; level = omega arith; size = omega arith; texts = ground arith }

second-Fits : Fits buffer (call 3 (codes "bc"))
unfolding tag
second-Fits = record { whole = refl; level = omega arith; size = omega arith; texts = ground arith }

report-Fits : Fits buffer (call 4 (codes "no"))
unfolding tag
report-Fits = record { whole = refl; level = omega arith; size = omega arith; texts = ground arith }

logging_all-lines_example :
    (out : List (Sink × Bytes)) × (logging_all calls ready ≡ ok (record ready { out = out }))
    × (sink_text file out ≡ line_of (call 3 (codes "bc")) ++ [])
logging_all-lines_example = logging_all-lines file calls ready (first-Fits, (second-Fits, tt)) tt

compose-bounds_example :
    ((r : Bytes) × (line_size (call 3 (replicate 465 46)) (codes "WARN") + 2 ≤ 512)
      × (compose buffer (call 3 (replicate 465 46)) (codes "WARN")
          ≡ ok (line_text (call 3 (replicate 465 46)) (codes "WARN") ++ 10 ∷ 0 ∷ r)))
    ⊎ ((512 < line_size (call 3 (replicate 465 46)) (codes "WARN") + 2)
        × (compose buffer (call 3 (replicate 465 46)) (codes "WARN") ≡ fault))
compose-bounds_example =
    compose-bounds buffer (call 3 (replicate 465 46)) (codes "WARN") refl (omega arith)

session-outcome_example :
    (log : Log) × (session buffer 9 (codes "p2p.log") true true (call 4 (codes "no")) calls
      ≡ ok (log, 0))
    × (log.log_level ≡ clamp 9)
    × (clamp 9 ≤ 4)
    × (log.log_stream ≡ closed)
    × (sink_text file log.out ≡ lines_for file (configured 9 true true) calls)
session-outcome_example =
    session-outcome buffer 9 (codes "p2p.log") true true (call 4 (codes "no")) calls (omega arith)
      report-Fits (first-Fits, (second-Fits, tt))
