-- ===== src/P2p/Log/Session.antt =====
-- The life of the log in server and peer: configure_log, calls of logging, destroy_log.
use personal_journal.Base.{
  ℕ, ◌<◌, ◌≤◌, ◌≡◌, refl, ap, ◌∙◌, Bool, true, false, some, not, ◌&&◌, List, [], ◌∷◌, ◌++◌, ◌^◌,
  arith, if◌then◌else◌, Outcome, ok, fault, aborted, out_of_fuel, ◌>>=◌,
}
use personal_journal.Dns.Memory.{Bytes}
use personal_journal.P2p.Log.{
  Log, null, opened, closed, file, Call, configure_log, destroy_log, clamp, int_ltb, initial_log,
}
use personal_journal.P2p.Log.Runs.{
  logging_all, sink_text, lines_for, line_of, Fits, AllFit, logging_all-lines,
}

-- What the log is once its file has been opened, or not.
abbrev pub configured : (lvl : ℕ) → (fopen use_console : Bool) → Log
configured lvl fopen use_console = record initial_log {
  log_level = clamp lvl;
  enable_console = use_console;
  log_stream = if fopen then opened else null;
}

abbrev pub rest_of_session : List (Bytes × Call) → Log × ℕ → Outcome (Log × ℕ)
rest_of_session calls (log, result) =
    logging_all calls log >>= λ log'. destroy_log log' >>= λ log''. ok (log'', result)

abbrev pub session :
    Bytes
    → (lvl : ℕ) → (name : Bytes) → (fopen use_console : Bool) → Call
    → List (Bytes × Call)
    → Outcome (Log × ℕ)
session buffer lvl name fopen use_console report calls =
    configure_log buffer lvl (some name) fopen use_console report initial_log
    >>= rest_of_session calls

clamp-le : (lvl : ℕ) → lvl < 2 ^ 32 → clamp lvl ≤ 4
unfolding clamp
clamp-le lvl h = ground arith

-- Without a file no call goes to it.
goes_nowhere :
    (b : Bool) (t rest : Bytes) → rest ≡ [] → (if b && false then t ++ rest else rest) ≡ []
goes_nowhere true t rest e = e
goes_nowhere false t rest e = e

lines_for-null :
    (log : Log) (calls : List (Bytes × Call))
    → log.log_stream ≡ null
    → lines_for file log calls ≡ []
lines_for-null log [] e = refl
lines_for-null log ((buffer, c) ∷ calls) e = rw e (
    goes_nowhere (not (int_ltb c.lvl log.log_level)) (line_of c) (lines_for file log calls)
      (lines_for-null log calls e))

destroy_log-null : (log : Log) → log.log_stream ≡ null → destroy_log log ≡ ok log
unfolding destroy_log
destroy_log-null log n = ground arith

abbrev with_one : Log → Outcome (Log × ℕ)
with_one log = ok (log, 1)

-- A report of the failure, and then the calls.
after_report :
    (m : Outcome Log) (calls : List (Bytes × Call)) (end : Log)
    → (m >>= λ log. logging_all calls log) ≡ ok end
    → end.log_stream ≡ null
    → ((m >>= with_one) >>= rest_of_session calls) ≡ ok (end, 1)
after_report (ok log) calls end e n = rw e (ap (λ m. m >>= with_one) (destroy_log-null end n))
after_report fault calls end e n = cc
after_report aborted calls end e n = cc
after_report out_of_fuel calls end e n = cc

-- The two ways in which the log of a program can live, when all calls are of known levels and have
-- lines that fit, and the level is one of DEBUG to ERROR afterwards. With a file that can be opened
-- configure_log returns 0, and the file gets the lines of the calls at or above this level in their
-- order, and is closed at the end. With one that cannot be opened it returns 1, and no file is
-- written to; in both cases nothing fails.
pub session-outcome :
    (buffer : Bytes) (lvl : ℕ) (name : Bytes) (fopen use_console : Bool) (report : Call)
    (calls : List (Bytes × Call))
    → lvl < 2 ^ 32
    → Fits buffer report
    → AllFit calls
    → (log : Log) × (session buffer lvl name fopen use_console report calls
        ≡ ok (log, if fopen then 0 else 1))
      × (log.log_level ≡ clamp lvl)
      × (clamp lvl ≤ 4)
      × (log.log_stream ≡ (if fopen then closed else null))
      × (sink_text file log.out
          ≡ (if fopen then lines_for file (configured lvl true use_console) calls else []))
unfolding configure_log destroy_log
session-outcome buffer lvl name true use_console report calls h f a =
    let log = configured lvl true use_console in
    let (out, result, text) = logging_all-lines file calls log a tt in
    (
      record log { log_stream = closed; out = out },
      rw result refl,
      refl,
      clamp-le lvl h,
      refl,
      text,
    )
session-outcome buffer lvl name false use_console report calls h f a =
    let log = configured lvl false use_console in
    let (out, result, text) = logging_all-lines file ((buffer, report) ∷ calls) log (f, a) tt in
    (
      record log { out = out },
      after_report _ calls (record log { out = out }) result refl,
      refl,
      clamp-le lvl h,
      refl,
      text ∙ lines_for-null log ((buffer, report) ∷ calls) refl,
    )
