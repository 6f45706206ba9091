-- ===== src/P2p/Log.antt =====
-- log.c and log.h of p2p_transfer_server (the peer has the same two files): the logger.
pub mod Lines
pub mod Overflow
pub mod Runs
pub mod Session
use personal_journal.Base.{
  ℕ, zero, suc, ◌+◌, ◌-◌, ◌/◌, ◌%◌, ◌^◌, ◌≡◌, Bool, true, false, Option, none, some, List, [], ◌∷◌,
  ◌++◌, ltb, leb, ◌==◌, if◌then◌else◌, length, get_elem?, set, take, replicate, codes, Outcome, ok,
  fault, ◌>>=◌,
}
use personal_journal.Dns.Memory.{Bytes, c_string, mem_copy}

-- `enum _log_level`; a level is the 32 bits of an int.
abbrev pub en_print_debug : ℕ
en_print_debug = 0

abbrev pub en_print_info : ℕ
en_print_info = 1

abbrev pub en_print_warn : ℕ
en_print_warn = 3

abbrev pub en_print_error : ℕ
en_print_error = 4

abbrev pub level_names : List Bytes
level_names =
    codes "DEBUG"
    ∷ codes "INFO"
    ∷ codes "NOTICE"
    ∷ codes "WARN"
    ∷ codes "ERROR"
    ∷ codes "FATAL"
    ∷ []

-- `a < b` on ints.
abbrev pub int_ltb : (a b : ℕ) → Bool
int_ltb a b = ltb ((a + 2 ^ 31) % 2 ^ 32) ((b + 2 ^ 31) % 2 ^ 32)

-- `log_stream`: NULL, an open file, or one that has been closed.
pub data Stream : Type 0 where
  null opened closed : Stream

pub data Sink : Type 0 where
  stdout stderr file : Sink

-- The static variables, and the texts put out so far, the latest first.
pub record Log : Type 0 where
  pub log_level : ℕ
  pub enable_console : Bool
  pub log_stream : Stream
  pub out : List (Sink × Bytes)

abbrev pub initial_log : Log
initial_log = record {
  log_level = en_print_info;
  enable_console = true;
  log_stream = null;
  out = [];
}

-- `buffer[i] = c`, and a text written from `ptr` on, in the 512 bytes of the buffer.
unfoldable pub put : Bytes → (i c : ℕ) → Outcome Bytes
put buffer i c = if ltb i (length buffer) then ok (set buffer i c) else fault

unfoldable pub write_text : Bytes → (ptr : ℕ) → Bytes → Outcome Bytes
write_text buffer ptr text =
    if leb (ptr + length text) (length buffer) then ok (mem_copy buffer ptr text) else fault

-- What snprintf and vsnprintf store of a formatted text, at `ptr` with `cap` = 512 - ptr: as much as
-- there is room for, and a zero. A negative `cap` is a huge size_t, which bounds nothing.
unfoldable pub print_bounded : Bytes → (ptr cap : ℕ) → Bytes → Outcome Bytes
print_bounded buffer ptr zero text = ok buffer
print_bounded buffer ptr (suc n) text = write_text buffer ptr (take n text ++ 0 ∷ [])

unfoldable pub print_at : Bytes → (ptr : ℕ) → Bytes → Outcome Bytes
print_at buffer ptr text =
    if ltb 512 ptr
    then write_text buffer ptr (text ++ 0 ∷ [])
    else print_bounded buffer ptr (512 - ptr) text

-- strftime: the number of bytes stored, or 0 if the text and its zero do not fit.
unfoldable pub format_time : Bytes → (stamp : Bytes) → Outcome (Bytes × ℕ)
format_time buffer stamp =
    if ltb (length stamp) 512
    then (print_at buffer 0 stamp >>= λ buffer'. ok (buffer', length stamp))
    else ok (buffer, 0)

-- `%d` of a number of at most so many digits.
abbrev pub decimal : (digits n : ℕ) → Bytes
decimal zero n = []
decimal (suc k) n =
    let front = decimal k (n / 10) in
    if ltb n 10 then (48 + n) ∷ [] else front ++ (48 + n % 10) ∷ []

-- `%6s`.
abbrev pub pad6 : Bytes → Bytes
pad6 s = replicate (6 - length s) 32 ++ s

-- A call of XL_DEBUG: the text of the local time as "[%Y-%m-%d %H:%M:%S]", the arguments, and the
-- message that its format makes.
pub record Call : Type 0 where
  pub stamp : Bytes
  pub lvl : ℕ
  pub source_file : Bytes
  pub func : Bytes
  pub line : ℕ
  pub message : Bytes

-- "[%6s][%s:%d][%s] ".
unfoldable pub tag : Call → (name : Bytes) → Bytes
tag c name =
    91
    ∷ (pad6 name
        ++ 93
          ∷ 91
          ∷ (c.source_file ++ 58 ∷ (decimal 10 c.line ++ 93 ∷ 91 ∷ (c.func ++ 93 ∷ 32 ∷ []))))

-- The buffer after its last two stores, from what lay in it.
unfoldable pub compose : Bytes → Call → (name : Bytes) → Outcome Bytes
compose buffer c name = format_time buffer c.stamp >>= λ (buffer1, size).
    print_at buffer1 size (tag c name) >>= λ buffer2.
    print_at buffer2 (size + length (tag c name)) c.message >>= λ buffer3.
    put buffer3 (size + length (tag c name) + length c.message) 10 >>= λ buffer4.
    put buffer4 (size + length (tag c name) + length c.message + 1) 0

-- The two blocks at the end, with the C string in the buffer; a closed stream must not be used.
abbrev pub console_out :
    (enable_console below_warn : Bool) → Bytes → List (Sink × Bytes) → List (Sink × Bytes)
console_out false below_warn text out = out
console_out true true text out = (stdout, text) ∷ out
console_out true false text out = (stderr, text) ∷ out

abbrev pub stream_out : Stream → Bytes → List (Sink × Bytes) → Outcome (List (Sink × Bytes))
stream_out null text out = ok out
stream_out opened text out = ok ((file, text) ∷ out)
stream_out closed text out = fault

unfoldable pub put_out : (lvl : ℕ) → Bytes → Log → Outcome Log
put_out lvl text log =
    stream_out log.log_stream text
      (console_out log.enable_console (int_ltb lvl en_print_warn) text log.out)
    >>= λ out. ok (record log { out = out })

-- logging, with what lay in `buffer`.
unfoldable pub logging : Bytes → Call → Log → Outcome Log
logging buffer c log =
    if int_ltb c.lvl log.log_level then ok log else elim (get_elem? level_names c.lvl) [
      | none ↦ fault
      | some name ↦ compose buffer c name >>= λ buffer'. put_out c.lvl (c_string buffer') log
    ]

-- `if (lvl > EN_PRINT_ERROR) … else if (lvl < EN_PRINT_DEBUG) …`.
unfoldable pub clamp : ℕ → ℕ
clamp lvl =
    if int_ltb en_print_error lvl
    then en_print_error
    else if int_ltb lvl en_print_debug
    then en_print_debug
    else lvl

-- configure_log, given the file's name, whether fopen succeeds, and the call that reports a failure:
-- the variables and the result.
unfoldable pub configure_log :
    Bytes
    → (lvl : ℕ) → (name : Option Bytes) → (fopen use_console : Bool) → Call
    → Log
    → Outcome (Log × ℕ)
configure_log buffer lvl none fopen use_console report log =
    ok (record log { log_level = clamp lvl; enable_console = use_console }, 0)
configure_log buffer lvl (some name) true use_console report log =
    ok (record log { log_level = clamp lvl; enable_console = use_console; log_stream = opened }, 0)
configure_log buffer lvl (some name) false use_console report log =
    logging buffer report (record log { log_level = clamp lvl; enable_console = use_console })
    >>= λ log'. ok (log', 1)

-- destroy_log closes the file and keeps the pointer.
unfoldable pub destroy_log : Log → Outcome Log
destroy_log log = elim log.log_stream [
  | null ↦ ok log
  | opened ↦ ok (record log { log_stream = closed })
  | closed ↦ fault
]
