-- ===== src/P2p/Log/Runs.antt =====
-- Many calls of logging: what ends up in the file and on the console.
use personal_journal.Base.{
  ℕ, zero, suc, ◌+◌, ◌<◌, ◌≤◌, ◌≡◌, refl, sym, ap, ◌∙◌, inl, inr, Bool, true, false, not, ◌&&◌,
  ◌||◌, some, List, [], ◌∷◌, ◌++◌, append-nil, append_assoc, arith, Bool-cases, if◌then◌else◌,
  length, get_elem?, get_or, All, Outcome, ok, ◌>>=◌,
}
use personal_journal.Dns.Memory.{Bytes, c_string-append, IsNonzero}
use personal_journal.P2p.Log.{
  Log, Stream, null, opened, closed, Sink, stdout, stderr, file, console_out, stream_out, Call,
  put_out, logging, int_ltb, level_names, en_print_warn,
}
use personal_journal.P2p.Log.Lines.{line_text, line_size, compose-fits}

-- Calls one after the other, each with what lies in its buffer.
abbrev pub logging_all : List (Bytes × Call) → Log → Outcome Log
logging_all [] log = ok log
logging_all ((buffer, c) ∷ calls) log = logging buffer c log >>= λ log'. logging_all calls log'

-- The line of a call.
abbrev pub name_of : Call → Bytes
name_of c = get_or level_names c.lvl []

abbrev pub line_of : Call → Bytes
line_of c = line_text c (name_of c) ++ 10 ∷ []

-- Where a call goes: the file if there is one, and the console if it is on, to stderr from WARN on.
abbrev pub to_console : Sink → (enable_console below_warn : Bool) → Bool
to_console stdout true true = true
to_console stderr true false = true
to_console _ _ _ = false

abbrev pub to_file : Sink → Stream → Bool
to_file file opened = true
to_file _ _ = false

abbrev pub goes : Sink → Log → Call → Bool
goes k log c =
    not (int_ltb c.lvl log.log_level)
    && (to_console k log.enable_console (int_ltb c.lvl en_print_warn) || to_file k log.log_stream)

abbrev pub lines_for : Sink → Log → List (Bytes × Call) → Bytes
lines_for k log [] = []
lines_for k log ((buffer, c) ∷ calls) =
    let rest = lines_for k log calls in if goes k log c then line_of c ++ rest else rest

-- What has been put out to a sink, first to last.
abbrev pub same_sink : Sink → Sink → Bool
same_sink stdout stdout = true
same_sink stderr stderr = true
same_sink file file = true
same_sink _ _ = false

abbrev pub sink_text : Sink → List (Sink × Bytes) → Bytes
sink_text k [] = []
sink_text k ((j, t) ∷ out) =
    let before = sink_text k out in if same_sink k j then before ++ t else before

-- A call of a known level whose line has no zero and fits, and a buffer of 512 bytes.
pub record Fits (buffer : Bytes) (c : Call) : Type 0 where
  pub whole : length buffer ≡ 512
  pub level : c.lvl < 6
  pub size : line_size c (name_of c) + 2 ≤ 512
  pub texts : All IsNonzero (line_text c (name_of c))

abbrev pub AllFit : List (Bytes × Call) → Type 0
AllFit [] = Unit
AllFit ((buffer, c) ∷ calls) = Fits buffer c × AllFit calls

abbrev pub IsUsable : Stream → Type 0
IsUsable null = Unit
IsUsable opened = Unit
IsUsable closed = ⊥

name_known : (n : ℕ) → n < 6 → get_elem? level_names n ≡ some (get_or level_names n [])
name_known zero h = refl
name_known (suc zero) h = refl
name_known (suc (suc zero)) h = refl
name_known (suc (suc (suc zero))) h = refl
name_known (suc (suc (suc (suc zero)))) h = refl
name_known (suc (suc (suc (suc (suc zero))))) h = refl
name_known (suc (suc (suc (suc (suc (suc n)))))) h = absurd (omega arith)

-- A call whose level is high enough puts its line out.
logging-line :
    (buffer : Bytes) (c : Call) (log : Log)
    → Fits buffer c
    → int_ltb c.lvl log.log_level ≡ false
    → logging buffer c log ≡ put_out c.lvl (line_of c) log
unfolding logging
logging-line buffer c log f e =
    let (r, result) = compose-fits buffer c (name_of c) f.whole f.size in
    rw (e, name_known c.lvl f.level, logging, result)
      (ap (λ t. put_out c.lvl t log)
        (c_string-append (line_text c (name_of c)) (10 ∷ 0 ∷ r) f.texts))

-- One call, for each sink.
record Puts (k : Sink) (buffer : Bytes) (c : Call) (log : Log) : Type 0 where
  out : List (Sink × Bytes)
  result : logging buffer c log ≡ ok (record log { out = out })
  text : sink_text k out ≡ sink_text k log.out ++ (if goes k log c then line_of c else [])

console_out-text :
    (k : Sink) (b w : Bool) (t : Bytes) (out : List (Sink × Bytes))
    → sink_text k (console_out b w t out) ≡ sink_text k out ++ (if to_console k b w then t else [])
console_out-text stdout true true t out = refl
console_out-text stdout true false t out = sym (append-nil (sink_text stdout out))
console_out-text stdout false w t out = sym (append-nil (sink_text stdout out))
console_out-text stderr true true t out = sym (append-nil (sink_text stderr out))
console_out-text stderr true false t out = refl
console_out-text stderr false w t out = sym (append-nil (sink_text stderr out))
console_out-text file true true t out = sym (append-nil (sink_text file out))
console_out-text file true false t out = sym (append-nil (sink_text file out))
console_out-text file false w t out = sym (append-nil (sink_text file out))

stream_out-text :
    (k : Sink) (st : Stream) (t : Bytes) (out : List (Sink × Bytes))
    → IsUsable st
    → (o : List (Sink × Bytes)) × (stream_out st t out ≡ ok o)
      × (sink_text k o ≡ sink_text k out ++ (if to_file k st then t else []))
stream_out-text k closed t out u = absurd u
stream_out-text stdout null t out u = (out, refl, sym (append-nil (sink_text stdout out)))
stream_out-text stderr null t out u = (out, refl, sym (append-nil (sink_text stderr out)))
stream_out-text file null t out u = (out, refl, sym (append-nil (sink_text file out)))
stream_out-text stdout opened t out u =
    ((file, t) ∷ out, refl, sym (append-nil (sink_text stdout out)))
stream_out-text stderr opened t out u =
    ((file, t) ∷ out, refl, sym (append-nil (sink_text stderr out)))
stream_out-text file opened t out u = ((file, t) ∷ out, refl, refl)

-- A sink is the console's or the file.
one_of_two :
    (k : Sink) (b w : Bool) (st : Stream) (t : Bytes)
    → (if to_console k b w then t else []) ++ (if to_file k st then t else [])
      ≡ (if to_console k b w || to_file k st then t else [])
one_of_two stdout true true st t = append-nil t
one_of_two stdout true false st t = refl
one_of_two stdout false w st t = refl
one_of_two stderr true true st t = refl
one_of_two stderr true false st t = append-nil t
one_of_two stderr false w st t = refl
one_of_two file true true st t = refl
one_of_two file true false st t = refl
one_of_two file false w st t = refl

logging-Puts :
    (k : Sink) (buffer : Bytes) (c : Call) (log : Log)
    → Fits buffer c
    → IsUsable log.log_stream
    → Puts k buffer c log
unfolding logging put_out
logging-Puts k buffer c log f u = elim (Bool-cases (int_ltb c.lvl log.log_level)) [
  | inl e ↦ record {
    out = log.out;
    result = rw (e, logging) refl;
    text = rw e (sym (append-nil (sink_text k log.out)));
  }
  | inr e ↦
      let w = int_ltb c.lvl en_print_warn in
      let t = line_of c in
      let here = console_out log.enable_console w t log.out in
      let (o, result, text) = stream_out-text k log.log_stream t here u in
      record {
        out = o;
        result = logging-line buffer c log f e ∙ rw (result, put_out) refl;
        text = rw e (
            text
            ∙ (ap (λ l. l ++ (if to_file k log.log_stream then t else []))
                  (console_out-text k log.enable_console w t log.out)
                ∙ (append_assoc (sink_text k log.out) _ _
                    ∙ ap (λ l. sink_text k log.out ++ l)
                        (one_of_two k log.enable_console w log.log_stream t))));
      }
]

if-append :
    (b : Bool) (t rest : Bytes) → (if b then t else []) ++ rest ≡ (if b then t ++ rest else rest)
if-append true t rest = refl
if-append false t rest = refl

-- The logger puts out just the lines that it should: for calls of known levels whose lines fit, and
-- as long as no closed file is used, each call whose level is at least that of the logger adds its
-- line to the file, if one is open, and to one of stdout and stderr, if the console is on; the
-- others add nothing; all of it in the order of the calls.
pub logging_all-lines :
    (k : Sink) (calls : List (Bytes × Call)) (log : Log)
    → AllFit calls
    → IsUsable log.log_stream
    → (out : List (Sink × Bytes)) × (logging_all calls log ≡ ok (record log { out = out }))
      × (sink_text k out ≡ sink_text k log.out ++ lines_for k log calls)
logging_all-lines k [] log a u = (log.out, refl, sym (append-nil (sink_text k log.out)))
logging_all-lines k ((buffer, c) ∷ calls) log (f, a) u =
    let p = logging-Puts k buffer c log f u in
    let (out, result, text) = logging_all-lines k calls (record log { out = p.out }) a u in
    (
      out,
      rw p.result result,
      text
          ∙ (ap (λ l. l ++ lines_for k log calls) p.text
              ∙ (append_assoc (sink_text k log.out) (if goes k log c then line_of c else []) _
                  ∙ ap (λ l. sink_text k log.out ++ l) (if-append (goes k log c) (line_of c) _))),
    )
