-- ===== src/Logging.antt =====
-- src/logging.cpp and src/logging.h: the global level and sinks, and the three functions that write.
-- The output of the process is the list of lines that it has written, in order.
pub mod Sinks
use Prim.Native.Nat.{bit_and}
use ipvshttpd.Prelude.Bytes.{Bytes}
use ipvshttpd.Prelude.{
  ℕ, Bool, true, false, not, ◌&&◌, List, [], ◌∷◌, ◌++◌, ltb, ◌==◌, if◌then◌else◌,
}

-- `LOG_LEVEL`.
abbrev pub log_level_none : ℕ
log_level_none = 0

abbrev pub log_level_error : ℕ
log_level_error = 1

abbrev pub log_level_info : ℕ
log_level_info = 2

abbrev pub log_level_debug : ℕ
log_level_debug = 3

-- `LOG_SINK`.
abbrev pub log_sink_none : ℕ
log_sink_none = 0

abbrev pub log_sink_std : ℕ
log_sink_std = 1

abbrev pub log_sink_syslog : ℕ
log_sink_syslog = 2

-- The priorities of syslog(3) that the source uses.
pub data Priority : Type 0 where
  warning info debug : Priority

pub data Line : Type 0 where
  cerr : Bytes → Line
  cout : Bytes → Line
  syslog : Priority → Bytes → Line
  openlog : Line
  closelog : Line

pub record Logger : Type 0 where
  pub level : ℕ
  pub sinks : ℕ
  pub lines : List Line

abbrev pub write : Line → Logger → Logger
write l g = record g { lines = g.lines ++ l ∷ [] }

-- `(active_log_sinks & sink) == sink`.
abbrev pub has_sink : ℕ → ℕ → Bool
has_sink sinks sink = bit_and sinks sink == sink

unfoldable pub log_start : Logger → Logger
log_start g = if has_sink g.sinks log_sink_syslog then write openlog g else g

unfoldable pub log_stop : Logger → Logger
log_stop g = if has_sink g.sinks log_sink_syslog then write closelog g else g

-- `(active_log_sinks && LOG_SINK_SYSLOG) == LOG_SINK_SYSLOG`: the left side is a truth value, which
-- is compared as 0 or 1.
abbrev pub both_nonzero : ℕ → ℕ → ℕ
both_nonzero a b = if not (a == 0) && not (b == 0) then 1 else 0

unfoldable pub log_error : Bytes → Logger → Logger
log_error message g =
    if ltb g.level log_level_error
    then g
    else if g.sinks == log_sink_none
    then g
    else let g' = if has_sink g.sinks log_sink_std then write (cerr message) g else g in
      if both_nonzero g'.sinks log_sink_syslog == log_sink_syslog
      then write (syslog warning message) g'
      else g'

unfoldable pub log_message : Bytes → Logger → Logger
log_message message g =
    if ltb g.level log_level_info
    then g
    else if g.sinks == log_sink_none
    then g
    else let g' = if has_sink g.sinks log_sink_std then write (cout message) g else g in
      if has_sink g'.sinks log_sink_syslog then write (syslog info message) g' else g'

unfoldable pub log_debug : Bytes → Logger → Logger
log_debug message g =
    if ltb g.level log_level_debug
    then g
    else if g.sinks == log_sink_none
    then g
    else let g' = if has_sink g.sinks log_sink_std then write (cout message) g else g in
      if has_sink g'.sinks log_sink_syslog then write (syslog debug message) g' else g'
