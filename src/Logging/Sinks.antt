-- ===== src/Logging/Sinks.antt =====
-- Where the functions of src/logging.cpp send a message.
use Prim.Native.Nat.{bit_and}
use ipvshttpd.Prelude.Bytes.{Bytes}
use ipvshttpd.Prelude.{
  ℕ, ◌<◌, Bool, ◌&&◌, List, [], ◌∷◌, ◌++◌, append-nil, append_assoc, ◌≡◌, refl, arith, leb,
  if◌then◌else◌,
}
use ipvshttpd.Logging.{
  info, debug, Line, cerr, cout, syslog, Logger, has_sink, log_sink_std, log_sink_syslog,
  log_level_error, log_level_info, log_level_debug, log_error, log_message, log_debug,
}

-- The sinks are a set of the two bits.
abbrev pub IsSinks : ℕ → Type 0
IsSinks sinks = sinks < 4

-- The lines of one message to the chosen sinks: the standard stream first.
abbrev pub routed : ℕ → Line → Line → List Line
routed sinks std sys =
    (if has_sink sinks log_sink_std then std ∷ [] else [])
    ++ (if has_sink sinks log_sink_syslog then sys ∷ [] else [])

abbrev pub when : Bool → List Line → List Line
when b ls = if b then ls else []

no_sinks : (bit_and 0 log_sink_std ≡ 0) × (bit_and 0 log_sink_syslog ≡ 0)
no_sinks = (refl, refl)

-- An informational message goes to exactly the chosen sinks, if the level is INFO or DEBUG, a debug
-- message likewise, if the level is DEBUG; else nothing is written. Level and sinks stay.
pub message_routed :
    (message : Bytes) (g : Logger)
    → (log_message message g ≡ record g {
      lines =
          g.lines
          ++ when
              (leb log_level_info g.level)
              (routed g.sinks (cout message) (syslog info message));
    })
      × (log_debug message g ≡ record g {
        lines =
            g.lines
            ++ when
                (leb log_level_debug g.level)
                (routed g.sinks (cout message) (syslog debug message));
      })
unfolding log_message log_debug
message_routed message g = (
  ground (
    arith,
    no_sinks,
    append-nil g.lines,
    append_assoc g.lines (cout message ∷ []) (syslog info message ∷ []),
  ),
  ground (
    arith,
    no_sinks,
    append-nil g.lines,
    append_assoc g.lines (cout message ∷ []) (syslog debug message ∷ []),
  ),
)

-- An error message goes to the standard error stream, if the level is not NONE and that sink is
-- chosen. It never goes to syslog, whether that sink is chosen or not.
pub error_only_std :
    (message : Bytes) (g : Logger)
    → log_error message g ≡ record g {
      lines =
          g.lines
          ++ when
              (leb log_level_error g.level && has_sink g.sinks log_sink_std)
              (cerr message ∷ []);
    }
unfolding log_error
error_only_std message g = ground (arith, append-nil g.lines)
