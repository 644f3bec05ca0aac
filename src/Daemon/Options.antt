-- ===== src/Daemon/Options.antt =====
-- The command line of src/ipvshttpd.cpp: `usage`, `parse_log_sink`, `parse_log_level` and the loop over
-- the arguments.
use Prim.Native.Nat.{bit_or}
use ipvshttpd.Logging.{
  log_level_none, log_level_error, log_level_info, log_level_debug, log_sink_none, log_sink_std,
  log_sink_syslog, cout, Logger, write, log_error,
}
use ipvshttpd.Prelude.Bytes.{Bytes, codes, equal}
use ipvshttpd.Prelude.{
  Bool, true, false, not, ◌&&◌, ◌||◌, List, [], ◌∷◌, ◌++◌, Option, none, some, if◌then◌else◌,
}
use ipvshttpd.StringTools.{no_limit, str_split, str_to_lower, str_starts_with}

-- `parse_log_sink`: the log with its sinks, and whether the name is one of the three.
unfoldable pub parse_log_sink : Bytes → Logger → Logger × Bool
parse_log_sink name g =
    if not (equal name (codes "none"))
      && not (equal name (codes "syslog"))
      && not (equal name (codes "stdout"))
    then (log_error (codes "Invalid log sink: " ++ name) g, false)
    else let g1 =
        if equal name (codes "none")
        then record g { sinks = bit_or g.sinks log_sink_none }
        else g in
      let g2 =
        if equal name (codes "stdout")
        then record g1 { sinks = bit_or g1.sinks log_sink_std }
        else g1 in
      let g3 =
        if equal name (codes "syslog")
        then record g2 { sinks = bit_or g2.sinks log_sink_syslog }
        else g2 in
      (g3, true)

unfoldable pub parse_log_level : Bytes → Logger → Logger × Bool
parse_log_level choice g =
    if equal choice (codes "none")
    then (record g { level = log_level_none }, true)
    else if equal choice (codes "error")
    then (record g { level = log_level_error }, true)
    else if equal choice (codes "info")
    then (record g { level = log_level_info }, true)
    else if equal choice (codes "debug")
    then (record g { level = log_level_debug }, true)
    else (log_error (codes "Unknown log level: " ++ choice) g, false)

-- The loop over the parts of a list of sinks, each in lower case; the first bad one ends it.
unfoldable pub parse_sinks : List Bytes → Logger → Logger × Bool
parse_sinks [] g = (g, true)
parse_sinks (s ∷ rest) g =
    let (g', good) = parse_log_sink (str_to_lower s) g in
    let later = parse_sinks rest g' in if good then later else (g', false)

-- `str_split` returns for this delimiter.
abbrev pub parts_of : Option (List Bytes) → List Bytes
parts_of (some ps) = ps
parts_of none = []

abbrev pub sink_list : Bytes → List Bytes
sink_list text = parts_of (str_split text (codes ",") no_limit)

-- The local variables of `main` that the arguments set.
pub record Options : Type 0 where
  pub config_file : Bytes
  pub pid_file : Bytes
  pub config_set : Bool
  pub log_level_set : Bool
  pub log_sinks_set : Bool
  pub daemonize : Bool

abbrev pub default_options : Options
default_options = record {
  config_file = codes "/etc/sysconfig/ipvshttpd.conf";
  pid_file = [];
  config_set = false;
  log_level_set = false;
  log_sinks_set = false;
  daemonize = true;
}

-- How the loop ends: `return 1`, or the options.
pub data Parse : Type 0 where
  exit_one : Logger → Parse
  options : Options → Logger → Parse

-- What `usage` writes, as one text.
unfoldable pub usage_text : Bytes → Bytes
usage_text program_name =
    program_name
    ++ codes "\t[-c <config filename>] [-f] [-l (DEBUG|INFO|ERROR|NONE)] \n\t\t"
    ++ codes "[-L (STDOUT|SYSLOG|NONE)] [-p <pidfile filename>] \n\n"
    ++ codes "-c <file>\tConfiguration file (followed by path to configfile).\n"
    ++ codes "-f\t\tKeep in foreground (prevents daemonizing, droppingprivileges).\n"
    ++ codes "-l <level>\tLogging level (one of DEBUG, INFO, ERROR or NONE)\n"
    ++ codes "-L <sink>\tLog sinks (comma-separated list of log sinks (stdout, syslog, or none)\n"
    ++ codes "-p <file>\tWrites out a PIDfile with given filename."

abbrev pub usage : Bytes → Logger → Logger
usage program_name = write (cout (usage_text program_name))

-- The test of `next_opt`, which is the empty text where there is no next argument.
abbrev pub missing : Bytes → Bool
missing next = equal next [] || str_starts_with (codes "-") next

abbrev pub refuse : Bytes → Bytes → Logger → Parse
refuse argv0 message g = exit_one (usage argv0 (log_error message g))

-- The options that take an argument; the rest of the line is there for what follows it.
pub data Valued : Type 0 where
  level_option sinks_option config_option pid_option : Valued

abbrev pub missing_message : Valued → Bytes
missing_message level_option = codes "Missing argument to -l option."
missing_message sinks_option = codes "Missing argument(s) to -L option."
missing_message config_option = codes "Missing argument to -c option."
missing_message pid_option = codes "Missing argument to -p option."

-- The body of such an option behind its check: the loop goes on, or `main` returns 1.
pub data Taken : Type 0 where
  go_on : Options → Logger → Taken
  give_up : Logger → Taken

abbrev pub go_on_if : Logger × Bool → Options → Taken
go_on_if (g, true) o = go_on o g
go_on_if (g, false) o = give_up g

unfoldable pub set_option : Valued → Bytes → Options → Logger → Taken
unfolding parse_log_level parse_sinks
set_option level_option next o g =
    go_on_if (parse_log_level (str_to_lower next) g) (record o { log_level_set = true })
set_option sinks_option next o g =
    go_on_if (parse_sinks (sink_list next) g) (record o { log_sinks_set = true })
set_option config_option next o g = go_on (record o { config_file = next; config_set = true }) g
set_option pid_option next o g = go_on (record o { pid_file = next }) g

-- The current option, by the ladder in the loop.
pub data Current : Type 0 where
  foreground : Current
  with_argument : Valued → Current
  unknown : Current

unfoldable pub classify : Bytes → Current
classify opt =
    if equal opt (codes "-f")
    then foreground
    else if equal opt (codes "-l")
    then with_argument level_option
    else if equal opt (codes "-L")
    then with_argument sinks_option
    else if equal opt (codes "-c")
    then with_argument config_option
    else if equal opt (codes "-p")
    then with_argument pid_option
    else unknown

-- The loop over `argv`, whose index moves by one, or by two over an option with its argument. An option
-- at the very end has the empty text for its argument, which is refused, so that the index stays inside.
unfoldable pub parse_args : Bytes → List Bytes → Options → Logger → Parse
unfolding classify set_option
parse_args argv0 [] o g = options o g
parse_args argv0 (opt ∷ []) o g = elim (classify opt) [
  | foreground ↦ options (record o { daemonize = false }) g
  | with_argument kind ↦ refuse argv0 (missing_message kind) g
  | unknown ↦ refuse argv0 (codes "Unknown option: " ++ opt) g
]
parse_args argv0 (opt ∷ (next ∷ rest)) o g = elim (classify opt) [
  | foreground ↦ parse_args argv0 (next ∷ rest) (record o { daemonize = false }) g
  | with_argument kind ↦ elim (missing next) [
    | true ↦ refuse argv0 (missing_message kind) g
    | false ↦ elim (set_option kind next o g) [
      | go_on o' g' ↦ parse_args argv0 rest o' g'
      | give_up g' ↦ exit_one g'
    ]
  ]
  | unknown ↦ refuse argv0 (codes "Unknown option: " ++ opt) g
]
