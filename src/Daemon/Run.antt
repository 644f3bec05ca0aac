-- ===== src/Daemon/Run.antt =====
-- `main` of src/ipvshttpd.cpp behind the command line: the configuration file, the fork, the PID file,
-- and the server. What the operating system answers is a parameter.
use ipvshttpd.Configuration.{Config, Opened, default_config, open_config}
use ipvshttpd.Daemon.Options.{
  Options, default_options, Parse, exit_one, options, parse_args, parse_log_level, parse_sinks,
  sink_list,
}
use ipvshttpd.FileTools.{file_exists}
use ipvshttpd.HttpServer.Server.{
  Netlib, HttpServer, new_server, Started, gave, threw, stuck, start, stop,
}
use ipvshttpd.IpvsInterface.{new_interface, InitAnswers}
use ipvshttpd.Libc.{decimal}
use ipvshttpd.Logging.{
  Logger, log_level_error, log_sink_std, log_start, log_stop, log_error, log_message,
}
use ipvshttpd.Prelude.Bytes.{Bytes, codes, equal}
use ipvshttpd.Prelude.Int.{ℤ, pos, eq_ℤ}
use ipvshttpd.Prelude.{
  ℕ, Bool, true, false, not, ◌||◌, List, [], ◌∷◌, ◌++◌, Option, none, some, if◌then◌else◌,
}

pub data ForkResult : Type 0 where
  fork_failed in_parent in_child : ForkResult

pub record Host : Type 0 where
  pub stat : Bytes → ℤ
  pub read_file : Bytes → Option Bytes
  pub fork : ForkResult
  pub getpid : ℕ
  pub can_write : Bytes → Bool
  pub remove : Bytes → ℤ
  pub init_answers : InitAnswers
  pub netlib : Netlib

-- What the process does to files, in order: a file written, or a call of `remove`.
pub data FileEvent : Type 0 where
  wrote : Bytes → Bytes → FileEvent
  removed : Bytes → FileEvent

-- How the process ends: `main` returns a result, or an exception leaves `main`, which nothing catches,
-- or it never does.
pub data Ending : Type 0 where
  exited : ℕ → Ending
  aborted hung : Ending

-- The end of `main`: how it came, the log, the files, and the server object if there was one.
pub record Exit : Type 0 where
  pub ending : Ending
  pub logger : Logger
  pub files : List FileEvent
  pub server : Option HttpServer

abbrev pub exit_early : ℕ → Logger → Exit
exit_early code g = record { ending = exited code; logger = g; files = []; server = none }

-- A step of the loading: `return 1`, or on with the log.
pub data Loaded : Type 0 where
  load_failed : Logger → Loaded
  loaded : Config → Logger → Loaded

abbrev pub loaded_if : Config → Logger × Bool → Loaded
loaded_if c (g, true) = loaded c g
loaded_if c (g, false) = load_failed g

-- The level of the file, unless the command line has one or the file has none.
unfoldable pub configure_level : Options → Config → Logger → Loaded
unfolding parse_log_level
configure_level o c g =
    if o.log_level_set || equal c.log_verbosity []
    then loaded c g
    else loaded_if c (parse_log_level c.log_verbosity g)

-- The sinks of the file, on the same terms.
unfoldable pub configure_sinks : Options → Config → Logger → Loaded
unfolding parse_sinks
configure_sinks o c g =
    if o.log_sinks_set || equal c.log_sinks []
    then loaded c g
    else loaded_if c (parse_sinks (sink_list c.log_sinks) g)

unfoldable pub configure_logging : Options → Config → Logger → Loaded
unfolding configure_level configure_sinks
configure_logging o c g = elim (configure_level o c g) [
  | load_failed g' ↦ load_failed g'
  | loaded c' g' ↦ configure_sinks o c' g'
]

abbrev pub after_open : Options → Opened → Loaded
after_open o r =
    if r.valid
    then configure_logging o r.config r.logger
    else load_failed (log_error (codes "Could not load configuration file.") r.logger)

unfoldable pub load_config : Host → Options → Logger → Loaded
unfolding configure_logging open_config file_exists
load_config host o g =
    if o.config_set || file_exists host.stat o.config_file
    then after_open o (open_config o.config_file (host.read_file o.config_file) default_config g)
    else loaded default_config g

-- `server.stop()` and `log_stop()`.
unfoldable pub stop_all : HttpServer → HttpServer
unfolding stop log_stop
stop_all s =
    let s' = stop s in
    record s' { interface = record (s'.interface) { logger = log_stop s'.interface.logger } }

-- The removal of the PID file, and the last `return`.
unfoldable pub finish : Host → Bytes → List FileEvent → HttpServer → Exit
finish host pid_file files s =
    if equal pid_file []
    then record { ending = exited 0; logger = s.interface.logger; files = files; server = some s }
    else if not (eq_ℤ (host.remove pid_file) (pos 0))
    then record {
      ending = exited 1;
      logger = log_error (codes "Could not clean up PID file: " ++ pid_file) s.interface.logger;
      files = files ++ removed pid_file ∷ [];
      server = some s;
    }
    else record {
      ending = exited 0;
      logger = s.interface.logger;
      files = files ++ removed pid_file ∷ [];
      server = some s;
    }

-- Behind `server.start()`, whose result is not looked at.
unfoldable pub after_start : Host → Bytes → List FileEvent → HttpServer → Started → Exit
unfolding finish stop_all
after_start host pid_file files s (gave up) = finish host pid_file files (stop_all s)
after_start host pid_file files s threw = record {
  ending = aborted;
  logger = s.interface.logger;
  files = files;
  server = some s;
}
after_start host pid_file files s stuck = record {
  ending = hung;
  logger = s.interface.logger;
  files = files;
  server = some s;
}

unfoldable pub serve_all : Host → Config → Bytes → List FileEvent → HttpServer → Exit
unfolding after_start start
serve_all host c pid_file files s =
    let (s', r) = start host.init_answers host.netlib c s in after_start host pid_file files s' r

-- Behind the fork: the PID file, and the server's run.
unfoldable pub run_server : Host → Options → Config → HttpServer → Exit
unfolding serve_all
run_server host o c s =
    if equal o.pid_file []
    then serve_all host c o.pid_file [] s
    else if host.can_write o.pid_file
    then serve_all host c o.pid_file (wrote o.pid_file (decimal host.getpid ++ codes "\n") ∷ []) s
    else record {
      ending = exited 1;
      logger = log_error (codes "Could not write to PID file: " ++ o.pid_file) s.interface.logger;
      files = [];
      server = some s;
    }

unfoldable pub fork_and_run : Host → Options → Config → HttpServer → ForkResult → Exit
unfolding run_server
fork_and_run host o c s fork_failed = record {
  ending = exited 1;
  logger = log_stop (log_error (codes "Could not fork.") s.interface.logger);
  files = [];
  server = some s;
}
fork_and_run host o c s in_parent = record {
  ending = exited 0;
  logger = s.interface.logger;
  files = [];
  server = some s;
}
fork_and_run host o c s in_child = run_server host o c s

unfoldable pub run_daemon : Host → Options → Config → Logger → Exit
unfolding fork_and_run
run_daemon host o c g =
    let g' = log_message (codes "ipvshttpd starting...") (log_start g) in
    let s = new_server c.listen_address c.port c.server_threads (new_interface g') false in
    fork_and_run host o c s (if o.daemonize then host.fork else in_child)

abbrev pub after_load : Host → Options → Loaded → Exit
after_load host o (load_failed g) = exit_early 1 g
after_load host o (loaded c g) = run_daemon host o c g

abbrev pub after_parse : Host → Parse → Exit
after_parse host (exit_one g) = exit_early 1 g
after_parse host (options o g) = after_load host o (load_config host o g)

abbrev pub initial_logger : Logger
initial_logger = record { level = log_level_error; sinks = log_sink_std; lines = [] }

-- `main`, with the name of the program and the arguments behind it.
unfoldable pub main : Host → Bytes → List Bytes → Exit
unfolding run_daemon load_config parse_args
main host argv0 args = after_parse host (parse_args argv0 args default_options initial_logger)
