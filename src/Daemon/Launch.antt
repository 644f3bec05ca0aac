-- ===== src/Daemon/Launch.antt =====
-- A run of the daemon from its command line to its server: `main` of src/ipvshttpd.cpp as a whole.
pub mod OneServer
use ipvshttpd.Daemon.Launch.OneServer.{options_for, Launched, run_server-Launched}
use ipvshttpd.Configuration.RoundTrip.{IsConfig, entries, as_file, open-as_file}
use ipvshttpd.Configuration.{Config}
use ipvshttpd.Daemon.Arguments.{Setting, IsArgument, arguments, in_turn, parse_args-arguments}
use ipvshttpd.Daemon.Options.{Options, options, default_options}
use ipvshttpd.Daemon.Precedence.Loading.{
  Decided, chosen, bad_name, settings, DecidedBy, load_config-DecidedBy,
}
use ipvshttpd.Daemon.Precedence.{level_asked, sinks_asked}
use ipvshttpd.Daemon.Ends.{removes, finish_end}
use ipvshttpd.Daemon.Run.{
  Host, in_child, Ending, exited, aborted, Exit, FileEvent, Loaded, loaded, load_config, stop_all,
  after_start, serve_all, run_server, fork_and_run, run_daemon, initial_logger, main,
}
use ipvshttpd.FileTools.{file_exists}
use ipvshttpd.HttpServer.Server.Events.{
  run_events, run_result, left_held, Ran, can_make, Course, start_course,
}
use ipvshttpd.HttpServer.Server.{
  ServerOptions, ssl_files, ServerEvent, created, stopped, deleted, RunEnd, by_itself, by_signal,
  by_exception, Netlib, HttpServer, options_of, Started, stop, start,
}
use ipvshttpd.IpvsInterface.Life.{comes_up}
use ipvshttpd.Logging.{Logger}
use ipvshttpd.Prelude.Bytes.{Bytes, equal}
use ipvshttpd.Prelude.{
  Bool, true, false, ◌||◌, List, [], ◌∷◌, ◌++◌, append_assoc, append-nil, none, some, ◌≡◌, ◌≢◌,
  refl, sym, ap, ◌∙◌, inl, inr, All, if◌then◌else◌,
}
use ipvshttpd.StringTools.{str_from_int}
use mathlib.Core.Path.{subst}

load-loaded :
    (host : Host) (o : Options) (g : Logger) (c : Config)
    → (o.config_set || file_exists host.stat o.config_file) ≡ true
    → host.read_file o.config_file ≡ some (as_file (entries c))
    → IsConfig c
    → level_asked o c g ≢ none
    → sinks_asked o c g ≢ none
    → (g' : Logger) × (load_config host o g ≡ loaded c g')
load-loaded host o g c there file valid level sinks =
    let read : settings host o g ≡ some c =
      rw (there, file, open-as_file o.config_file c g valid) refl in
    decided (load_config host o g) refl
      (subst (DecidedBy o g (load_config host o g)) read (load_config-DecidedBy host o g))
  where
    decided :
        (l : Loaded)
        → load_config host o g ≡ l
        → Decided o c g l
        → (g' : Logger) × (load_config host o g ≡ loaded c g')
    decided l e (chosen g' lv sk) = (g', e)
    decided l e (bad_name g' (inl n)) = absurd (level n)
    decided l e (bad_name g' (inr n)) = absurd (sinks n)

-- Let the command line say some settings, where no value is empty or begins with a dash and none is
-- given up, and let the configuration file, which is asked for or there, hold every setting on a
-- line of its own, with numbers that are `int`s and texts that are each on one line and have no
-- space at their ends, and with a level and sinks that are names where the file decides them. If
-- the process is the one that goes on behind the fork, can write the PID file if it has one,
-- libipvs comes up, and cpp-netlib takes the SSL files, if there are any, and the options, then it
-- has one server, with the address, the port, the threads and the SSL files of the configuration
-- file, which is run once. Where `run` ends by itself, `main` deletes the server behind it; where a
-- signal ends it, the server is deleted before its `run` has returned; the result is then 0, or 1
-- if a PID file cannot be removed. Where an exception ends it, the server is not deleted, and the
-- process is aborted; and where it never returns, the server is not deleted either, and `main` does
-- not end.
pub main-Launched :
    (host : Host) (argv0 : Bytes) (ss : List Setting) (o : Options) (g : Logger) (c : Config)
    → All IsArgument ss
    → in_turn ss default_options initial_logger ≡ options o g
    → (o.config_set || file_exists host.stat o.config_file) ≡ true
    → host.read_file o.config_file ≡ some (as_file (entries c))
    → IsConfig c
    → level_asked o c g ≢ none
    → sinks_asked o c g ≢ none
    → (if o.daemonize then host.fork else in_child) ≡ in_child
    → (equal o.pid_file [] || host.can_write o.pid_file) ≡ true
    → comes_up host.init_answers ≡ true
    → can_make host.netlib (options_for c) ≡ true
    → Launched host o c host.netlib.run_end (main host argv0 (arguments ss))
unfolding main run_daemon fork_and_run
main-Launched host argv0 ss o g c args turn there file valid level sinks child w up can =
    let (g', l) = load-loaded host o g c there file valid level sinks in
    rw (parse_args-arguments argv0 ss default_options initial_logger args, turn, l, child)
      (run_server-Launched host o c _ w (refl, refl, refl, refl, refl, refl) up can)
