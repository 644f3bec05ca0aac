-- ===== src/Daemon/Sinks.antt =====
-- The sinks of the log from the start of `main` of src/ipvshttpd.cpp to its end.
pub mod Loading
use ipvshttpd.Daemon.Sinks.Loading.{
  log_message-Speaks, log_start-Speaks, log_stop-Speaks, LoadSpeaks, load-Speaks,
}
use ipvshttpd.Configuration.Outcome.{open_outcome}
use ipvshttpd.Configuration.{Config, Opened, default_config, open_config}
use ipvshttpd.Daemon.Choices.{
  Speaks, ParseSpeaks, log_error-Speaks, sinks-Speaks, level-Speaks, args-Speaks,
}
use ipvshttpd.Daemon.Options.{
  Options, default_options, Parse, exit_one, options, parse_args, sink_list,
}
use ipvshttpd.Daemon.Run.{
  FileEvent, ForkResult, fork_failed, in_parent, in_child, Host, Exit, Loaded, load_failed, loaded,
  loaded_if, configure_level, configure_sinks, configure_logging, load_config, stop_all, finish,
  after_start, serve_all, run_server, fork_and_run, run_daemon, after_load, after_parse,
  initial_logger, main,
}
use ipvshttpd.FileTools.{file_exists}
use ipvshttpd.HttpServer.Server.Keeping.{IsKept, stop_keep, start_keep}
use ipvshttpd.HttpServer.Server.{Netlib, HttpServer, Started, gave, threw, stuck, stop, start}
use ipvshttpd.IpvsInterface.Life.{comes_up, init_outcome}
use ipvshttpd.IpvsInterface.{InitAnswers, Interface, init}
use ipvshttpd.Logging.Sinks.{message_routed}
use ipvshttpd.Logging.{Logger, log_start, log_stop, log_error, log_message}
use ipvshttpd.Prelude.Bytes.{Bytes, codes, equal}
use ipvshttpd.Prelude.Int.{pos, eq_ℤ}
use ipvshttpd.Prelude.{
  Bool, true, false, not, ◌||◌, List, [], ◌++◌, Option, none, some, refl, inl, inr, arith,
  Bool-cases, if◌then◌else◌,
}

-- The log of a server object.
abbrev ServerSpeaks : HttpServer → Type 0
ServerSpeaks s = Speaks s.interface.logger

ServerSpeaks-IsKept : IsKept ServerSpeaks
ServerSpeaks-IsKept = record {
  logs_keep = λ m t h. log_message-Speaks m t.interface.logger h;
  happens_keep = λ e t h. h;
  pointer_keep = λ b t h. h;
}

init-Speaks : (a : InitAnswers) (i : Interface) → Speaks i.logger → Speaks (init a i).0.logger
init-Speaks a i h = elim (Bool-cases (comes_up a)) [
  | inl e ↦ rw (init_outcome a i).3 (rw e h)
  | inr e ↦ rw (init_outcome a i).3 (rw e (log_error-Speaks _ i.logger h))
]

start-Speaks :
    (a : InitAnswers) (n : Netlib) (c : Config) (s : HttpServer)
    → ServerSpeaks s
    → ServerSpeaks (start a n c s).0
start-Speaks a n c s h =
    start_keep ServerSpeaks ServerSpeaks-IsKept a n c s (λ locked. h) (init-Speaks a s.interface h)

stop_all-Speaks : (s : HttpServer) → ServerSpeaks s → ServerSpeaks (stop_all s)
unfolding stop_all
stop_all-Speaks s h =
    log_stop-Speaks (stop s).interface.logger (stop_keep ServerSpeaks ServerSpeaks-IsKept s h)

finish-Speaks :
    (host : Host) (pid_file : Bytes) (files : List FileEvent) (s : HttpServer)
    → ServerSpeaks s
    → Speaks (finish host pid_file files s).logger
unfolding finish
finish-Speaks host pid_file files s h = elim (Bool-cases (equal pid_file [])) [
  | inl e ↦ rw e h
  | inr e ↦ elim (Bool-cases (not (eq_ℤ (host.remove pid_file) (pos 0)))) [
    | inl r ↦ rw (e, r) (log_error-Speaks _ s.interface.logger h)
    | inr r ↦ rw (e, r) h
  ]
]

after_start-Speaks :
    (host : Host) (pid_file : Bytes) (files : List FileEvent) (s : HttpServer) (r : Started)
    → ServerSpeaks s
    → Speaks (after_start host pid_file files s r).logger
unfolding after_start
after_start-Speaks host pid_file files s (gave up) h =
    finish-Speaks host pid_file files (stop_all s) (stop_all-Speaks s h)
after_start-Speaks host pid_file files s threw h = h
after_start-Speaks host pid_file files s stuck h = h

serve_all-Speaks :
    (host : Host) (c : Config) (pid_file : Bytes) (files : List FileEvent) (s : HttpServer)
    → ServerSpeaks s
    → Speaks (serve_all host c pid_file files s).logger
unfolding serve_all
serve_all-Speaks host c pid_file files s h =
    after_start-Speaks host pid_file files (start host.init_answers host.netlib c s).0
      (start host.init_answers host.netlib c s).1 (start-Speaks host.init_answers host.netlib c s h)

either_exit-Speaks :
    (b : Bool) (x y : Exit) → Speaks x.logger → Speaks y.logger → Speaks (if b then x else y).logger
either_exit-Speaks true x y hx hy = hx
either_exit-Speaks false x y hx hy = hy

run_server-Speaks :
    (host : Host) (o : Options) (c : Config) (s : HttpServer)
    → ServerSpeaks s
    → Speaks (run_server host o c s).logger
unfolding run_server
run_server-Speaks host o c s h =
    either_exit-Speaks (equal o.pid_file []) _ _ (serve_all-Speaks host c o.pid_file [] s h) (
      either_exit-Speaks (host.can_write o.pid_file) _ _ (serve_all-Speaks host c o.pid_file _ s h)
        (log_error-Speaks (codes "Could not write to PID file: " ++ o.pid_file) s.interface.logger
          h))

fork-Speaks :
    (host : Host) (o : Options) (c : Config) (s : HttpServer) (r : ForkResult)
    → ServerSpeaks s
    → Speaks (fork_and_run host o c s r).logger
unfolding fork_and_run
fork-Speaks host o c s fork_failed h =
    log_stop-Speaks (log_error (codes "Could not fork.") s.interface.logger)
      (log_error-Speaks (codes "Could not fork.") s.interface.logger h)
fork-Speaks host o c s in_parent h = h
fork-Speaks host o c s in_child h = run_server-Speaks host o c s h

after_load-Speaks :
    (host : Host) (o : Options) (l : Loaded) → LoadSpeaks l → Speaks (after_load host o l).logger
unfolding run_daemon
after_load-Speaks host o (load_failed g) h = h
after_load-Speaks host o (loaded c g) h =
    fork-Speaks host o c _ _
      (log_message-Speaks (codes "ipvshttpd starting...") (log_start g) (log_start-Speaks g h))

after_parse-Speaks : (host : Host) (p : Parse) → ParseSpeaks p → Speaks (after_parse host p).logger
after_parse-Speaks host (exit_one g) h = h
after_parse-Speaks host (options o g) h =
    after_load-Speaks host o (load_config host o g) (load-Speaks host o g h)

-- Whatever the arguments, the configuration file and the answers of the system and of cpp-netlib are, the
-- standard sink is still chosen when `main` is over: neither an option nor the file turns it off.
pub main-Speaks :
    (host : Host) (argv0 : Bytes) (args : List Bytes) → Speaks (main host argv0 args).logger
unfolding main
main-Speaks host argv0 args =
    after_parse-Speaks host (parse_args argv0 args default_options initial_logger)
      (args-Speaks argv0 args default_options initial_logger (omega arith, refl))
