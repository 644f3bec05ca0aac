-- ===== src/Daemon/Shutdown/Process.antt =====
-- How a process of src/ipvshttpd.cpp ends, and what it has called of libipvs by then.
use ipvshttpd.Configuration.{Config}
use ipvshttpd.Daemon.Options.{Options, Parse, exit_one, options, default_options, parse_args}
use ipvshttpd.Daemon.Run.{
  Host, ForkResult, fork_failed, in_parent, in_child, Ending, exited, aborted, hung, Exit,
  FileEvent, Loaded, load_failed, loaded, load_config, stop_all, finish, after_start, serve_all,
  run_server, fork_and_run, run_daemon, after_load, after_parse, initial_logger, main,
}
use ipvshttpd.HttpServer.Server.Events.{result_of, start_course}
use ipvshttpd.HttpServer.Server.{
  RunEnd, by_itself, by_signal, by_exception, endless, stuck_in_delete, HttpServer, Started, gave,
  threw, stuck, start,
}
use ipvshttpd.IpvsInterface.Life.{comes_up, init_calls}
use ipvshttpd.IpvsInterface.{IpvsCall, InitAnswers}
use ipvshttpd.Prelude.Bytes.{Bytes, equal}
use ipvshttpd.Prelude.Int.{pos, eq_ℤ}
use ipvshttpd.Prelude.{
  ℕ, Bool, true, false, not, List, [], Option, some, ◌≡◌, refl, sym, ◌∙◌, ◌⊎◌, inl, inr, Bool-cases,
  if◌then◌else◌,
}
use mathlib.Core.Path.{subst}
use ipvshttpd.Daemon.Shutdown.{
  destroy, calls_by, process_calls, stop-SameIpvs, Inited, IsUnused, start-Inited,
  opened_and_closed, unused_calls, closing_calls,
}

-- A run of the server that does not return.
abbrev pub never_returns : RunEnd → Bool
never_returns by_itself = false
never_returns by_signal = false
never_returns by_exception = false
never_returns endless = true
never_returns stuck_in_delete = true

-- What one process may have called by its end: by a result of `main`, or by an exception, or where `main`
-- does not end.
abbrev pub ClosedBy : InitAnswers → RunEnd → Ending → List IpvsCall → Type 0
ClosedBy a d (exited code) calls = (calls ≡ []) ⊎ (calls ≡ opened_and_closed a)
ClosedBy a d aborted calls = (calls ≡ init_calls a) × (comes_up a ≡ true)
ClosedBy a d hung calls = (calls ≡ init_calls a) × (comes_up a ≡ true) × (never_returns d ≡ true)

abbrev pub Closed : Host → Exit → Type 0
Closed host e = ClosedBy host.init_answers host.netlib.run_end e.ending (process_calls e)

finish_server :
    (host : Host) (p : Bytes) (files : List FileEvent) (s : HttpServer)
    → (code : ℕ) × ((finish host p files s).ending ≡ exited code)
      × ((finish host p files s).server ≡ some s)
unfolding finish
finish_server host p files s = elim (Bool-cases (equal p [])) [
  | inl e ↦ (0, rw e refl, rw e refl)
  | inr e ↦ elim (Bool-cases (not (eq_ℤ (host.remove p) (pos 0)))) [
    | inl r ↦ (1, rw (e, r) refl, rw (e, r) refl)
    | inr r ↦ (0, rw (e, r) refl, rw (e, r) refl)
  ]
]

exited-ClosedBy :
    (a : InitAnswers) (e : RunEnd) (d : Ending) (o : Option HttpServer) (code : ℕ) (s : HttpServer)
    → d ≡ exited code
    → o ≡ some s
    → (destroy s).interface.made ≡ opened_and_closed a
    → ClosedBy a e d (calls_by d o)
exited-ClosedBy a e d o code s ed eo h = rw (ed, eo) (inr h)

stop_all-Inited : (a : InitAnswers) (s : HttpServer) → Inited a s → Inited a (stop_all s)
unfolding stop_all
stop_all-Inited a s (made, flag) = let kept = stop-SameIpvs s in (kept.0 ∙ made, kept.1 ∙ flag)

-- `start` throws only behind an `init` that came up, and does not end only in a run that does not return.
abbrev IsPlausible : InitAnswers → RunEnd → Started → Type 0
IsPlausible a d (gave up) = Unit
IsPlausible a d threw = comes_up a ≡ true
IsPlausible a d stuck = (comes_up a ≡ true) × (never_returns d ≡ true)

result_of-IsPlausible :
    (a : InitAnswers) (can : Bool) (e : RunEnd) (up : Bool)
    → comes_up a ≡ up
    → IsPlausible a e (result_of up can e)
result_of-IsPlausible a can e false h = tt
result_of-IsPlausible a false e true h = h
result_of-IsPlausible a true by_itself true h = tt
result_of-IsPlausible a true by_signal true h = tt
result_of-IsPlausible a true by_exception true h = h
result_of-IsPlausible a true endless true h = (h, refl)
result_of-IsPlausible a true stuck_in_delete true h = (h, refl)

after_start-Closed :
    (host : Host) (p : Bytes) (files : List FileEvent) (s : HttpServer) (r : Started)
    → Inited host.init_answers s
    → IsPlausible host.init_answers host.netlib.run_end r
    → Closed host (after_start host p files s r)
unfolding after_start
after_start-Closed host p files s (gave up) i h =
    let (code, ending, server) = finish_server host p files (stop_all s) in
    exited-ClosedBy host.init_answers host.netlib.run_end _ _ code (stop_all s) ending server
      (closing_calls host.init_answers (stop_all s) (stop_all-Inited host.init_answers s i))
after_start-Closed host p files s threw i h = (i.0, h)
after_start-Closed host p files s stuck i h = (i.0, h.0, h.1)

serve_all-Closed :
    (host : Host) (c : Config) (p : Bytes) (files : List FileEvent) (s : HttpServer)
    → IsUnused s
    → Closed host (serve_all host c p files s)
unfolding serve_all
serve_all-Closed host c p files s u =
    let ran = start_course host.init_answers host.netlib c s u.2 u.3 in
    after_start-Closed host p files (start host.init_answers host.netlib c s).0 _
      (start-Inited host.init_answers host.netlib c s u)
      (subst (IsPlausible host.init_answers host.netlib.run_end) (sym ran.result)
        (result_of-IsPlausible host.init_answers _ host.netlib.run_end _ refl))

either-Closed :
    (host : Host) (b : Bool) (x y : Exit)
    → Closed host x
    → Closed host y
    → Closed host (if b then x else y)
either-Closed host true x y hx hy = hx
either-Closed host false x y hx hy = hy

run_server-Closed :
    (host : Host) (o : Options) (c : Config) (s : HttpServer)
    → IsUnused s
    → Closed host (run_server host o c s)
unfolding run_server
run_server-Closed host o c s u =
    either-Closed host (equal o.pid_file []) _ _ (serve_all-Closed host c o.pid_file [] s u) (
      either-Closed host (host.can_write o.pid_file) _ _ (serve_all-Closed host c o.pid_file _ s u)
        (inl (unused_calls s u)))

fork-Closed :
    (host : Host) (o : Options) (c : Config) (s : HttpServer) (f : ForkResult)
    → IsUnused s
    → Closed host (fork_and_run host o c s f)
unfolding fork_and_run
fork-Closed host o c s fork_failed u = inl (unused_calls s u)
fork-Closed host o c s in_parent u = inl (unused_calls s u)
fork-Closed host o c s in_child u = run_server-Closed host o c s u

load-Closed : (host : Host) (o : Options) (l : Loaded) → Closed host (after_load host o l)
unfolding run_daemon
load-Closed host o (load_failed g) = inl refl
load-Closed host o (loaded c g) = fork-Closed host o c _ _ (refl, refl, refl, refl)

parse-Closed : (host : Host) (p : Parse) → Closed host (after_parse host p)
parse-Closed host (exit_one g) = inl refl
parse-Closed host (options o g) = load-Closed host o (load_config host o g)

-- Whatever the arguments, the configuration and the answers of the system and of cpp-netlib are: beside the
-- updates that the handlers make, libipvs is called as follows. Where `main` returns, the process, when it
-- has run its destructors, has either not called libipvs at all, or has made the calls of one `init` and,
-- behind them, closed libipvs exactly once if it came up, and not at all if it did not. Where an exception
-- leaves `main`, libipvs came up and was not closed. Where `main` does not end, libipvs came up and was not
-- closed, and it is the `run()` of the server that does not return.
pub main-Closed :
    (host : Host) (argv0 : Bytes) (args : List Bytes) → Closed host (main host argv0 args)
unfolding main
main-Closed host argv0 args =
    parse-Closed host (parse_args argv0 args default_options initial_logger)
