-- ===== src/Daemon/Launch/OneServer.antt =====
-- The one server that `main` of src/ipvshttpd.cpp has, from its creation to the end of the process.
use ipvshttpd.Configuration.{Config}
use ipvshttpd.Daemon.Options.{Options}
use ipvshttpd.Daemon.Ends.{removes, finish_end}
use ipvshttpd.Daemon.Run.{
  Host, Ending, exited, aborted, hung, Exit, FileEvent, stop_all, after_start, serve_all,
  run_server,
}
use ipvshttpd.HttpServer.Server.Events.{
  run_events, run_result, left_held, Ran, can_make, Course, start_course,
}
use ipvshttpd.HttpServer.Server.{
  ServerOptions, ssl_files, ServerEvent, created, stopped, deleted, RunEnd, by_itself, by_signal,
  by_exception, endless, stuck_in_delete, Netlib, HttpServer, options_of, Started, stop, start,
}
use ipvshttpd.IpvsInterface.Life.{comes_up}
use ipvshttpd.Prelude.Bytes.{equal}
use ipvshttpd.Prelude.{
  Bool, true, false, ◌||◌, List, [], ◌∷◌, ◌++◌, append_assoc, append-nil, some, ◌≡◌, refl, sym, ap,
  ◌∙◌, if◌then◌else◌,
}
use ipvshttpd.StringTools.{str_from_int}
use mathlib.Core.Path.{subst}

-- What becomes of the one server: where its run ended by itself, `main` deletes it; where a signal
-- ended it, its handler does; else it is never deleted.
abbrev pub served_events : RunEnd → List ServerEvent
served_events by_itself = run_events by_itself ++ stopped ∷ (deleted ∷ [])
served_events by_signal = run_events by_signal
served_events by_exception = run_events by_exception
served_events endless = run_events endless
served_events stuck_in_delete = run_events stuck_in_delete

-- How the process ends behind that run.
abbrev pub served_ending : Host → Options → RunEnd → Ending
served_ending host o by_itself = exited (removes host o)
served_ending host o by_signal = exited (removes host o)
served_ending host o by_exception = aborted
served_ending host o endless = hung
served_ending host o stuck_in_delete = hung

stop_events :
    (s : HttpServer) (b : Bool)
    → s.has_server ≡ b
    → (stop_all s).events ≡ s.events ++ (if b then stopped ∷ (deleted ∷ []) else [])
unfolding stop stop_all
stop_events s true h = rw h (append_assoc s.events (stopped ∷ []) (deleted ∷ []))
stop_events s false h = rw (h, append-nil) refl

-- The object that `main` makes.
abbrev IsNew : Config → HttpServer → Type 0
IsNew c s =
    (s.has_server ≡ false)
    × (s.ipvs_locked ≡ false)
    × (s.events ≡ [])
    × (s.listen_address ≡ c.listen_address)
    × (s.port ≡ c.port)
    × (s.num_threads ≡ c.server_threads)

-- The server that the settings ask for.
abbrev pub options_for : Config → ServerOptions
options_for c = record {
  address = c.listen_address;
  port = str_from_int c.port;
  threads = c.server_threads;
  context = ssl_files c;
}

-- The process has had a server with these settings, from its creation to its deletion, and ends as the
-- server's run does.
pub record Launched (host : Host) (o : Options) (c : Config) (run_end : RunEnd) (e : Exit)
    : Type 0 where
  pub server : HttpServer
  pub had : e.server ≡ some server
  pub whole_life : server.events ≡ created (options_for c) ∷ served_events run_end
  pub ends_so : e.ending ≡ served_ending host o run_end

-- The state behind `start`, which has run the server.
abbrev RanOnce : Netlib → Config → HttpServer × Started → Type 0
RanOnce n c x =
    Ran [] (created (options_for c) ∷ run_events n.run_end) (left_held n.run_end)
      (run_result n.run_end) x

new-RanOnce :
    (host : Host) (c : Config) (s : HttpServer)
    → IsNew c s
    → comes_up host.init_answers ≡ true
    → can_make host.netlib (options_for c) ≡ true
    → RanOnce host.netlib c (start host.init_answers host.netlib c s)
new-RanOnce host c s (none_yet, free, no_events, a, p, n) up can =
    let x = start host.init_answers host.netlib c s in
    let same : options_of c s ≡ options_for c = rw (a, p, n) refl in
    let e = host.netlib.run_end in
    let whole : Course true true e (options_for c) [] x =
      subst (λ b. Course true b e (options_for c) [] x) can
        (subst (λ b. Course b (can_make host.netlib (options_for c)) e (options_for c) [] x) up
          (subst
            (λ es.
              Course (comes_up host.init_answers) (can_make host.netlib (options_for c)) e
                (options_for c) es x)
            no_events
            (subst
              (λ o. Course (comes_up host.init_answers) (can_make host.netlib o) e o s.events x)
              same (start_course host.init_answers host.netlib c s none_yet free)))) in
    whole

run_end-Launched :
    (host : Host) (o : Options) (c : Config) (files : List FileEvent) (e : RunEnd) (s : HttpServer)
    → s.events ≡ created (options_for c) ∷ run_events e
    → s.has_server ≡ left_held e
    → Launched host o c e (after_start host o.pid_file files s (run_result e))
unfolding after_start
run_end-Launched host o c files by_itself s es h =
    let (ending, server) = finish_end host o files (stop_all s) in
    record {
      server = stop_all s;
      had = server;
      whole_life = stop_events s true h ∙ ap (λ l. l ++ stopped ∷ (deleted ∷ [])) es;
      ends_so = ending;
    }
run_end-Launched host o c files by_signal s es h =
    let (ending, server) = finish_end host o files (stop_all s) in
    record {
      server = stop_all s;
      had = server;
      whole_life = stop_events s false h ∙ append-nil s.events ∙ es;
      ends_so = ending;
    }
run_end-Launched host o c files by_exception s es h = record {
  server = s;
  had = refl;
  whole_life = es;
  ends_so = refl;
}
run_end-Launched host o c files endless s es h = record {
  server = s;
  had = refl;
  whole_life = es;
  ends_so = refl;
}
run_end-Launched host o c files stuck_in_delete s es h = record {
  server = s;
  had = refl;
  whole_life = es;
  ends_so = refl;
}

serve_all-Launched :
    (host : Host) (o : Options) (c : Config) (files : List FileEvent) (s : HttpServer)
    → IsNew c s
    → comes_up host.init_answers ≡ true
    → can_make host.netlib (options_for c) ≡ true
    → Launched host o c host.netlib.run_end (serve_all host c o.pid_file files s)
unfolding serve_all
serve_all-Launched host o c files s n up can =
    let ran = new-RanOnce host c s n up can in
    let s' : HttpServer = (start host.init_answers host.netlib c s).0 in
    subst (λ r. Launched host o c host.netlib.run_end (after_start host o.pid_file files s' r))
      (sym ran.result) (run_end-Launched host o c files host.netlib.run_end s' ran.did ran.holds)

pub run_server-Launched :
    (host : Host) (o : Options) (c : Config) (s : HttpServer)
    → (equal o.pid_file [] || host.can_write o.pid_file) ≡ true
    → IsNew c s
    → comes_up host.init_answers ≡ true
    → can_make host.netlib (options_for c) ≡ true
    → Launched host o c host.netlib.run_end (run_server host o c s)
unfolding run_server
run_server-Launched host o c s w n up can =
    let served = λ (files : List FileEvent). serve_all-Launched host o c files s n up can in
    either (Launched host o c host.netlib.run_end) (equal o.pid_file []) (host.can_write o.pid_file)
      _ _ _ w (served []) (served _)
  where
    either :
        (P : Exit → Type 0) (a b : Bool) (x y z : Exit)
        → (a || b) ≡ true
        → P x
        → P y
        → P (if a then x else if b then y else z)
    either P true b x y z h hx hy = hx
    either P false true x y z h hx hy = hy
    either P false false x y z h hx hy = cc
