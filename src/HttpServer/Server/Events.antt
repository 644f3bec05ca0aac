-- ===== src/HttpServer/Server/Events.antt =====
-- What `start` of src/http_server.cpp does to the server of cpp-netlib, event by event, and how it ends.
use ipvshttpd.Configuration.{Config}
use ipvshttpd.HttpServer.Server.{
  ServerOptions, ssl_files, ServerEvent, created, run_entered, run_left, run_threw, stopped,
  deleted, io_stopped, RunEnd, by_itself, by_signal, by_exception, endless, stuck_in_delete, Netlib,
  HttpServer, takes_files, options_of, create, Started, gave, threw, stuck, Prepared, ready, ends,
  make_server, prepare, run, run_prepared, start, stop, logs,
}
use ipvshttpd.IpvsInterface.Life.{comes_up, init_outcome}
use ipvshttpd.IpvsInterface.{InitAnswers, Interface, init}
use ipvshttpd.Prelude.Bytes.{codes}
use ipvshttpd.Prelude.{
  Bool, true, false, not, ◌&&◌, List, [], ◌∷◌, ◌++◌, append_assoc, append-nil, ◌≡◌, refl, sym, ap,
  ◌∙◌, if◌then◌else◌,
}
use mathlib.Core.Path.{subst}

-- What a run does to its server, by how it ends.
abbrev pub run_events : RunEnd → List ServerEvent
run_events by_itself = run_entered ∷ (run_left ∷ (io_stopped ∷ []))
run_events by_signal = run_entered ∷ (stopped ∷ (deleted ∷ (run_left ∷ (io_stopped ∷ []))))
run_events by_exception = run_entered ∷ (run_threw ∷ [])
run_events endless = run_entered ∷ []
run_events stuck_in_delete = run_entered ∷ (stopped ∷ [])

abbrev pub run_result : RunEnd → Started
run_result by_itself = gave true
run_result by_signal = gave true
run_result by_exception = threw
run_result endless = stuck
run_result stuck_in_delete = stuck

-- Whether the pointer still holds the server where `start` has come to.
abbrev pub left_held : RunEnd → Bool
left_held by_itself = true
left_held by_signal = false
left_held by_exception = true
left_held endless = true
left_held stuck_in_delete = true

-- An end of `start`: its result, what it has done to servers, whether the object holds one, and the mutex.
pub record Ran (before events : List ServerEvent) (held : Bool) (r : Started)
    (x : HttpServer × Started) : Type 0 where
  pub result : x.1 ≡ r
  pub did : x.0.events ≡ before ++ events
  pub holds : x.0.has_server ≡ held
  pub frees : x.0.ipvs_locked ≡ false

run-Ran :
    (e : RunEnd) (s : HttpServer)
    → s.has_server ≡ true
    → s.ipvs_locked ≡ false
    → Ran s.events (run_events e) (left_held e) (run_result e) (run e s)
unfolding run stop
run-Ran by_itself s h f = record { result = refl; did = simp append_assoc; holds = h; frees = f }
run-Ran by_signal s h f = record {
  result = refl;
  did = simp (h, append_assoc);
  holds = simp h;
  frees = simp (h, f);
}
run-Ran by_exception s h f = record { result = refl; did = simp append_assoc; holds = h; frees = f }
run-Ran endless s h f = record { result = refl; did = refl; holds = h; frees = f }
run-Ran stuck_in_delete s h f = record {
  result = refl;
  did = simp append_assoc;
  holds = h;
  frees = f;
}

-- Whether the files and the options are taken.
abbrev pub can_make : Netlib → ServerOptions → Bool
can_make n o = takes_files n o.context && n.makes o

-- The result, the events, and whether a server is held: by whether libipvs came up, and whether a server
-- can be made.
abbrev pub result_of : Bool → Bool → RunEnd → Started
result_of false can e = gave false
result_of true false e = threw
result_of true true e = run_result e

abbrev pub events_of : Bool → Bool → RunEnd → ServerOptions → List ServerEvent
events_of false can e o = []
events_of true false e o = []
events_of true true e o = created o ∷ run_events e

abbrev pub held_of : Bool → Bool → RunEnd → Bool
held_of false can e = false
held_of true false e = false
held_of true true e = left_held e

abbrev pub Course :
    Bool → Bool → RunEnd → ServerOptions → List ServerEvent → HttpServer × Started → Type 0
Course up can e o before x =
    Ran before (events_of up can e o) (held_of up can e) (result_of up can e) x

-- A state without a server that `start` takes for another.
record Same (c : Config) (s t : HttpServer) : Type 0 where
  events : t.events ≡ s.events
  empty : t.has_server ≡ false
  free : t.ipvs_locked ≡ false
  options : options_of c t ≡ options_of c s

Same-if :
    (c : Config) (s : HttpServer) (b : Bool) (x y : HttpServer)
    → (b ≡ true → Same c s x)
    → Same c s y
    → Same c s (if b then x else y)
Same-if c s true x y hx hy = hx refl
Same-if c s false x y hx hy = hy

made_at :
    (e : RunEnd) (c : Config) (s t : HttpServer)
    → Same c s t
    → (files makes : Bool)
    → Course true (files && makes) e (options_of c s) s.events (
        run_prepared e (
          if not files
          then ends t threw
          else if not makes
          then ends t threw
          else ready (create c t)))
made_at e c s t same false makes = record {
  result = refl;
  did = same.events ∙ sym (append-nil _);
  holds = same.empty;
  frees = same.free;
}
made_at e c s t same true false = record {
  result = refl;
  did = same.events ∙ sym (append-nil _);
  holds = same.empty;
  frees = same.free;
}
made_at e c s t same true true =
    let r = run-Ran e (create c t) refl same.free in
    record {
      result = r.result;
      did =
          r.did
          ∙ append_assoc t.events (created (options_of c t) ∷ []) (run_events e)
          ∙ ap (λ es. es ++ created (options_of c t) ∷ run_events e) same.events
          ∙ ap (λ o. s.events ++ created o ∷ run_events e) same.options;
      holds = r.holds;
      frees = r.frees;
    }

made :
    (n : Netlib) (c : Config) (s : HttpServer)
    → s.has_server ≡ false
    → s.ipvs_locked ≡ false
    → Course true
        (can_make n (options_of c s))
        n.run_end
        (options_of c s)
        s.events
        (run_prepared n.run_end (make_server n c s))
unfolding make_server
made n c s h f =
    let s' : HttpServer = if s.has_server then stop s else s in
    let s'' : HttpServer = if c.use_ssl then logs (codes "Enabling SSL.") s' else s' in
    let itself : Same c s s = record { events = refl; empty = h; free = f; options = refl } in
    let same' : Same c s s' = Same-if c s s.has_server (stop s) s (λ held. cc) itself in
    let same : Same c s s'' =
      Same-if c s c.use_ssl _ s'
        (λ _. record {
          events = same'.events;
          empty = same'.empty;
          free = same'.free;
          options = same'.options;
        })
        same' in
    subst
      (λ o.
        Course true (takes_files n (ssl_files c) && n.makes o) n.run_end (options_of c s) s.events
          (run_prepared n.run_end (make_server n c s)))
      same.options
      (made_at n.run_end c s s'' same (takes_files n (ssl_files c)) (n.makes (options_of c s'')))

init_course :
    (n : Netlib) (c : Config) (s : HttpServer) (i : Interface) (up : Bool)
    → s.has_server ≡ false
    → Course up (can_make n (options_of c s)) n.run_end (options_of c s) s.events (
        run_prepared n.run_end (
          let tried = record s { interface = i; ipvs_locked = false } in
          if up then make_server n c tried else ends tried (gave false)))
init_course n c s i true h = made n c (record s { interface = i; ipvs_locked = false }) h refl
init_course n c s i false h = record {
  result = refl;
  did = sym (append-nil _);
  holds = h;
  frees = refl;
}

unlocked :
    (Q : Prepared → Type 0) (b : Bool) (x y : Prepared) → b ≡ false → Q y → Q (if b then x else y)
unlocked Q true x y h q = cc
unlocked Q false x y h q = q

-- With no server held and the IPVS mutex free: if libipvs does not come up, `start` answers false and
-- does nothing to a server. If it does and a file or the options are refused, an exception leaves
-- `start`, and there is no server. Else one server is created, with the object's address, port and
-- threads and the SSL files of the configuration, and run: where a signal ends the run, it is deleted
-- before its `run` has returned, and where an exception does, that leaves `start` and the server is
-- still held; a run that never returns keeps `start` with it. On every branch the mutex is free.
pub start_course :
    (a : InitAnswers) (n : Netlib) (c : Config) (s : HttpServer)
    → s.has_server ≡ false
    → s.ipvs_locked ≡ false
    → Course
        (comes_up a)
        (can_make n (options_of c s))
        n.run_end
        (options_of c s)
        s.events
        (start a n c s)
unfolding start prepare
start_course a n c s h f =
    subst
      (λ b.
        Course b (can_make n (options_of c s)) n.run_end (options_of c s) s.events (start a n c s))
      (init_outcome a s.interface).0
      (unlocked
        (λ p.
          Course (init a s.interface).1 (can_make n (options_of c s)) n.run_end (options_of c s)
            s.events (run_prepared n.run_end p))
        s.ipvs_locked _ _ f (init_course n c s (init a s.interface).0 (init a s.interface).1 h))
