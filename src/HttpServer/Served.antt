-- ===== src/HttpServer/Served.antt =====
-- The handlers of src/http_server.cpp behind its `http_server::start`.
use ipvshttpd.Configuration.{Config}
use ipvshttpd.HttpServer.Post.{Json, World}
use ipvshttpd.HttpServer.Server.Keeping.{IsKept, PreparedWith, either_prepared, make_server_keep}
use ipvshttpd.HttpServer.Server.{
  Netlib, HttpServer, logs, Prepared, ready, ends, gave, stuck, make_server, prepare,
}
use ipvshttpd.HttpServer.Threads.Answered.{IsSmooth, Answers, halted-Answers, finishes}
use ipvshttpd.HttpServer.Threads.Completion.{Reach-trans}
use ipvshttpd.HttpServer.Threads.Owed.{all_asks, owed_done, Reach-account}
use ipvshttpd.HttpServer.Threads.{Pool, Step, Reach, opening, done}
use ipvshttpd.IpvsInterface.{InitAnswers, init}
use ipvshttpd.Libipvs.{Net}
use ipvshttpd.Prelude.Bytes.{Bytes, codes}
use ipvshttpd.Prelude.{
  false, List, [], ◌++◌, append-nil, ◌≡◌, refl, sym, ap, ◌∙◌, arith, All, length, if◌then◌else◌,
}
use mathlib.Core.Path.{subst}
use mathlib.Mathlib.Data.Multiset.Defs.{of_list}

-- The world of the handlers when `run()` is entered.
abbrev pub handlers_world : Config → HttpServer → World
handlers_world c s = record {
  config = c;
  logger = (logs (codes "Server start.") s).interface.logger;
  config_locked = false;
  ipvs_locked = s.ipvs_locked;
  calls = [];
  responses = [];
}

IsFree : HttpServer → Type 0
IsFree s = s.ipvs_locked ≡ false

IsFree-IsKept : IsKept IsFree
unfolding IsFree
IsFree-IsKept = record {
  logs_keep = λ m s h. h;
  happens_keep = λ e s h. h;
  pointer_keep = λ b s h. h;
}

-- Where there is a server to be run, the mutex is free.
abbrev ReadyFree : Prepared → Type 0
ReadyFree (ready s) = s.ipvs_locked ≡ false
ReadyFree (ends s r) = Unit {0}

kept-ReadyFree : (p : Prepared) → PreparedWith IsFree p → ReadyFree p
unfolding IsFree
kept-ReadyFree (ready s) h = h
kept-ReadyFree (ends s r) h = tt

prepare-ReadyFree :
    (a : InitAnswers) (n : Netlib) (c : Config) (s : HttpServer) → ReadyFree (prepare a n c s)
unfolding prepare IsFree
prepare-ReadyFree a n c s =
    let tried : HttpServer = record s { interface = (init a s.interface).0; ipvs_locked = false } in
    let behind_init : Prepared =
      if (init a s.interface).1 then make_server n c tried else ends tried (gave false) in
    either_prepared ReadyFree s.ipvs_locked (ends s stuck) behind_init tt (
      either_prepared ReadyFree (init a s.interface).1 (make_server n c tried)
        (ends tried (gave false))
        (kept-ReadyFree (make_server n c tried)
          (make_server_keep IsFree IsFree-IsKept n c tried refl))
        tt)

module _ (net : Net) (json : Json) where
  -- Every request has been dealt with.
  pub record AllServed (w : World) (requests : List Bytes) (t : Pool net json) : Type 0 where
    pub all_done : All (λ h. h.pc ≡ done) t.threads
    pub one_each : length t.world.responses ≡ length requests
    pub updates : of_list t.world.calls ≡ of_list (all_asks net json w requests)
    pub config_free : t.world.config_locked ≡ false
    pub ipvs_free : t.world.ipvs_locked ≡ false

  module _ (a : InitAnswers) (n : Netlib) (c : Config) (s : HttpServer) {s' : HttpServer}
      (requests : List Bytes) (e : prepare a n c s ≡ ready s')
      (smooth : All (IsSmooth net json c.api_key) requests) where
    free : s'.ipvs_locked ≡ false
    free = subst ReadyFree e (prepare-ReadyFree a n c s)

    Answers-AllServed :
        {t : Pool net json}
        → Reach net json (opening net json (handlers_world c s') requests) t
        → Answers net json (handlers_world c s') requests smooth refl free t
        → AllServed (handlers_world c s') requests t
    Answers-AllServed {t} r h = record {
      all_done = h.all_done;
      one_each = h.one_each ∙ omega arith;
      updates =
          ap of_list (
            sym (append-nil t.world.calls)
            ∙ ap (λ l. t.world.calls ++ l)
                (sym (owed_done net json (handlers_world c s') t.threads h.all_done)))
          ∙ Reach-account net json (handlers_world c s') requests refl free r;
      config_free = h.config_free;
      ipvs_free = h.ipvs_free;
    }

    -- Behind a `start` that has come to its `run()`, which finds the IPVS mutex free since it has released
    -- it: whatever turns the handlers of a pool of requests take, if nothing in the handler throws at any
    -- of the requests, then, when no handler can go on, every handler has returned, exactly one response
    -- was sent for each request, the calls of libipvs are, in some order, exactly those that the requests
    -- ask for, and both mutexes are free.
    pub start-AllServed :
        {t : Pool net json}
        → Reach net json (opening net json (handlers_world c s') requests) t
        → ((t' : Pool net json) → ¬ Step net json t t')
        → AllServed (handlers_world c s') requests t
    start-AllServed r halted =
        Answers-AllServed r
          (halted-Answers net json (handlers_world c s') requests smooth refl free r halted)

    -- A later state of the pool in which every request has been dealt with.
    pub record Finishes (t : Pool net json) : Type 0 where
      pub final : Pool net json
      pub later : Reach net json t final
      pub dealt_with : AllServed (handlers_world c s') requests final

    -- From every state that the handlers of a pool come to behind a `start` that has come to its `run()`,
    -- whatever turns they have taken, they can go on to a state in which every handler has returned, with
    -- one response for each request, all calls of libipvs that the requests ask for and no others, and
    -- both mutexes free, if nothing in the handler throws at any of the requests.
    pub start-Finishes :
        {t : Pool net json}
        → Reach net json (opening net json (handlers_world c s') requests) t
        → Finishes t
    start-Finishes r =
        let (u, r', h) = finishes net json (handlers_world c s') requests smooth refl free r in
        record {
          final = u;
          later = r';
          dealt_with = Answers-AllServed (Reach-trans net json r r') h;
        }
