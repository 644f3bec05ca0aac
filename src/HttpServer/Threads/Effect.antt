-- ===== src/HttpServer/Threads/Effect.antt =====
-- What one step of one handler of src/http_server.cpp does to what the handlers share.
use ipvshttpd.Configuration.{Config}
use ipvshttpd.HttpServer.Post.Outcome.Passing.{Cleared-Asked}
use ipvshttpd.HttpServer.Post.Outcome.{Authorized, Asked}
use ipvshttpd.HttpServer.Post.{Json, Response, World}
use ipvshttpd.HttpServer.Threads.Locals.{
  held, in_config, in_ipvs, answered, obeyed, IsTrue, judged-Cleared,
}
use ipvshttpd.HttpServer.Threads.Moves.{
  Moves, locks_config, copies, logs_key, logs_vip, unlocks_config, rejects, throws_out, proceeds,
  locks_ipvs, converts, fails, applies, answers_ok, answers_error, logs_failure, logs_reason,
  unlocks_ipvs,
}
use ipvshttpd.HttpServer.Threads.{
  Pc, arrived, reading, copied, logged_key, logged_vip, checking, wanting, converting, applying,
  answering, reported, failure_reported, unlocking, done, crashed, crashed_locked,
}
use ipvshttpd.IpvsInterface.Weight.Outcome.{weight_calls}
use ipvshttpd.IpvsInterface.{set_weight}
use ipvshttpd.Libipvs.{Net, Service, Dest}
use ipvshttpd.Logging.{Logger}
use ipvshttpd.Prelude.Bytes.{Bytes}
use ipvshttpd.Prelude.Int.{ℤ}
use ipvshttpd.Prelude.{
  ◌+◌, ◌≤◌, Bool, true, false, List, [], ◌∷◌, ◌++◌, ◌≡◌, refl, arith, length, length-append,
}

released : (b : Bool) → 1 ≤ held b → 0 + held b ≡ 1
released true h = refl
released false h = absurd (omega arith)

module _ (net : Net) (json : Json) where
  open json use {Value, as_text, as_int}

  -- The calls that a step adds: none, or those of one authorized update.
  pub data Calls (c : Config) (request : Bytes) (cs cs' : List (Service × Dest)) : Type 0 where
    same_calls : cs' ≡ cs → Calls c request cs cs'
    more_calls :
        (a : Authorized net json request c.api_key) (server : Bytes) (weight : ℤ) (g : Logger)
        → Asked net json a.root server weight
        → cs' ≡ cs ++ (set_weight net c.vip server weight g).calls
        → Calls c request cs cs'

  -- A step of a handler at `p`, in a world where it holds the mutexes that it thinks it holds.
  pub record Effect (request : Bytes) (p p' : Pc net json) (w w' : World) : Type 0 where
    pub config_kept : w'.config ≡ w.config
    pub config_moved :
        in_config net json p' + held w.config_locked ≡ in_config net json p + held w'.config_locked
    pub ipvs_moved :
        in_ipvs net json p' + held w.ipvs_locked ≡ in_ipvs net json p + held w'.ipvs_locked
    pub answer_counted :
        length w'.responses + answered net json p ≡ length w.responses + answered net json p'
    pub calls_counted : length w'.calls + obeyed net json p ≤ length w.calls + obeyed net json p'
    pub locals_true : IsTrue net json w.config request p'
    pub calls_made : Calls w.config request w.calls w'.calls

  module _ (request : Bytes) (w : World) where
    -- A step that sends nothing and calls nothing.
    moves :
        (p p' : Pc net json) (w' : World)
        → w'.config ≡ w.config
        → in_config net json p' + held w.config_locked
          ≡ in_config net json p + held w'.config_locked
        → in_ipvs net json p' + held w.ipvs_locked ≡ in_ipvs net json p + held w'.ipvs_locked
        → w'.responses ≡ w.responses
        → w'.calls ≡ w.calls
        → answered net json p' ≡ answered net json p
        → obeyed net json p' ≡ obeyed net json p
        → IsTrue net json w.config request p'
        → Effect request p p' w w'
    moves p p' w' c cm im r cs an ob t = record {
      config_kept = c;
      config_moved = cm;
      ipvs_moved = im;
      answer_counted = rw (r, an) refl;
      calls_counted = rw (cs, ob) (omega arith);
      locals_true = t;
      calls_made = same_calls cs;
    }

    -- One that changes neither mutex as well.
    quiet :
        (p p' : Pc net json) (w' : World)
        → w'.config ≡ w.config
        → w'.config_locked ≡ w.config_locked
        → w'.ipvs_locked ≡ w.ipvs_locked
        → w'.responses ≡ w.responses
        → w'.calls ≡ w.calls
        → in_config net json p' ≡ in_config net json p
        → in_ipvs net json p' ≡ in_ipvs net json p
        → answered net json p' ≡ answered net json p
        → obeyed net json p' ≡ obeyed net json p
        → IsTrue net json w.config request p'
        → Effect request p p' w w'
    quiet p p' w' c cl il r cs ic ii an ob t =
        moves p p' w' c (rw (cl, ic) refl) (rw (il, ii) refl) r cs an ob t

    -- Behind a step that sends one response.
    sends :
        (p p' : Pc net json) (w' : World)
        → w'.config ≡ w.config
        → w'.config_locked ≡ w.config_locked
        → w'.ipvs_locked ≡ w.ipvs_locked
        → length w'.responses ≡ length w.responses + 1
        → w'.calls ≡ w.calls
        → in_config net json p' ≡ in_config net json p
        → in_ipvs net json p' ≡ in_ipvs net json p
        → answered net json p' ≡ answered net json p + 1
        → obeyed net json p ≤ obeyed net json p'
        → IsTrue net json w.config request p'
        → Effect request p p' w w'
    sends p p' w' c cl il r cs ic ii an ob t = record {
      config_kept = c;
      config_moved = rw (cl, ic) refl;
      ipvs_moved = rw (il, ii) refl;
      answer_counted = omega arith;
      calls_counted = rw cs (omega arith);
      locals_true = t;
      calls_made = same_calls cs;
    }

    one_more : (r : Response) → length (w.responses ++ r ∷ []) ≡ length w.responses + 1
    one_more r = length-append w.responses (r ∷ [])

    -- The step that calls libipvs.
    applied :
        (s : Bytes) (n : ℤ) (v : Bytes)
        → IsTrue net json w.config request (applying s n v)
        → Effect request
            (applying s n v)
            (answering (set_weight net v s n w.logger).success)
            w
            (record w {
              calls = w.calls ++ (set_weight net v s n w.logger).calls;
              logger = (set_weight net v s n w.logger).logger;
            })
    applied s n v t = record {
      config_kept = refl;
      config_moved = refl;
      ipvs_moved = refl;
      answer_counted = refl;
      calls_counted = omega (
        arith,
        length-append w.calls (set_weight net v s n w.logger).calls,
        weight_calls net v s n w.logger,
      );
      locals_true = tt;
      calls_made = more_calls t.0.0 s n w.logger t.0.1 (rw t.1 refl);
    }

    pub effect :
        {w' : World} {p p' : Pc net json}
        → Moves net json request w p w' p'
        → IsTrue net json w.config request p
        → in_config net json p ≤ held w.config_locked
        → in_ipvs net json p ≤ held w.ipvs_locked
        → Effect request p p' w w'
    effect (locks_config free) t hc hi =
        moves arrived reading _ refl (rw free refl) refl refl refl refl refl tt
    effect copies t hc hi =
        quiet reading _ w refl refl refl refl refl refl refl refl refl (refl, refl)
    effect (logs_key k v) t hc hi =
        quiet (copied k v) _ _ refl refl refl refl refl refl refl refl refl t
    effect (logs_vip k v) t hc hi =
        quiet (logged_key k v) _ _ refl refl refl refl refl refl refl refl refl t
    effect (unlocks_config k v) t hc hi =
        moves (logged_vip k v) (checking k v) _ refl (released w.config_locked hc) refl refl refl
          refl refl t
    effect (rejects k v reason status e) t hc hi =
        sends (checking k v) (reported reason) _ refl refl refl (one_more _) refl refl refl refl
          (omega arith) tt
    effect (throws_out k v e) t hc hi =
        quiet (checking k v) crashed w refl refl refl refl refl refl refl refl refl tt
    effect (proceeds k v h n e) t hc hi =
        quiet (checking k v) (wanting h n v) w refl refl refl refl refl refl refl refl refl
          (judged-Cleared net json request w.config.api_key t.0 e, t.1)
    effect (locks_ipvs h n v free) t hc hi =
        moves (wanting h n v) (converting h n v) _ refl refl (rw free refl) refl refl refl refl t
    effect (converts h n v s m et en) t hc hi =
        quiet (converting h n v) (applying s m v) w refl refl refl refl refl refl refl refl refl
          ((t.0.auth, Cleared-Asked net json t.0 et en), t.1)
    effect (fails h n v e) t hc hi =
        quiet (converting h n v) crashed_locked w refl refl refl refl refl refl refl refl refl tt
    effect (applies s n v) t hc hi = applied s n v t
    effect answers_ok t hc hi =
        sends (answering true) unlocking _ refl refl refl (one_more _) refl refl refl refl
          (omega arith) tt
    effect (logs_reason reason) t hc hi =
        quiet (reported reason) done _ refl refl refl refl refl refl refl refl refl tt
    effect logs_failure t hc hi =
        quiet failure_reported unlocking _ refl refl refl refl refl refl refl refl refl tt
    effect answers_error t hc hi =
        sends (answering false) failure_reported _ refl refl refl (one_more _) refl refl refl refl
          (omega arith) tt
    effect unlocks_ipvs t hc hi =
        moves unlocking done _ refl refl (released w.ipvs_locked hi) refl refl refl refl tt
