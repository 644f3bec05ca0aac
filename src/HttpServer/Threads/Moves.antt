-- ===== src/HttpServer/Threads/Moves.antt =====
-- The steps of one handler of src/http_server.cpp as a relation: one constructor for each step that
-- `step_pc` can make.
use ipvshttpd.HttpServer.Post.{
  Json, Status, ok, internal_server_error, World, respond, ok_text, error_text,
}
use ipvshttpd.HttpServer.Threads.{
  Verdict, reject, throws, proceed, judge, Pc, arrived, reading, copied, logged_key, logged_vip,
  checking, reported, failure_reported, wanting, converting, applying, answering, unlocking, done,
  crashed, crashed_locked, obey, converted, update_step, answer_step, step_pc,
}
use ipvshttpd.IpvsInterface.{set_weight}
use ipvshttpd.Libipvs.{Net}
use ipvshttpd.Logging.{log_error, log_message}
use ipvshttpd.Prelude.Bytes.{Bytes, codes}
use ipvshttpd.Prelude.Int.{ℤ}
use ipvshttpd.Prelude.{true, false, ◌++◌, Option, none, some, ◌≡◌, refl, ◌⊎◌, inl, inr, Bool-cases}
use mathlib.Core.Path.{subst}

module _ (net : Net) (json : Json) where
  open json use {Value, as_text, as_int}

  pub data Moves (request : Bytes) (w : World) : Pc net json → World → Pc net json → Type 0 where
    locks_config :
        w.config_locked ≡ false
        → Moves request w arrived (record w { config_locked = true }) reading
    copies : Moves request w reading w (copied w.config.api_key w.config.vip)
    logs_key :
        (k v : Bytes)
        → Moves request w
            (copied k v)
            (record w { logger = log_message (codes "api key : " ++ k) w.logger })
            (logged_key k v)
    logs_vip :
        (k v : Bytes)
        → Moves request w
            (logged_key k v)
            (record w { logger = log_message (codes "vip : " ++ v) w.logger })
            (logged_vip k v)
    unlocks_config :
        (k v : Bytes)
        → Moves request w (logged_vip k v) (record w { config_locked = false }) (checking k v)
    rejects :
        (k v reason : Bytes) (status : Status)
        → judge net json request k ≡ reject reason status
        → Moves request w (checking k v) (respond status (error_text reason) w) (reported reason)
    logs_reason :
        (reason : Bytes)
        → Moves request w (reported reason) (record w { logger = log_error reason w.logger }) done
    throws_out :
        (k v : Bytes) → judge net json request k ≡ throws → Moves request w (checking k v) w crashed
    proceeds :
        (k v : Bytes) (h n : Value)
        → judge net json request k ≡ proceed h n
        → Moves request w (checking k v) w (wanting h n v)
    locks_ipvs :
        (h n : Value) (v : Bytes)
        → w.ipvs_locked ≡ false
        → Moves request w (wanting h n v) (record w { ipvs_locked = true }) (converting h n v)
    converts :
        (h n : Value) (v server : Bytes) (weight : ℤ)
        → as_text h ≡ some server
        → as_int n ≡ some weight
        → Moves request w (converting h n v) w (applying server weight v)
    fails :
        (h n : Value) (v : Bytes)
        → (as_text h ≡ none) ⊎ (as_int n ≡ none)
        → Moves request w (converting h n v) w crashed_locked
    applies :
        (s : Bytes) (n : ℤ) (v : Bytes)
        → Moves request w
            (applying s n v)
            (record w {
              calls = w.calls ++ (set_weight net v s n w.logger).calls;
              logger = (set_weight net v s n w.logger).logger;
            })
            (answering (set_weight net v s n w.logger).success)
    answers_ok : Moves request w (answering true) (respond ok ok_text w) unlocking
    answers_error :
        Moves request w
          (answering false)
          (respond internal_server_error (error_text (codes "Could not set weight.")) w)
          failure_reported
    logs_failure :
        Moves request w failure_reported
          (record w { logger = log_error (codes "Could not set weight.") w.logger })
          unlocking
    unlocks_ipvs : Moves request w unlocking (record w { ipvs_locked = false }) done

  abbrev MovesTo : Bytes → World → Pc net json → Option (World × Pc net json) → Type 0
  MovesTo request w p none = Unit
  MovesTo request w p (some (w', p')) = Moves request w p w' p'

  obey-MovesTo :
      (request : Bytes) (w : World) (k v : Bytes) (j : Verdict net json)
      → judge net json request k ≡ j
      → MovesTo request w (checking k v) (some (obey net json j v w))
  obey-MovesTo request w k v (reject reason status) e = rejects k v reason status e
  obey-MovesTo request w k v throws e = throws_out k v e
  obey-MovesTo request w k v (proceed h n) e = proceeds k v h n e

  converted-Moves :
      (request : Bytes) (w : World) (h n : Value) (v : Bytes) (text : Option Bytes)
      (number : Option ℤ)
      → as_text h ≡ text
      → as_int n ≡ number
      → Moves request w (converting h n v) w (converted net json text number v)
  converted-Moves request w h n v none number et en = fails h n v (inl et)
  converted-Moves request w h n v (some s) none et en = fails h n v (inr en)
  converted-Moves request w h n v (some s) (some m) et en = converts h n v s m et en

  step_pc-MovesTo :
      (request : Bytes) (w : World) (p : Pc net json)
      → MovesTo request w p (step_pc net json request p w)
  unfolding step_pc update_step answer_step
  step_pc-MovesTo request w arrived = elim (Bool-cases w.config_locked) [
    | inl e ↦ simp e tt
    | inr e ↦ simp e (locks_config e)
  ]
  step_pc-MovesTo request w reading = copies
  step_pc-MovesTo request w (copied k v) = logs_key k v
  step_pc-MovesTo request w (logged_key k v) = logs_vip k v
  step_pc-MovesTo request w (logged_vip k v) = unlocks_config k v
  step_pc-MovesTo request w (checking k v) =
      obey-MovesTo request w k v (judge net json request k) refl
  step_pc-MovesTo request w (wanting h n v) = elim (Bool-cases w.ipvs_locked) [
    | inl e ↦ simp e tt
    | inr e ↦ simp e (locks_ipvs h n v e)
  ]
  step_pc-MovesTo request w (converting h n v) =
      converted-Moves request w h n v (as_text h) (as_int n) refl refl
  step_pc-MovesTo request w (applying s n v) = applies s n v
  step_pc-MovesTo request w (answering true) = answers_ok
  step_pc-MovesTo request w (answering false) = answers_error
  step_pc-MovesTo request w failure_reported = logs_failure
  step_pc-MovesTo request w (reported reason) = logs_reason reason
  step_pc-MovesTo request w unlocking = unlocks_ipvs
  step_pc-MovesTo request w done = tt
  step_pc-MovesTo request w crashed = tt
  step_pc-MovesTo request w crashed_locked = tt

  -- Each step is one of these.
  pub step_pc-Moves :
      {request : Bytes} {w w' : World} {p p' : Pc net json}
      → step_pc net json request p w ≡ some (w', p')
      → Moves request w p w' p'
  step_pc-Moves {request} {w} {p = p} e =
      subst (MovesTo request w p) e (step_pc-MovesTo request w p)
