-- ===== src/HttpServer/Threads.antt =====
-- The handlers of src/http_server.cpp on the threads of the pool: `handle_post_request` cut at each lock
-- operation and each access to what the threads share, and any number of such handlers in any order.
-- No step changes the configuration, which is loaded before the server starts.
pub mod Alone
pub mod Moves
pub mod Locals
pub mod Effect
pub mod Invariant
pub mod Safety
pub mod Exceptions
pub mod Progress
pub mod Termination
pub mod Schedule
pub mod Avoidance
pub mod Completion
pub mod Answered
pub mod Refinement
pub mod Owed
use ipvshttpd.HttpServer.Post.{
  Json, Status, ok, bad_request, unauthorized, internal_server_error, World, Ended, returned,
  thrown, blocked, respond, ok_text, error_text,
}
use ipvshttpd.IpvsInterface.{set_weight}
use ipvshttpd.Libipvs.{Net}
use ipvshttpd.Logging.{log_error, log_message}
use ipvshttpd.Prelude.Bytes.{Bytes, codes}
use ipvshttpd.Prelude.Int.{ℤ}
use ipvshttpd.Prelude.{
  ℕ, zero, suc, Bool, true, false, not, List, [], ◌∷◌, ◌++◌, Option, none, some, ◌≡◌, if◌then◌else◌,
}

module _ (net : Net) (json : Json) where
  open json use {Value, parse, index, is_null, ne_text, is_int, as_text, as_int}

  -- What the checks say: an error to report, an exception, or the two values to use.
  pub data Verdict : Type 0 where
    reject : Bytes → Status → Verdict
    throws : Verdict
    proceed : Value → Value → Verdict

  unfoldable pub judge_kernels : Value → Value → Verdict
  judge_kernels hostname kernels =
      if is_null kernels
      then reject (codes "No available_kernels specified.") bad_request
      else if not (is_int kernels)
      then reject (codes "available_kernels needs to be an integer value.") bad_request
      else proceed hostname kernels

  unfoldable pub judge_host : Value → Value → Verdict
  unfolding judge_kernels
  judge_host root hostname =
      if is_null hostname
      then reject (codes "No host specified.") bad_request
      else elim (index root (codes "available_kernels")) [
        | none ↦ throws
        | some kernels ↦ judge_kernels hostname kernels
      ]

  unfoldable pub judge_key : Value → Value → Bytes → Verdict
  unfolding judge_host
  judge_key root key api_key =
      if is_null key
      then reject (codes "Missing API key.") unauthorized
      else if ne_text key api_key
      then reject (codes "Invalid API key.") unauthorized
      else elim (index root (codes "host")) [
        | none ↦ throws
        | some hostname ↦ judge_host root hostname
      ]

  unfoldable pub judge_parsed : Option Value → Bytes → Verdict
  unfolding judge_key
  judge_parsed none api_key = reject (codes "Could not parse JSON.") bad_request
  judge_parsed (some root) api_key = elim (index root (codes "api_key")) [
    | none ↦ throws
    | some key ↦ judge_key root key api_key
  ]

  -- The checks between the two mutexes, which read only the request and the handler's own copies.
  unfoldable pub judge : Bytes → Bytes → Verdict
  unfolding judge_parsed
  judge request api_key = judge_parsed (parse request) api_key

  -- Where a handler stands, with the local variables that are live there.
  pub data Pc : Type 0 where
    arrived : Pc  -- before `configuration_mutex.lock()`
    reading : Pc
    copied : (api_key vip : Bytes) → Pc
    logged_key : (api_key vip : Bytes) → Pc
    logged_vip : (api_key vip : Bytes) → Pc  -- before `configuration_mutex.unlock()`
    checking : (api_key vip : Bytes) → Pc
    reported : (reason : Bytes) → Pc  -- the error is sent, and still to be logged
    wanting : (hostname kernels : Value) (vip : Bytes) → Pc  -- before `ipvs_mutex.lock()`
    converting : (hostname kernels : Value) (vip : Bytes) → Pc
    applying : (server : Bytes) (weight : ℤ) (vip : Bytes) → Pc
    answering : (success : Bool) → Pc
    failure_reported : Pc  -- the error is sent, and still to be logged
    unlocking : Pc  -- before `ipvs_mutex.unlock()`
    done : Pc
    crashed : Pc  -- an exception has left the handler
    crashed_locked : Pc  -- the same, with `ipvs_mutex` held

  pub record Thread : Type 0 where
    pub request : Bytes
    pub pc : Pc

  -- Behind the checks: an error is sent, an exception thrown, or the handler goes on.
  abbrev pub obey : Verdict → Bytes → World → World × Pc
  obey (reject reason status) vip w = (respond status (error_text reason) w, reported reason)
  obey throws vip w = (w, crashed)
  obey (proceed hostname kernels) vip w = (w, wanting hostname kernels vip)

  abbrev pub converted : Option Bytes → Option ℤ → Bytes → Pc
  converted none weight vip = crashed_locked
  converted (some server) none vip = crashed_locked
  converted (some server) (some weight) vip = applying server weight vip

  unfoldable pub update_step : Bytes → ℤ → Bytes → World → World × Pc
  update_step server weight vip w =
      let r = set_weight net vip server weight w.logger in
      (record w { calls = w.calls ++ r.calls; logger = r.logger }, answering r.success)

  unfoldable pub answer_step : Bool → World → World × Pc
  answer_step true w = (respond ok ok_text w, unlocking)
  answer_step false w = (
    respond internal_server_error (error_text (codes "Could not set weight.")) w,
    failure_reported,
  )

  -- One step of one handler; none where it has ended, or waits for a mutex that is taken.
  unfoldable pub step_pc : Bytes → Pc → World → Option (World × Pc)
  unfolding judge update_step answer_step
  step_pc request arrived w =
      if w.config_locked then none else some (record w { config_locked = true }, reading)
  step_pc request reading w = some (w, copied w.config.api_key w.config.vip)
  step_pc request (copied api_key vip) w = some (
    record w { logger = log_message (codes "api key : " ++ api_key) w.logger },
    logged_key api_key vip,
  )
  step_pc request (logged_key api_key vip) w =
      some
        (record w { logger = log_message (codes "vip : " ++ vip) w.logger }, logged_vip api_key vip)
  step_pc request (logged_vip api_key vip) w =
      some (record w { config_locked = false }, checking api_key vip)
  step_pc request (checking api_key vip) w = some (obey (judge request api_key) vip w)
  step_pc request (reported reason) w = some (record w { logger = log_error reason w.logger }, done)
  step_pc request (wanting hostname kernels vip) w =
      if w.ipvs_locked
      then none
      else some (record w { ipvs_locked = true }, converting hostname kernels vip)
  step_pc request (converting hostname kernels vip) w =
      some (w, converted (as_text hostname) (as_int kernels) vip)
  step_pc request (applying server weight vip) w = some (update_step server weight vip w)
  step_pc request (answering success) w = some (answer_step success w)
  step_pc request failure_reported w =
      some (record w { logger = log_error (codes "Could not set weight.") w.logger }, unlocking)
  step_pc request unlocking w = some (record w { ipvs_locked = false }, done)
  step_pc request done w = none
  step_pc request crashed w = none
  step_pc request crashed_locked w = none

  -- The handlers and what they share.
  pub record Pool : Type 0 where
    pub world : World
    pub threads : List Thread

  -- The scheduler picks a handler that can go on.
  pub data Step (s t : Pool) : Type 0 where
    pick :
        (before after : List Thread) (request : Bytes) (p p' : Pc) (w' : World)
        → s.threads ≡ before ++ record { request = request; pc = p } ∷ after
        → step_pc request p s.world ≡ some (w', p')
        → t
          ≡ record { world = w'; threads = before ++ record { request = request; pc = p' } ∷ after }
        → Step s t

  pub data Reach (s : Pool) : Pool → Type 0 where
    here : Reach s s
    next : {t u : Pool} → Reach s t → Step t u → Reach s u

  abbrev pub arrivals : List Bytes → List Thread
  arrivals [] = []
  arrivals (r ∷ rs) = record { request = r; pc = arrived } ∷ arrivals rs

  -- The pool when the requests have been read and no handler has begun.
  abbrev pub opening : World → List Bytes → Pool
  opening w requests = record { world = w; threads = arrivals requests }
