-- ===== src/HttpServer/Threads/Termination.antt =====
-- How many steps the handlers of src/http_server.cpp can take.
use ipvshttpd.HttpServer.Post.{Json, World}
use ipvshttpd.HttpServer.Threads.Invariant.{total, total-append}
use ipvshttpd.HttpServer.Threads.Moves.{
  Moves, locks_config, copies, logs_key, logs_vip, unlocks_config, rejects, throws_out, proceeds,
  locks_ipvs, converts, fails, applies, answers_ok, answers_error, logs_failure, logs_reason,
  unlocks_ipvs, step_pc-Moves,
}
use ipvshttpd.HttpServer.Threads.{
  Pc, arrived, reading, copied, logged_key, logged_vip, checking, wanting, converting, applying,
  answering, reported, failure_reported, unlocking, Pool, Step, pick, Reach, here, next, arrivals,
  opening,
}
use ipvshttpd.Libipvs.{Net}
use ipvshttpd.Prelude.Bytes.{Bytes}
use ipvshttpd.Prelude.{ℕ, suc, ◌+◌, ◌*◌, ◌≤◌, ◌<◌, List, [], ◌∷◌, ◌≡◌, refl, ap, arith, length}

module _ (net : Net) (json : Json) where
  open json use {Value}

  -- The steps that a handler has still to take, at most.
  abbrev pub steps_left : Pc net json → ℕ
  steps_left arrived = 12
  steps_left reading = 11
  steps_left (copied k v) = 10
  steps_left (logged_key k v) = 9
  steps_left (logged_vip k v) = 8
  steps_left (checking k v) = 7
  steps_left (reported reason) = 1
  steps_left (wanting h k v) = 6
  steps_left (converting h k v) = 5
  steps_left (applying n m v) = 4
  steps_left (answering b) = 3
  steps_left failure_reported = 2
  steps_left unlocking = 1
  steps_left _ = 0

  Moves-fewer :
      {request : Bytes} {w w' : World} {p p' : Pc net json}
      → Moves net json request w p w' p'
      → steps_left p' < steps_left p
  Moves-fewer (locks_config free) = omega arith
  Moves-fewer copies = omega arith
  Moves-fewer (logs_key k v) = omega arith
  Moves-fewer (logs_vip k v) = omega arith
  Moves-fewer (unlocks_config k v) = omega arith
  Moves-fewer (rejects k v reason status e) = omega arith
  Moves-fewer (throws_out k v e) = omega arith
  Moves-fewer (proceeds k v h n e) = omega arith
  Moves-fewer (locks_ipvs h n v free) = omega arith
  Moves-fewer (converts h n v s m et en) = omega arith
  Moves-fewer (fails h n v e) = omega arith
  Moves-fewer (applies s n v) = omega arith
  Moves-fewer answers_ok = omega arith
  Moves-fewer answers_error = omega arith
  Moves-fewer logs_failure = omega arith
  Moves-fewer (logs_reason reason) = omega arith
  Moves-fewer unlocks_ipvs = omega arith

  pub Step-total :
      {s t : Pool net json}
      → Step net json s t
      → total net json steps_left t.threads < total net json steps_left s.threads
  Step-total {s} {t} (pick before after request p p' w' es e et) =
      let at = λ (x : Pc net json).
        total-append net json steps_left before (record { request = request; pc = x } ∷ after) in
      omega (
        arith,
        at p,
        at p',
        Moves-fewer (step_pc-Moves net json e),
        ap (total net json steps_left) es,
        ap (λ u. total net json steps_left u.threads) et,
      )

  -- The steps of a run.
  abbrev pub steps : {s t : Pool net json} → Reach net json s t → ℕ
  steps here = 0
  steps (next r st) = suc (steps r)

  Reach-total :
      {s t : Pool net json} (r : Reach net json s t)
      → steps r + total net json steps_left t.threads ≤ total net json steps_left s.threads
  Reach-total here = omega arith
  Reach-total (next r st) = omega (arith, Reach-total r, Step-total st)

  arrivals_steps :
      (rs : List Bytes) → total net json steps_left (arrivals net json rs) ≡ 12 * length rs
  arrivals_steps [] = refl
  arrivals_steps (r ∷ rs) = omega (arith, arrivals_steps rs)

  -- A run of the handlers of any number of requests, in whatever order they take their turns, takes at most
  -- twelve steps for each request.
  pub bounded_run :
      (w : World) (requests : List Bytes) {s : Pool net json}
      (r : Reach net json (opening net json w requests) s)
      → steps r ≤ 12 * length requests
  bounded_run w requests r = omega (arith, Reach-total r, arrivals_steps requests)
