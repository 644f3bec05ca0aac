-- ===== src/HttpServer/Threads/Completion.antt =====
-- That the handlers of src/http_server.cpp come to an end, if no conversion throws behind the checks.
use ipvshttpd.Configuration.{Config}
use ipvshttpd.HttpServer.Post.{Json, World}
use ipvshttpd.HttpServer.Threads.Avoidance.{Step-avoids, Reach-avoids}
use ipvshttpd.HttpServer.Threads.Invariant.{total, Inv, Reach-Inv, Step-Inv}
use ipvshttpd.HttpServer.Post.Outcome.Passing.{Cleared}
use ipvshttpd.HttpServer.Threads.Locals.{IsTrue}
use ipvshttpd.HttpServer.Threads.Progress.Able.{ended_ℕ}
use ipvshttpd.HttpServer.Threads.Progress.{Inv-no_deadlock}
use ipvshttpd.HttpServer.Threads.Exceptions.{left_locked}
use ipvshttpd.HttpServer.Threads.Termination.{steps_left, Step-total}
use ipvshttpd.HttpServer.Threads.Moves.{Moves, fails}
use ipvshttpd.HttpServer.Threads.{Pc, converting, Pool, Step, Reach, here, next, opening}
use ipvshttpd.Libipvs.{Net}
use ipvshttpd.Prelude.Bytes.{Bytes}
use ipvshttpd.Prelude.Int.{ℤ}
use ipvshttpd.Prelude.{
  ℕ, zero, suc, ◌≤◌, false, List, none, some, ◌⊎◌, ◌≡◌, refl, inl, inr, arith, All,
}

module _ (net : Net) (json : Json) where
  open json use {Value, as_text, as_int}

  -- A request whose host has a text and whose number is in range, if it passes the checks.
  pub record IsTame (api_key request : Bytes) : Type 0 where
    pub host_converts :
        (h k : Value) → Cleared net json request api_key h k → (s : Bytes) × (as_text h ≡ some s)
    pub kernels_converts :
        (h k : Value) → Cleared net json request api_key h k → (n : ℤ) × (as_int k ≡ some n)

  -- A conversion that fails is that of a request that is not tame.
  pub tame_fails :
      (c : Config) {request : Bytes} {h n : Value} (v : Bytes)
      → IsTame c.api_key request
      → IsTrue net json c request (converting h n v)
      → ¬ ((as_text h ≡ none) ⊎ (as_int n ≡ none))
  tame_fails c {h = h} {n = n} v tame t (inl e) = cc (tame.host_converts h n t.0).1
  tame_fails c {h = h} {n = n} v tame t (inr e) = cc (tame.kernels_converts h n t.0).1

  tame_unlocked :
      (c : Config) {request : Bytes} {w w' : World} {p p' : Pc net json}
      → IsTame c.api_key request
      → IsTrue net json c request p
      → Moves net json request w p w' p'
      → left_locked net json p' ≡ 0
  tame_unlocked c tame t (fails h n v e) = absurd (tame_fails c v tame t e)
  tame_unlocked c tame t _ = refl

  pub Reach-trans :
      {s t u : Pool net json} → Reach net json s t → Reach net json t u → Reach net json s u
  Reach-trans r here = r
  Reach-trans r (next r' st) = next (Reach-trans r r') st

  -- All handlers have ended, in a later state.
  abbrev pub Completes : Pool net json → Type 0
  Completes s =
      (t : Pool net json) × Reach net json s t × (total net json (ended_ℕ net json) t.threads ≡ 0)

  module _ (w : World) (requests : List Bytes) (tame : All (IsTame w.config.api_key) requests) where
    Step-quiet :
        {s t : Pool net json}
        → Step net json s t
        → Inv net json w requests s
        → total net json (left_locked net json) s.threads ≡ 0
        → total net json (left_locked net json) t.threads ≡ 0
    Step-quiet =
        Step-avoids net json (left_locked net json) (IsTame w.config.api_key) w requests tame
          (λ v v' request p p'. tame_unlocked w.config)

    Reach-quiet :
        {s : Pool net json}
        → w.config_locked ≡ false
        → w.ipvs_locked ≡ false
        → Reach net json (opening net json w requests) s
        → total net json (left_locked net json) s.threads ≡ 0
    Reach-quiet cf free =
        Reach-avoids net json (left_locked net json) (IsTame w.config.api_key) w requests tame
          (λ v v' request p p'. tame_unlocked w.config) cf free refl

    before_Completes : {s t : Pool net json} → Step net json s t → Completes t → Completes s
    before_Completes st (u, r, e) = (u, Reach-trans (next here st) r, e)

    within :
        (fuel : ℕ) {s : Pool net json}
        → total net json (steps_left net json) s.threads ≤ fuel
        → Inv net json w requests s
        → total net json (left_locked net json) s.threads ≡ 0
        → Completes s
    within zero {s} h i quiet = elim (Inv-no_deadlock net json w requests i quiet) [
      | inl e ↦ (s, here, e)
      | inr (t, st) ↦ absurd (omega (arith, Step-total net json st))
    ]
    within (suc fuel) {s} h i quiet = elim (Inv-no_deadlock net json w requests i quiet) [
      | inl e ↦ (s, here, e)
      | inr (t, st) ↦ before_Completes st (
          within fuel (omega (arith, h, Step-total net json st)) (Step-Inv net json st i)
            (Step-quiet st i quiet))
    ]

  -- From every state that a pool reaches from a world with both mutexes free, all handlers can still come
  -- to an end, if for each request that passes the checks the host has a text and the number is in range.
  pub completes :
      (w : World) (requests : List Bytes) {s : Pool net json}
      → All (IsTame w.config.api_key) requests
      → w.config_locked ≡ false
      → w.ipvs_locked ≡ false
      → Reach net json (opening net json w requests) s
      → Completes s
  completes w requests {s} tame cf free r =
      within w requests tame (total net json (steps_left net json) s.threads) (omega arith)
        (Reach-Inv net json w requests cf free r) (Reach-quiet w requests tame cf free r)
