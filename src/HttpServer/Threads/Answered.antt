-- ===== src/HttpServer/Threads/Answered.antt =====
-- That the handlers of src/http_server.cpp answer every request, if nothing throws.
use ipvshttpd.Configuration.{Config}
use ipvshttpd.HttpServer.Post.{Json, World}
use ipvshttpd.HttpServer.Threads.Avoidance.{Reach-avoids}
use ipvshttpd.HttpServer.Threads.Completion.{IsTame, tame_fails, Reach-trans, completes}
use ipvshttpd.HttpServer.Threads.Invariant.{total, All-split}
use ipvshttpd.HttpServer.Threads.Locals.{IsTrue}
use ipvshttpd.HttpServer.Threads.Progress.Able.{ended_ℕ}
use ipvshttpd.HttpServer.Threads.Progress.{no_deadlock}
use ipvshttpd.HttpServer.Threads.Exceptions.{left_locked}
use ipvshttpd.HttpServer.Threads.Safety.{pool_returned}
use ipvshttpd.HttpServer.Threads.Moves.{Moves, throws_out, fails}
use ipvshttpd.HttpServer.Threads.{
  throws, judge, Pc, done, crashed, crashed_locked, Thread, step_pc, Pool, Step, pick, Reach,
  opening,
}
use ipvshttpd.Libipvs.{Net}
use ipvshttpd.Prelude.Bytes.{Bytes}
use ipvshttpd.Prelude.{
  ℕ, ◌+◌, ◌≤◌, false, List, [], ◌∷◌, some, ◌≡◌, ◌≢◌, refl, inl, inr, arith, All, length,
}
use mathlib.Core.Path.{subst}

module _ (net : Net) (json : Json) where
  -- A request that nothing in the handler throws at, neither in the checks nor behind them.
  pub record IsSmooth (api_key request : Bytes) : Type 0 where
    pub tame : IsTame net json api_key request
    pub checks_end : judge net json request api_key ≢ throws

  abbrev failed : Pc net json → ℕ
  failed crashed = 1
  failed crashed_locked = 1
  failed _ = 0

  smooth_calm :
      (c : Config) {request : Bytes} {w w' : World} {p p' : Pc net json}
      → IsSmooth c.api_key request
      → IsTrue net json c request p
      → Moves net json request w p w' p'
      → failed p' ≡ 0
  smooth_calm c h t (fails x n v e) = absurd (tame_fails net json c v h.tame t e)
  smooth_calm c h t (throws_out k v e) = absurd (h.checks_end (rw (← t.0) e))
  smooth_calm c h t _ = refl

  left-failed : (p : Pc net json) → left_locked net json p ≤ failed p
  left-failed p = ground arith

  total_left :
      (ts : List (Thread net json))
      → total net json (left_locked net json) ts ≤ total net json failed ts
  total_left [] = omega arith
  total_left (t ∷ ts) = omega (arith, left-failed t.pc, total_left ts)

  ended_done : (p : Pc net json) → ended_ℕ net json p ≡ 0 → failed p ≡ 0 → p ≡ done
  ended_done done e f = refl
  ended_done crashed e f = absurd (omega arith)
  ended_done crashed_locked e f = absurd (omega arith)
  ended_done _ e f = absurd (omega arith)

  calm_done :
      (ts : List (Thread net json))
      → total net json (ended_ℕ net json) ts ≡ 0
      → total net json failed ts ≡ 0
      → All (λ t. t.pc ≡ done) ts
  calm_done [] e f = tt
  calm_done (t ∷ ts) e f =
      (ended_done t.pc (omega arith) (omega arith), calm_done ts (omega arith) (omega arith))

  done_stuck :
      (request : Bytes) (p p' : Pc net json) (w w' : World)
      → p ≡ done
      → step_pc net json request p w ≡ some (w', p')
      → ⊥
  unfolding step_pc
  done_stuck request p p' w w' at e =
      cc (subst (λ q. step_pc net json request q w ≡ some (w', p')) at e)

  -- Where every handler has returned, none can go on.
  pub returned_stuck :
      {s s' : Pool net json} → All (λ t. t.pc ≡ done) s.threads → Step net json s s' → ⊥
  returned_stuck {s} ended (pick before after request p p' w' es e et) =
      done_stuck request p p' s.world w'
        (All-split (λ t. t.pc ≡ done) before (record { request = request; pc = p } ∷ after)
          (subst (All (λ t. t.pc ≡ done)) es ended)).1.0
        e

  module _ (w : World) (requests : List Bytes) (smooth : All (IsSmooth w.config.api_key) requests)
      (cf : w.config_locked ≡ false) (free : w.ipvs_locked ≡ false) where
    calm :
        {s : Pool net json}
        → Reach net json (opening net json w requests) s
        → total net json failed s.threads ≡ 0
    calm r =
        Reach-avoids net json failed (IsSmooth w.config.api_key) w requests smooth
          (λ v v' request p p'. smooth_calm w.config) cf free refl r

    -- A pool in which every request was answered.
    pub record Answers (s : Pool net json) : Type 0 where
      pub all_done : All (λ t. t.pc ≡ done) s.threads
      pub one_each : length s.world.responses ≡ length w.responses + length requests
      pub config_free : s.world.config_locked ≡ false
      pub ipvs_free : s.world.ipvs_locked ≡ false

    ended-Answers :
        {s : Pool net json}
        → Reach net json (opening net json w requests) s
        → total net json (ended_ℕ net json) s.threads ≡ 0
        → Answers s
    ended-Answers {s} r e =
        let ended = calm_done s.threads e (calm r) in
        let sent = pool_returned net json w requests cf free r ended in
        record { all_done = ended; one_each = sent.0; config_free = sent.1; ipvs_free = sent.2 }

    -- Whatever turns the handlers of a pool have taken: if nothing in the handler throws at any of the
    -- requests, then, when no handler can go on, every request was answered.
    pub halted-Answers :
        {s : Pool net json}
        → Reach net json (opening net json w requests) s
        → ((s' : Pool net json) → ¬ Step net json s s')
        → Answers s
    halted-Answers {s} r halted =
        elim (no_deadlock net json w requests cf free r
          (omega (arith, calm r, total_left s.threads))) [
            | inl e ↦ ended-Answers r e
            | inr (s', st) ↦ absurd (halted s' st)
          ]

    smooth-IsTame :
        (rs : List Bytes)
        → All (IsSmooth w.config.api_key) rs
        → All (IsTame net json w.config.api_key) rs
    smooth-IsTame [] h = tt
    smooth-IsTame (r ∷ rs) h = (h.0.tame, smooth-IsTame rs h.1)

    -- And from every state, the pool can come to such an end.
    pub finishes :
        {s : Pool net json}
        → Reach net json (opening net json w requests) s
        → (t : Pool net json) × Reach net json s t × Answers t
    finishes r =
        let (t, r', e) = completes net json w requests (smooth-IsTame requests smooth) cf free r in
        (t, r', ended-Answers (Reach-trans net json r r') e)
