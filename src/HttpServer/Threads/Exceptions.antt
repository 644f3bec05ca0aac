-- ===== src/HttpServer/Threads/Exceptions.antt =====
-- What an exception behind the lock takes from the handlers of src/http_server.cpp.
use ipvshttpd.HttpServer.Post.{Json, World}
use ipvshttpd.HttpServer.Threads.Invariant.{total, total-append, Inv, Reach-Inv, Step-Inv}
use ipvshttpd.HttpServer.Threads.Locals.{held, in_ipvs}
use ipvshttpd.HttpServer.Threads.Safety.{held_le}
use ipvshttpd.HttpServer.Threads.Moves.{
  Moves, locks_config, copies, logs_key, logs_vip, unlocks_config, rejects, throws_out, proceeds,
  locks_ipvs, converts, fails, applies, answers_ok, answers_error, logs_failure, logs_reason,
  unlocks_ipvs, step_pc-Moves,
}
use ipvshttpd.HttpServer.Threads.{
  Pc, converting, applying, answering, failure_reported, unlocking, crashed_locked, Thread, Pool,
  Step, pick, Reach, here, next, opening,
}
use ipvshttpd.Libipvs.{Net, Service, Dest}
use ipvshttpd.Prelude.Bytes.{Bytes}
use ipvshttpd.Prelude.{
  ℕ, ◌+◌, ◌≤◌, Bool, true, false, List, [], ◌∷◌, ◌≡◌, refl, sym, ap, ◌∙◌, arith,
}
use mathlib.Core.Path.{subst}

held-true : (b : Bool) → 1 ≤ held b → b ≡ true
held-true true h = refl
held-true false h = absurd (omega arith)

module _ (net : Net) (json : Json) where
  -- A handler that an exception has left with the mutex.
  abbrev pub left_locked : Pc net json → ℕ
  left_locked crashed_locked = 1
  left_locked _ = 0

  -- Between the lock and the unlock of the IPVS mutex, and able to go on.
  active : Pc net json → ℕ
  active (converting h k v) = 1
  active (applying n m v) = 1
  active (answering b) = 1
  active failure_reported = 1
  active unlocking = 1
  active _ = 0

  active_left : (p : Pc net json) → in_ipvs net json p ≡ active p + left_locked p
  unfolding active
  active_left p = ground arith

  total-active_left :
      (ts : List (Thread net json))
      → total net json (in_ipvs net json) ts
        ≡ total net json active ts + total net json left_locked ts
  total-active_left [] = omega arith
  total-active_left (t ∷ ts) = omega (arith, active_left t.pc, total-active_left ts)

  -- A handler that has ended with the mutex does not move, and one that is not active calls nothing.
  Moves-stays :
      {request : Bytes} {w w' : World} {p p' : Pc net json}
      → Moves net json request w p w' p'
      → (left_locked p ≤ left_locked p') × (active p ≡ 0 → w'.calls ≡ w.calls)
  unfolding active
  Moves-stays (locks_config free) = (omega arith, λ _. refl)
  Moves-stays copies = (omega arith, λ _. refl)
  Moves-stays (logs_key k v) = (omega arith, λ _. refl)
  Moves-stays (logs_vip k v) = (omega arith, λ _. refl)
  Moves-stays (unlocks_config k v) = (omega arith, λ _. refl)
  Moves-stays (rejects k v reason status e) = (omega arith, λ _. refl)
  Moves-stays (throws_out k v e) = (omega arith, λ _. refl)
  Moves-stays (proceeds k v h n e) = (omega arith, λ _. refl)
  Moves-stays (locks_ipvs h n v free) = (omega arith, λ _. refl)
  Moves-stays (converts h n v s m et en) = (omega arith, λ _. refl)
  Moves-stays (fails h n v e) = (omega arith, λ _. refl)
  Moves-stays (applies s n v) = (omega arith, λ a. absurd (omega arith))
  Moves-stays answers_ok = (omega arith, λ a. absurd (omega arith))
  Moves-stays answers_error = (omega arith, λ a. absurd (omega arith))
  Moves-stays logs_failure = (omega arith, λ _. refl)
  Moves-stays (logs_reason reason) = (omega arith, λ _. refl)
  Moves-stays unlocks_ipvs = (omega arith, λ _. refl)

  -- Once a handler has been left with the mutex.
  pub record IsPoisoned (cs : List (Service × Dest)) (s : Pool net json) : Type 0 where
    pub one_left : 1 ≤ total net json left_locked s.threads
    pub same_calls : s.world.calls ≡ cs

  module _ {w : World} {requests : List Bytes} (cs : List (Service × Dest)) where
    nobody_active :
        {s : Pool net json}
        → Inv net json w requests s
        → IsPoisoned cs s
        → total net json active s.threads ≡ 0
    nobody_active {s} i q = omega (
      arith,
      total-active_left s.threads,
      i.ipvs_holders,
      q.one_left,
      held_le s.world.ipvs_locked,
    )

    Step-IsPoisoned :
        {s t : Pool net json}
        → Step net json s t
        → Inv net json w requests s
        → IsPoisoned cs s
        → IsPoisoned cs t
    Step-IsPoisoned {s} {t} (pick before after request p p' w' es e et) i q =
        let at = λ (f : Pc net json → ℕ) (x : Pc net json).
          total-append net json f before (record { request = request; pc = x } ∷ after) in
        let stay = Moves-stays (step_pc-Moves net json e) in
        let idle : active p ≡ 0 =
          omega (arith, nobody_active i q, ap (total net json active) es, at active p) in
        subst (IsPoisoned cs) (sym et) (record {
          one_left = omega (
            arith,
            q.one_left,
            ap (total net json left_locked) es,
            at left_locked p,
            at left_locked p',
            stay.0,
          );
          same_calls = stay.1 idle ∙ q.same_calls;
        })

    Reach-IsPoisoned :
        {s t : Pool net json}
        → Reach net json s t
        → Inv net json w requests s
        → IsPoisoned cs s
        → IsPoisoned cs t × Inv net json w requests t
    Reach-IsPoisoned here i q = (q, i)
    Reach-IsPoisoned (next r st) i q =
        let (q', i') = Reach-IsPoisoned r i q in (Step-IsPoisoned st i' q', Step-Inv net json st i')

  -- In a pool that was opened in a world with both mutexes free, once an exception has left a
  -- handler with the IPVS mutex held, the mutex stays locked in every later state, and libipvs is
  -- never called again, whatever the other handlers do and ask for.
  pub left_locked_forever :
      (w : World) (requests : List Bytes) {s t : Pool net json}
      → w.config_locked ≡ false
      → w.ipvs_locked ≡ false
      → Reach net json (opening net json w requests) s
      → 1 ≤ total net json left_locked s.threads
      → Reach net json s t
      → (t.world.ipvs_locked ≡ true) × (t.world.calls ≡ s.world.calls)
  left_locked_forever w requests {s} {t} cf free r one later =
      let (q, i) =
        Reach-IsPoisoned {w = w} {requests = requests} s.world.calls later
          (Reach-Inv net json w requests cf free r)
          (record { one_left = one; same_calls = refl }) in
      let locked : 1 ≤ held t.world.ipvs_locked =
        omega (arith, q.one_left, i.ipvs_holders, total-active_left t.threads) in
      (held-true t.world.ipvs_locked locked, q.same_calls)
