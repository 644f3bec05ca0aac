-- ===== src/HttpServer/Threads/Progress.antt =====
-- Who can go on among the handlers of src/http_server.cpp.
pub mod Able
use ipvshttpd.HttpServer.Threads.Progress.Able.{
  has_ended, ended_ℕ, CanStep, inside_CanStep, reading_CanStep, free_CanStep,
}
use ipvshttpd.HttpServer.Post.{Json, World}
use ipvshttpd.HttpServer.Threads.Invariant.{total, total-append, Inv, Reach-Inv}
use ipvshttpd.HttpServer.Threads.Locals.{in_config, in_ipvs}
use ipvshttpd.HttpServer.Threads.Exceptions.{left_locked}
use ipvshttpd.HttpServer.Threads.{
  Pc, arrived, reading, copied, logged_key, logged_vip, checking, wanting, converting, applying,
  answering, unlocking, done, crashed, crashed_locked, Thread, step_pc, Pool, Step, pick, Reach,
  opening,
}
use ipvshttpd.Libipvs.{Net}
use ipvshttpd.Prelude.Bytes.{Bytes}
use ipvshttpd.Prelude.{
  ℕ, ◌≤◌, ◌<◌, Bool, true, false, List, [], ◌∷◌, ◌++◌, some, ◌≡◌, refl, ap, ◌⊎◌, inl, inr, arith,
  Bool-cases, ◌==◌, if◌then◌else◌,
}

module _ (net : Net) (json : Json) where
  -- A thread with weight 1, if the weights are 0 or 1 and do not add up to 0.
  record Found (f : Pc net json → ℕ) (ts : List (Thread net json)) : Type 0 where
    before : List (Thread net json)
    after : List (Thread net json)
    request : Bytes
    pc : Pc net json
    at : ts ≡ before ++ record { request = request; pc = pc } ∷ after
    weighs : f pc ≡ 1

  found :
      (f : Pc net json → ℕ)
      → ((p : Pc net json) → f p ≤ 1)
      → (ts : List (Thread net json)) → 0 < total net json f ts
      → Found f ts
  found f small [] h = absurd (omega arith)
  found f small (t ∷ ts) h = elim (Bool-cases (f t.pc == 1)) [
    | inl e ↦ record {
      before = [];
      after = ts;
      request = t.request;
      pc = t.pc;
      at = refl;
      weighs = ground arith;
    }
    | inr e ↦
        let r = found f small ts (ground (arith, small t.pc)) in
        record {
          before = t ∷ r.before;
          after = r.after;
          request = r.request;
          pc = r.pc;
          at = ap (λ l. t ∷ l) r.at;
          weighs = r.weighs;
        }
  ]

  ended_small : (p : Pc net json) → ended_ℕ net json p ≤ 1
  ended_small p = elim (Bool-cases (has_ended net json p)) [
    | inl e ↦ rw e (omega arith)
    | inr e ↦ rw e (omega arith)
  ]

  small_config : (p : Pc net json) → in_config net json p ≤ 1
  small_config p = ground arith

  small_ipvs : (p : Pc net json) → in_ipvs net json p ≤ 1
  small_ipvs p = ground arith

  -- A thread that weighs 1, and no thread of the others that counts, count together.
  total_at :
      (f : Pc net json → ℕ) (ts before after : List (Thread net json)) (request : Bytes)
      (p : Pc net json)
      → ts ≡ before ++ record { request = request; pc = p } ∷ after
      → f p ≤ total net json f ts
  total_at f ts before after request p e =
      rw e (
        omega
          (arith, total-append net json f before (record { request = request; pc = p } ∷ after)))

  found-Step :
      (s : Pool net json) {f : Pc net json → ℕ} (t : Found f s.threads)
      → CanStep net json s.world t.request t.pc
      → (s' : Pool net json) × Step net json s s'
  unfolding CanStep
  found-Step s t (w', p', e) = (_, pick t.before t.after t.request t.pc p' w' t.at e refl)

  pub Inv-no_deadlock :
      (w : World) (requests : List Bytes) {s : Pool net json}
      → Inv net json w requests s
      → total net json (left_locked net json) s.threads ≡ 0
      → (total net json (ended_ℕ net json) s.threads ≡ 0)
        ⊎ ((s' : Pool net json) × Step net json s s')
  Inv-no_deadlock w requests {s} i quiet = elim (Bool-cases s.world.ipvs_locked) [
    | inl e ↦
        let t =
          found (in_ipvs net json) small_ipvs s.threads (rw i.ipvs_holders (rw e (omega arith))) in
        inr (
          found-Step s t (
            inside_CanStep net json s.world t.request t.pc t.weighs (
              omega (
                arith,
                quiet,
                total_at (left_locked net json) s.threads t.before t.after t.request t.pc t.at,
              ))))
    | inr e ↦ elim (Bool-cases s.world.config_locked) [
      | inl e' ↦
          let t =
            found (in_config net json) small_config s.threads
              (rw i.config_holders (rw e' (omega arith))) in
          inr (found-Step s t (reading_CanStep net json s.world t.request t.pc t.weighs))
      | inr e' ↦ elim (Bool-cases (total net json (ended_ℕ net json) s.threads == 0)) [
        | inl z ↦ inl (ground arith)
        | inr nz ↦
            let t = found (ended_ℕ net json) ended_small s.threads (ground arith) in
            inr (found-Step s t (free_CanStep net json s.world t.request t.pc e' e t.weighs))
      ]
    ]
  ]

  -- No deadlock without an exception: as long as no handler was left by an exception with the IPVS mutex
  -- held, some handler can go on, unless all have ended.
  pub no_deadlock :
      (w : World) (requests : List Bytes) {s : Pool net json}
      → w.config_locked ≡ false
      → w.ipvs_locked ≡ false
      → Reach net json (opening net json w requests) s
      → total net json (left_locked net json) s.threads ≡ 0
      → (total net json (ended_ℕ net json) s.threads ≡ 0)
        ⊎ ((s' : Pool net json) × Step net json s s')
  no_deadlock w requests cf free r quiet =
      Inv-no_deadlock w requests (Reach-Inv net json w requests cf free r) quiet
