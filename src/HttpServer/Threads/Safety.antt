-- ===== src/HttpServer/Threads/Safety.antt =====
-- What the mutexes of src/http_server.cpp give its handlers.
use ipvshttpd.HttpServer.Post.{Json, World}
use ipvshttpd.HttpServer.Threads.Invariant.{requests_of, total, Reach-Inv}
use ipvshttpd.HttpServer.Threads.Locals.{held, in_config, in_ipvs, answered, obeyed}
use ipvshttpd.HttpServer.Threads.{Pc, done, Thread, Pool, Reach, opening}
use ipvshttpd.Libipvs.{Net}
use ipvshttpd.Prelude.Bytes.{Bytes}
use ipvshttpd.Prelude.{
  ℕ, suc, ◌+◌, ◌≤◌, Bool, true, false, List, [], ◌∷◌, ◌≡◌, refl, sym, ap, ◌∙◌, arith, length, All,
}

held-false : (b : Bool) → held b ≡ 0 → b ≡ false
held-false true h = absurd (omega arith)
held-false false h = refl

pub held_le : (b : Bool) → held b ≤ 1
held_le true = omega arith
held_le false = omega arith

module _ (net : Net) (json : Json) where
  -- Of all handlers, at most one is between the lock and the unlock of the IPVS mutex, and at most one
  -- between those of the configuration mutex, in every state that a pool reaches from a world with both
  -- mutexes free.
  pub mutual_exclusion :
      (w : World) (requests : List Bytes) {s : Pool net json}
      → w.config_locked ≡ false
      → w.ipvs_locked ≡ false
      → Reach net json (opening net json w requests) s
      → (total net json (in_ipvs net json) s.threads ≤ 1)
        × (total net json (in_config net json) s.threads ≤ 1)
  mutual_exclusion w requests {s} cf free r =
      let i = Reach-Inv net json w requests cf free r in
      (
        omega (arith, i.ipvs_holders, held_le s.world.ipvs_locked),
        omega (arith, i.config_holders, held_le s.world.config_locked),
      )

  total-All :
      (f : Pc net json → ℕ) (ts : List (Thread net json))
      → f done ≡ 1
      → All (λ t. t.pc ≡ done) ts
      → total net json f ts ≡ length ts
  total-All f [] e a = refl
  total-All f (t ∷ ts) e (at, rest) = omega (arith, ap f at, e, total-All f ts e rest)

  total_none :
      (f : Pc net json → ℕ) (ts : List (Thread net json))
      → f done ≡ 0
      → All (λ t. t.pc ≡ done) ts
      → total net json f ts ≡ 0
  total_none f [] e a = refl
  total_none f (t ∷ ts) e (at, rest) = omega (arith, ap f at, e, total_none f ts e rest)

  length-requests_of : (ts : List (Thread net json)) → length (requests_of net json ts) ≡ length ts
  length-requests_of [] = refl
  length-requests_of (t ∷ ts) = ap suc (length-requests_of ts)

  -- In a state that a pool reaches from a world with both mutexes free, and in which every handler
  -- has returned, exactly one response was sent for each request, both mutexes are free, and
  -- libipvs was called at most once for each request.
  pub pool_returned :
      (w : World) (requests : List Bytes) {s : Pool net json}
      → w.config_locked ≡ false
      → w.ipvs_locked ≡ false
      → Reach net json (opening net json w requests) s
      → All (λ t. t.pc ≡ done) s.threads
      → (length s.world.responses ≡ length w.responses + length requests)
        × (s.world.config_locked ≡ false)
        × (s.world.ipvs_locked ≡ false)
        × (length s.world.calls ≤ length w.calls + length requests)
  pool_returned w requests {s} cf free r ended =
      let i = Reach-Inv net json w requests cf free r in
      let size : length s.threads ≡ length requests =
        sym (length-requests_of s.threads) ∙ ap length i.same_requests in
      (
        omega (arith, i.answers, size, total-All (answered net json) s.threads refl ended),
        held-false s.world.config_locked
            (omega (arith, i.config_holders, total_none (in_config net json) s.threads refl ended)),
        held-false s.world.ipvs_locked
            (omega (arith, i.ipvs_holders, total_none (in_ipvs net json) s.threads refl ended)),
        omega (arith, i.calls, size, total-All (obeyed net json) s.threads refl ended),
      )
