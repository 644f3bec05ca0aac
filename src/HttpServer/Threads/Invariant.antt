-- ===== src/HttpServer/Threads/Invariant.antt =====
-- What holds however the handlers of src/http_server.cpp take their turns.
use ipvshttpd.Configuration.{Config}
use ipvshttpd.HttpServer.Post.{Json, World}
use ipvshttpd.HttpServer.Threads.Effect.{Effect, effect}
use ipvshttpd.HttpServer.Threads.Locals.{held, in_config, in_ipvs, answered, obeyed, IsTrue}
use ipvshttpd.HttpServer.Threads.Moves.{step_pc-Moves}
use ipvshttpd.HttpServer.Threads.{
  Pc, arrived, Thread, step_pc, Pool, Step, pick, Reach, here, next, arrivals, opening,
}
use ipvshttpd.Libipvs.{Net}
use ipvshttpd.Prelude.Bytes.{Bytes}
use ipvshttpd.Prelude.{
  ℕ, ◌+◌, ◌≤◌, false, List, [], ◌∷◌, ◌++◌, map, some, ◌≡◌, refl, sym, ap, ◌∙◌, arith, length, All,
  All-append,
}
use mathlib.Core.List.{map-append}
use mathlib.Core.Path.{subst}

pub All-split {ℓ κ} :
    {A : Type ℓ} (P : A → Type κ) (xs ys : List A) → All P (xs ++ ys) → All P xs × All P ys
All-split P [] ys h = (tt, h)
All-split P (x ∷ xs) ys h = let (l, r) = All-split P xs ys h.1 in ((h.0, l), r)

module _ (net : Net) (json : Json) where
  abbrev pub total : (Pc net json → ℕ) → List (Thread net json) → ℕ
  total f [] = 0
  total f (t ∷ ts) = f t.pc + total f ts

  pub total-append :
      (f : Pc net json → ℕ) (xs ys : List (Thread net json))
      → total f (xs ++ ys) ≡ total f xs + total f ys
  total-append f [] ys = omega arith
  total-append f (x ∷ xs) ys = omega (arith, total-append f xs ys)

  abbrev pub requests_of : List (Thread net json) → List Bytes
  requests_of = map (λ t. t.request)

  -- Of a pool that was opened in the world `w` with these requests.
  pub record Inv (w : World) (requests : List Bytes) (s : Pool net json) : Type 0 where
    pub same_config : s.world.config ≡ w.config
    pub same_requests : requests_of s.threads ≡ requests
    pub config_holders : total (in_config net json) s.threads ≡ held s.world.config_locked
    pub ipvs_holders : total (in_ipvs net json) s.threads ≡ held s.world.ipvs_locked
    pub answers :
        length s.world.responses ≡ length w.responses + total (answered net json) s.threads
    pub calls : length s.world.calls ≤ length w.calls + total (obeyed net json) s.threads
    pub locals : All (λ t. IsTrue net json w.config t.request t.pc) s.threads

  pub total-arrivals :
      (f : Pc net json → ℕ) (rs : List Bytes) → f arrived ≡ 0 → total f (arrivals net json rs) ≡ 0
  total-arrivals f [] e = refl
  total-arrivals f (r ∷ rs) e = omega (arith, total-arrivals f rs e)

  arrivals-IsTrue :
      (c : Config) (rs : List Bytes)
      → All (λ t. IsTrue net json c t.request t.pc) (arrivals net json rs)
  arrivals-IsTrue c [] = tt
  arrivals-IsTrue c (r ∷ rs) = (tt, arrivals-IsTrue c rs)

  requests_of-arrivals : (rs : List Bytes) → requests_of (arrivals net json rs) ≡ rs
  requests_of-arrivals [] = refl
  requests_of-arrivals (r ∷ rs) = ap (λ l. r ∷ l) (requests_of-arrivals rs)

  opening-Inv :
      (w : World) (requests : List Bytes)
      → w.config_locked ≡ false
      → w.ipvs_locked ≡ false
      → Inv w requests (opening net json w requests)
  opening-Inv w requests cf free = record {
    same_config = refl;
    same_requests = requests_of-arrivals requests;
    config_holders = rw cf (total-arrivals (in_config net json) requests refl);
    ipvs_holders = rw free (total-arrivals (in_ipvs net json) requests refl);
    answers = omega (arith, total-arrivals (answered net json) requests refl);
    calls = omega arith;
    locals = arrivals-IsTrue w.config requests;
  }

  module _ (before after : List (Thread net json)) (request : Bytes) where
    abbrev threads_at : Pc net json → List (Thread net json)
    threads_at q = before ++ record { request = request; pc = q } ∷ after

    at_total :
        (f : Pc net json → ℕ) (q : Pc net json)
        → total f (threads_at q) ≡ total f before + (f q + total f after)
    at_total f q = total-append f before (record { request = request; pc = q } ∷ after)

    -- When one handler moves, a total changes by what its own place weighs.
    traded :
        (f : Pc net json → ℕ) (p q : Pc net json)
        → total f (threads_at q) + f p ≡ total f (threads_at p) + f q
    traded f p q = omega (arith, at_total f p, at_total f q)

    at_requests :
        (q : Pc net json)
        → requests_of (threads_at q) ≡ requests_of before ++ request ∷ requests_of after
    at_requests q =
        map-append (λ (t : Thread net json). t.request) before
          (record { request = request; pc = q } ∷ after)

  module _ (w : World) (requests : List Bytes) (before after : List (Thread net json))
      (request : Bytes) (p p' : Pc net json) (v v' : World) where
    abbrev InvAt : Pc net json → World → Type 0
    InvAt q u = Inv w requests (record { world = u; threads = threads_at before after request q })

    moved-Inv : InvAt p v → Effect net json request p p' v v' → InvAt p' v'
    moved-Inv i e =
        let (lb, l) =
          All-split (λ t. IsTrue net json w.config t.request t.pc) before
            (record { request = request; pc = p } ∷ after) i.locals in
        record {
          same_config = e.config_kept ∙ i.same_config;
          same_requests =
              at_requests before after request p'
              ∙ sym (at_requests before after request p)
              ∙ i.same_requests;
          config_holders = omega (
            arith,
            traded before after request (in_config net json) p p',
            i.config_holders,
            e.config_moved,
          );
          ipvs_holders = omega (
            arith,
            traded before after request (in_ipvs net json) p p',
            i.ipvs_holders,
            e.ipvs_moved,
          );
          answers = omega (
            arith,
            traded before after request (answered net json) p p',
            i.answers,
            e.answer_counted,
          );
          calls =
              omega (
                arith,
                traded before after request (obeyed net json) p p',
                i.calls,
                e.calls_counted,
              );
          locals =
              All-append (λ t. IsTrue net json w.config t.request t.pc) before
                (record { request = request; pc = p' } ∷ after) lb
                (subst (λ c. IsTrue net json c request p') i.same_config e.locals_true, l.1);
        }

    holds_config : InvAt p v → in_config net json p ≤ held v.config_locked
    holds_config i =
        omega (arith, at_total before after request (in_config net json) p, i.config_holders)

    holds_ipvs : InvAt p v → in_ipvs net json p ≤ held v.ipvs_locked
    holds_ipvs i = omega (arith, at_total before after request (in_ipvs net json) p, i.ipvs_holders)

    picked-Inv : step_pc net json request p v ≡ some (v', p') → InvAt p v → InvAt p' v'
    picked-Inv e i =
        let l =
          (All-split (λ t. IsTrue net json w.config t.request t.pc) before
            (record { request = request; pc = p } ∷ after) i.locals).1 in
        moved-Inv i (
          effect net json request v (step_pc-Moves net json e)
            (subst (λ c. IsTrue net json c request p) (sym i.same_config) l.0) (holds_config i)
            (holds_ipvs i))

  pub Step-Inv :
      {w : World} {requests : List Bytes} {s t : Pool net json}
      → Step net json s t
      → Inv w requests s
      → Inv w requests t
  Step-Inv {w} {requests} {s} {t} (pick before after request p p' w' es e et) i =
      subst (Inv w requests) (sym et) (
        picked-Inv w requests before after request p p' s.world w' e
          (subst (λ ts. Inv w requests (record { world = s.world; threads = ts })) es i))

  -- However the handlers of a pool take their turns, from a world with both mutexes free: the configuration
  -- and the requests stay; each mutex is locked exactly while one handler is between its lock and its
  -- unlock; each response is that of a handler that has sent it; and libipvs was called at most once for
  -- each handler that is past its update.
  pub Reach-Inv :
      (w : World) (requests : List Bytes) {s : Pool net json}
      → w.config_locked ≡ false
      → w.ipvs_locked ≡ false
      → Reach net json (opening net json w requests) s
      → Inv w requests s
  Reach-Inv w requests cf free here = opening-Inv w requests cf free
  Reach-Inv w requests cf free (next r st) = Step-Inv st (Reach-Inv w requests cf free r)
