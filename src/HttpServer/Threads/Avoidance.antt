-- ===== src/HttpServer/Threads/Avoidance.antt =====
-- What no handler of src/http_server.cpp comes to, if no step of a good request leads there.
use ipvshttpd.HttpServer.Post.{Json, World}
use ipvshttpd.HttpServer.Threads.Invariant.{
  total, total-append, Inv, Reach-Inv, requests_of, All-split, total-arrivals,
}
use ipvshttpd.HttpServer.Threads.Locals.{IsTrue}
use ipvshttpd.HttpServer.Threads.Moves.{Moves, step_pc-Moves}
use ipvshttpd.HttpServer.Threads.{Pc, arrived, Thread, Pool, Step, pick, Reach, here, next, opening}
use ipvshttpd.Libipvs.{Net}
use ipvshttpd.Prelude.Bytes.{Bytes}
use ipvshttpd.Prelude.{ℕ, false, List, ◌∷◌, ◌++◌, ◌≡◌, sym, ap, ◌∙◌, arith, All}
use mathlib.Core.List.{map-append}
use mathlib.Core.Path.{subst}

module _ (net : Net) (json : Json) where
  module _ (f : Pc net json → ℕ) (Good : Bytes → Type 0) (w : World) (requests : List Bytes)
      (good : All Good requests)
      (keeps : (v v' : World) (request : Bytes) (p p' : Pc net json)
        → Good request
        → IsTrue net json w.config request p
        → Moves net json request v p v' p'
        → f p' ≡ 0) where
    pub Step-avoids :
        {s t : Pool net json}
        → Step net json s t
        → Inv net json w requests s
        → total net json f s.threads ≡ 0
        → total net json f t.threads ≡ 0
    Step-avoids {s} {t} (pick before after request p p' w' es e et) i quiet =
        let at = λ (x : Pc net json).
          total-append net json f before (record { request = request; pc = x } ∷ after) in
        let one : requests ≡ requests_of net json before ++ request ∷ requests_of net json after =
          sym i.same_requests
          ∙ ap (requests_of net json) es
          ∙ map-append (λ (t : Thread net json). t.request) before
              (record { request = request; pc = p } ∷ after) in
        let its : Good request =
          (All-split Good (requests_of net json before) (request ∷ requests_of net json after)
            (subst (All Good) one good)).1.0 in
        let local : IsTrue net json w.config request p =
          (All-split (λ t. IsTrue net json w.config t.request t.pc) before
            (record { request = request; pc = p } ∷ after)
            (subst (All (λ t. IsTrue net json w.config t.request t.pc)) es i.locals)).1.0 in
        let avoided : f p' ≡ 0 =
          keeps s.world w' request p p' its local (step_pc-Moves net json e) in
        omega (
          arith,
          quiet,
          avoided,
          at p,
          at p',
          ap (total net json f) es,
          ap (λ u. total net json f u.threads) et,
        )

    pub Reach-avoids :
        {s : Pool net json}
        → w.config_locked ≡ false
        → w.ipvs_locked ≡ false
        → f arrived ≡ 0
        → Reach net json (opening net json w requests) s
        → total net json f s.threads ≡ 0
    Reach-avoids cf free z here = total-arrivals net json f requests z
    Reach-avoids cf free z (next r st) =
        Step-avoids st (Reach-Inv net json w requests cf free r) (Reach-avoids cf free z r)
