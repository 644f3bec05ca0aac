-- ===== src/HttpServer/Threads/Owed.antt =====
-- The calls of libipvs that the requests of a pool ask for, and those that its handlers have still to make.
use ipvshttpd.HttpServer.Post.Outcome.{Authorized, Asked}
use ipvshttpd.HttpServer.Post.{Json, World}
use ipvshttpd.HttpServer.Threads.Invariant.{Inv, Reach-Inv, All-split}
use ipvshttpd.HttpServer.Post.Outcome.Passing.{Cleared}
use ipvshttpd.HttpServer.Threads.Locals.{IsTrue, Cleared-judged}
use ipvshttpd.HttpServer.Threads.Moves.{
  Moves, locks_config, copies, logs_key, logs_vip, unlocks_config, rejects, throws_out, proceeds,
  locks_ipvs, converts, fails, applies, answers_ok, answers_error, logs_failure, logs_reason,
  unlocks_ipvs, step_pc-Moves,
}
use ipvshttpd.HttpServer.Threads.Refinement.{is_waiting}
use ipvshttpd.HttpServer.Threads.{
  Verdict, reject, throws, proceed, judge, Pc, done, Thread, Pool, Step, pick, Reach, here, next,
  arrivals, opening,
}
use ipvshttpd.IpvsInterface.Weight.{set_weight_calls}
use ipvshttpd.IpvsInterface.{set_weight}
use ipvshttpd.Libipvs.{Net, Service, Dest}
use ipvshttpd.Prelude.Orders.{settled}
use ipvshttpd.Prelude.Bytes.{Bytes}
use ipvshttpd.Prelude.Int.{ℤ}
use ipvshttpd.Prelude.{
  false, List, [], ◌∷◌, ◌++◌, append_assoc, append-nil, Option, none, some, ◌≡◌, refl, sym, ap, ◌∙◌,
  ◌⊎◌, inl, inr, All, if◌then◌else◌,
}
use mathlib.Core.Path.{subst}
use mathlib.Core.Quot.{sound}
use mathlib.Mathlib.Data.Multiset.Defs.{Multiset, of_list}

module _ (net : Net) (json : Json) (w : World) where
  open json use {Value, as_text, as_int}

  -- The calls of an update with the configured VIP, by the two conversions.
  abbrev pub update_calls : Option Bytes → Option ℤ → List (Service × Dest)
  update_calls none number = []
  update_calls (some server) none = []
  update_calls (some server) (some weight) =
      (set_weight net w.config.vip server weight w.logger).calls

  abbrev pub verdict_calls : Verdict net json → List (Service × Dest)
  verdict_calls (reject reason status) = []
  verdict_calls throws = []
  verdict_calls (proceed hostname kernels) = update_calls (as_text hostname) (as_int kernels)

  -- The calls that a request asks for, which depend on it and on the configuration alone.
  abbrev pub asks : Bytes → List (Service × Dest)
  asks request = verdict_calls (judge net json request w.config.api_key)

  abbrev pub all_asks : List Bytes → List (Service × Dest)
  all_asks [] = []
  all_asks (r ∷ rs) = asks r ++ all_asks rs

  abbrev owed_by : Bytes → Pc net json → List (Service × Dest)
  owed_by request p = if is_waiting net json p then asks request else []

  abbrev pub owed : List (Thread net json) → List (Service × Dest)
  owed [] = []
  owed (t ∷ ts) = owed_by t.request t.pc ++ owed ts

  no_update :
      (text : Option Bytes) (number : Option ℤ)
      → (text ≡ none) ⊎ (number ≡ none)
      → update_calls text number ≡ []
  no_update none number h = refl
  no_update (some s) none h = refl
  no_update (some s) (some n) (inl e) = cc
  no_update (some s) (some n) (inr e) = cc

  asks-Cleared :
      (request : Bytes) (h n : Value)
      → Cleared net json request w.config.api_key h n
      → asks request ≡ update_calls (as_text h) (as_int n)
  asks-Cleared request h n c = ap verdict_calls (Cleared-judged net json c)

  Asked-Cleared :
      {request server : Bytes} {weight : ℤ} (a : Authorized net json request w.config.api_key)
      (k : Asked net json a.root server weight)
      → Cleared net json request w.config.api_key k.hostname k.kernels
  Asked-Cleared a k = record {
    auth = a;
    host_found = k.host_found;
    host_not_null = k.host_not_null;
    kernels_found = k.kernels_found;
    kernels_not_null = k.kernels_not_null;
    kernels_is_int = k.kernels_is_int;
  }

  asks-Asked :
      {request server : Bytes} {weight : ℤ} (a : Authorized net json request w.config.api_key)
      → Asked net json a.root server weight
      → asks request ≡ (set_weight net w.config.vip server weight w.logger).calls
  asks-Asked {request} a k =
      asks-Cleared request k.hostname k.kernels (Asked-Cleared a k)
      ∙ rw (k.server_text, k.weight_int) refl

  -- What a step calls is what it takes off what is owed.
  Moves-settles :
      {request : Bytes} {v v' : World} {p p' : Pc net json}
      → Moves net json request v p v' p'
      → IsTrue net json w.config request p
      → v'.calls ++ owed_by request p' ≡ v.calls ++ owed_by request p
  Moves-settles (locks_config free) t = refl
  Moves-settles copies t = refl
  Moves-settles (logs_key k v) t = refl
  Moves-settles (logs_vip k v) t = refl
  Moves-settles (unlocks_config k v) t = refl
  Moves-settles {request} {v = u} (rejects k v reason status e) t =
      ap (λ j. u.calls ++ verdict_calls j) (sym (ap (judge net json request) (sym t.0) ∙ e))
  Moves-settles {request} {v = u} (throws_out k v e) t =
      ap (λ j. u.calls ++ verdict_calls j) (sym (ap (judge net json request) (sym t.0) ∙ e))
  Moves-settles (proceeds k v h n e) t = refl
  Moves-settles (locks_ipvs h n v free) t = refl
  Moves-settles (converts h n v s m et en) t = refl
  Moves-settles {request} {v = u} (fails h n v e) t =
      ap (λ cs. u.calls ++ cs)
        (sym (asks-Cleared request h n t.0 ∙ no_update (as_text h) (as_int n) e))
  Moves-settles {request} {v = u} (applies s n v) t =
      append-nil _
      ∙ ap (λ cs. u.calls ++ cs)
          (set_weight_calls net v s n u.logger w.logger
            ∙ ap (λ x. (set_weight net x s n w.logger).calls) t.1
            ∙ sym (asks-Asked t.0.0 t.0.1))
  Moves-settles answers_ok t = refl
  Moves-settles answers_error t = refl
  Moves-settles logs_failure t = refl
  Moves-settles (logs_reason reason) t = refl
  Moves-settles unlocks_ipvs t = refl

  owed-append : (xs ys : List (Thread net json)) → owed (xs ++ ys) ≡ owed xs ++ owed ys
  owed-append [] ys = refl
  owed-append (t ∷ ts) ys =
      ap (λ l. owed_by t.request t.pc ++ l) (owed-append ts ys)
      ∙ sym (append_assoc (owed_by t.request t.pc) (owed ts) (owed ys))

  owed-arrivals : (rs : List Bytes) → owed (arrivals net json rs) ≡ all_asks rs
  owed-arrivals [] = refl
  owed-arrivals (r ∷ rs) = ap (λ l. asks r ++ l) (owed-arrivals rs)

  pub owed_done : (ts : List (Thread net json)) → All (λ t. t.pc ≡ done) ts → owed ts ≡ []
  owed_done [] h = refl
  owed_done (t ∷ ts) h = ap (λ p. owed_by t.request p ++ owed ts) h.0 ∙ owed_done ts h.1

  -- What has been called and what is owed, in no order.
  abbrev pub account : Pool net json → Multiset (Service × Dest)
  account s = of_list (s.world.calls ++ owed s.threads)

  Step-account :
      {requests : List Bytes} {s t : Pool net json}
      → Step net json s t
      → Inv net json w requests s
      → account t ≡ account s
  Step-account {s = s} {t} (pick before after request p p' w' es e et) i =
      let local : IsTrue net json w.config request p =
        (All-split (λ t. IsTrue net json w.config t.request t.pc) before
          (record { request = request; pc = p } ∷ after)
          (subst (All (λ t. IsTrue net json w.config t.request t.pc)) es i.locals)).1.0 in
      let at = λ (q : Pc net json) (u : World).
        ap (λ l. u.calls ++ l)
          (owed-append before (record { request = request; pc = q } ∷ after)) in
      ap account et
      ∙ ap of_list (at p' w')
      ∙ sound (
          settled s.world.calls w'.calls (owed before) (owed_by request p) (owed_by request p')
            (owed after) (Moves-settles (step_pc-Moves net json e) local))
      ∙ ap of_list (sym (at p s.world))
      ∙ ap (λ ts. of_list (s.world.calls ++ owed ts)) (sym es)

  -- However the handlers take their turns, from a world with both mutexes free: the calls of libipvs that
  -- were made, with those that the handlers on their way have still to make, are, in whatever order, the
  -- calls made before with those that the requests ask for. So no update is lost, made up or made twice,
  -- also where handlers end by exceptions or wait for ever.
  pub Reach-account :
      (requests : List Bytes) {s : Pool net json}
      → w.config_locked ≡ false
      → w.ipvs_locked ≡ false
      → Reach net json (opening net json w requests) s
      → account s ≡ of_list (w.calls ++ all_asks requests)
  Reach-account requests cf free here = ap (λ l. of_list (w.calls ++ l)) (owed-arrivals requests)
  Reach-account requests cf free (next r st) =
      Step-account st (Reach-Inv net json w requests cf free r) ∙ Reach-account requests cf free r
