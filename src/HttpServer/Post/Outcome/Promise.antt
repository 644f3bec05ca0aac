-- ===== src/HttpServer/Post/Outcome/Promise.antt =====
-- What a client of src/http_server.cpp may rely on, and what an exception in the handler does.
use ipvshttpd.HttpServer.Post.Outcome.{
  Authorized, Asked, updating, Ends, rejected, failed, failed_locked, updated, post-Ends,
}
use ipvshttpd.HttpServer.Post.{
  Json, ok, internal_server_error, Response, World, Ended, returned, thrown, blocked, report_error,
  answer, handle_post_request,
}
use ipvshttpd.IpvsInterface.Weight.Outcome.{weight_outcome}
use ipvshttpd.IpvsInterface.{Weighed, set_weight}
use ipvshttpd.Libipvs.{Service, Dest, Net}
use ipvshttpd.Prelude.Bytes.{Bytes}
use ipvshttpd.Prelude.Int.{ℤ, pos, eq_ℤ}
use ipvshttpd.Prelude.{
  true, false, List, [], ◌∷◌, ◌++◌, ◌≡◌, refl, sym, ap, ◌∙◌, ◌⊎◌, inl, inr, Bool-cases,
}

module _ (net : Net) (json : Json) where
  -- The update that a request asks for, and its result.
  pub record Update (request : Bytes) (w : World) : Type 0 where
    pub server : Bytes
    pub weight : ℤ
    pub authorized : Authorized net json request w.config.api_key
    pub asked : Asked net json authorized.root server weight
    pub result : Weighed
    pub result_of : result ≡ set_weight net w.config.vip server weight (updating net json w).logger

  -- The promise on each end.
  abbrev pub Promise : Bytes → World → Ended → Type 0
  Promise request w (returned w') =
      ((r : Response) × (w'.responses ≡ w.responses ++ r ∷ []))
      × (w'.config_locked ≡ false)
      × (w'.ipvs_locked ≡ false)
      × ((w'.calls ≡ w.calls) ⊎ ((u : Update request w) × (w'.calls ≡ w.calls ++ u.result.calls)))
  Promise request w (thrown w') =
      (w'.responses ≡ w.responses) × (w'.calls ≡ w.calls) × (w'.config_locked ≡ false)
  Promise request w (blocked w') = ⊥

  answer_one :
      (r : Weighed) (w : World)
      → ((x : Response) × ((answer r w).responses ≡ w.responses ++ x ∷ []))
        × ((answer r w).config_locked ≡ w.config_locked)
        × ((answer r w).ipvs_locked ≡ false)
        × ((answer r w).calls ≡ w.calls ++ r.calls)
  unfolding answer report_error
  answer_one r w = elim (Bool-cases r.success) [
    | inl e ↦ rw e ((_, refl), refl, refl, refl)
    | inr e ↦ rw e ((_, refl), refl, refl, refl)
  ]

  Ends-Promise :
      (request : Bytes) (w : World) {e : Ended}
      → w.ipvs_locked ≡ false
      → Ends net json request w e
      → Promise request w e
  Ends-Promise request w free (rejected reason status ne) =
      unfold report_error in ((_, refl), refl, free, inl refl)
  Ends-Promise request w free failed = (refl, refl, refl)
  Ends-Promise request w free (failed_locked a) = (refl, refl, refl)
  Ends-Promise request w free (updated server weight a asked) =
      let r = set_weight net w.config.vip server weight (updating net json w).logger in
      let (one, cl, il, calls) = answer_one r (updating net json w) in
      (
        one,
        cl,
        il,
        inr (
          record {
            server = server;
            weight = weight;
            authorized = a;
            asked = asked;
            result = r;
            result_of = refl;
          },
          calls,
        ),
      )

  -- A request that finds both mutexes free never blocks. If the handler returns, it has sent exactly one
  -- response and released both mutexes, and libipvs was called only for a request that carries the
  -- configured API key, with the host and the number that it names. If an exception leaves the handler,
  -- nothing was sent and libipvs was not called.
  pub post-Promise :
      (request : Bytes) (w : World)
      → w.config_locked ≡ false
      → w.ipvs_locked ≡ false
      → Promise request w (handle_post_request net json request w)
  post-Promise request w cf free =
      Ends-Promise request w free (post-Ends net json request w cf free)

  -- What the last response says.
  abbrev pub Confirmed : World → Ended → Type 0
  Confirmed w (returned w') =
      (r : Response) × (w'.responses ≡ w.responses ++ r ∷ []) × (r.status ≡ ok)
  Confirmed w (thrown w') = ⊥
  Confirmed w (blocked w') = ⊥

  -- The kernel's table was updated: one call, with the weight that the request names, which returned 0.
  pub record Updated (request : Bytes) (w : World) (e : Ended) : Type 0 where
    pub update : Update request w
    pub svc : Service
    pub dest : Dest
    pub sent_weight : dest.weight ≡ update.weight
    pub accepted : eq_ℤ (net.update_dest svc dest) (pos 0) ≡ true
    pub final : World
    pub end_of : e ≡ returned final
    pub one_call : final.calls ≡ w.calls ++ (svc, dest) ∷ []

  concat_inj : (l : List Response) {a b : Response} → l ++ a ∷ [] ≡ l ++ b ∷ [] → a ≡ b
  concat_inj [] h = cc
  concat_inj (x ∷ l) h = concat_inj l (cc)

  answer_ok : (r : Weighed) (w : World) → Confirmed w (returned (answer r w)) → r.success ≡ true
  unfolding answer report_error
  answer_ok r w (x, e, o) = elim (Bool-cases r.success) [
    | inl h ↦ h
    | inr h ↦
        let told = rw h at e in
        absurd (fault (ap (λ (t : Response). t.status) (concat_inj w.responses told) ∙ o))
  ]
    where
      fault : internal_server_error ≡ ok → ⊥
      fault q = cc

  sent_update :
      (request : Bytes) (w : World) (server : Bytes) (weight : ℤ)
      (a : Authorized net json request w.config.api_key)
      → Asked net json a.root server weight
      → (set_weight net w.config.vip server weight (updating net json w).logger).success ≡ true
      → Updated request w (
          returned (
            answer
              (set_weight net w.config.vip server weight (updating net json w).logger)
              (updating net json w)))
  sent_update request w server weight a asked h =
      elim (weight_outcome net w.config.vip server weight (updating net json w).logger) [
        | inr q ↦ absurd (clash (sym h ∙ q.1.failed))
        | inl p ↦ record {
          update = record {
            server = server;
            weight = weight;
            authorized = a;
            asked = asked;
            result = _;
            result_of = refl;
          };
          svc = p.1.svc;
          dest = p.1.dest;
          sent_weight = p.1.weight_sent;
          accepted = sym p.1.answer ∙ h;
          final = _;
          end_of = refl;
          one_call = (answer_one _ (updating net json w)).3 ∙ ap (λ cs. w.calls ++ cs) p.1.one_call;
        }
      ]
    where
      clash : true ≡ false → ⊥
      clash q = cc

  Ends-Updated :
      (request : Bytes) (w : World) {e : Ended}
      → Ends net json request w e
      → Confirmed w e
      → Updated request w e
  Ends-Updated request w (rejected reason status ne) (x, e, o) =
      absurd (
        ne
          (unfold report_error in (ap (λ (t : Response). t.status) (concat_inj w.responses e) ∙ o)))
  Ends-Updated request w failed c = absurd c
  Ends-Updated request w (failed_locked a) c = absurd c
  Ends-Updated request w (updated server weight a asked) c =
      sent_update request w server weight a asked (answer_ok _ (updating net json w) c)

  -- To a request that finds both mutexes free, a response with the status 200 is sent only if libipvs
  -- was called exactly once, with the weight that the request, which is authorized, names, and
  -- returned 0.
  pub ok-Updated :
      (request : Bytes) (w : World)
      → w.config_locked ≡ false
      → w.ipvs_locked ≡ false
      → Confirmed w (handle_post_request net json request w)
      → Updated request w (handle_post_request net json request w)
  ok-Updated request w cf free = Ends-Updated request w (post-Ends net json request w cf free)
