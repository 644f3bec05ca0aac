-- ===== src/HttpServer/Post/Sequence.antt =====
-- Several requests to src/http_server.cpp, one handled behind the other.
use ipvshttpd.HttpServer.Post.Outcome.Promise.{post-Promise}
use ipvshttpd.HttpServer.Post.Outcome.{
  updating, Ends, rejected, failed, failed_locked, updated, post-Ends,
}
use ipvshttpd.HttpServer.Post.{
  Json, Response, World, Ended, returned, thrown, blocked, report_error, answer,
  handle_post_request,
}
use ipvshttpd.IpvsInterface.Weight.Outcome.{weight_calls}
use ipvshttpd.IpvsInterface.{Weighed, set_weight}
use ipvshttpd.Libipvs.{Net}
use ipvshttpd.Prelude.Bytes.{Bytes}
use ipvshttpd.Prelude.{
  ℕ, ◌+◌, ◌≤◌, false, List, [], ◌∷◌, ◌++◌, append_assoc, append-nil, length, length-append, ◌≡◌,
  refl, sym, ap, ◌∙◌, inl, inr, arith, Bool-cases,
}

answer_config : (r : Weighed) (w : World) → (answer r w).config ≡ w.config
unfolding answer report_error
answer_config r w = elim (Bool-cases r.success) [ inl e ↦ rw e refl | inr e ↦ rw e refl ]

answer_calls : (r : Weighed) (w : World) → (answer r w).calls ≡ w.calls ++ r.calls
unfolding answer report_error
answer_calls r w = elim (Bool-cases r.success) [ inl e ↦ rw e refl | inr e ↦ rw e refl ]

module _ (net : Net) (json : Json) where
  -- What a handled request leaves as it was, and how many calls it adds.
  abbrev Steady : World → Ended → Type 0
  Steady w (returned w') = (w'.config ≡ w.config) × (length w'.calls ≤ length w.calls + 1)
  Steady w (thrown w') = Unit
  Steady w (blocked w') = Unit

  Ends-Steady : (request : Bytes) (w : World) {e : Ended} → Ends net json request w e → Steady w e
  Ends-Steady request w (rejected reason status ne) = unfold report_error in (refl, omega arith)
  Ends-Steady request w failed = tt
  Ends-Steady request w (failed_locked a) = tt
  Ends-Steady request w (updated server weight a asked) =
      let g = (updating net json w).logger in
      let r = set_weight net w.config.vip server weight g in
      (
        answer_config r (updating net json w),
        omega (
          arith,
          ap length (answer_calls r (updating net json w)),
          length-append w.calls r.calls,
          weight_calls net w.config.vip server weight g,
        ),
      )

  -- The requests are handled in turn, and each handler returns.
  pub data Served : World → List Bytes → World → Type 0 where
    all_served : {w : World} → Served w [] w
    serve_next :
        {w w' w'' : World} {request : Bytes} {requests : List Bytes}
        → handle_post_request net json request w ≡ returned w'
        → Served w' requests w''
        → Served w (request ∷ requests) w''

  -- The two mutexes are free.
  pub record IsFree (w : World) : Type 0 where
    pub config_free : w.config_locked ≡ false
    pub ipvs_free : w.ipvs_locked ≡ false

  -- The world behind `n` requests.
  pub record After (w : World) (n : ℕ) (w' : World) : Type 0 where
    pub answers : List Response
    pub answered : w'.responses ≡ w.responses ++ answers
    pub one_each : length answers ≡ n
    pub still_free : IsFree w'
    pub same_config : w'.config ≡ w.config
    pub few_calls : length w'.calls ≤ length w.calls + n

  one-After :
      (request : Bytes) (w w' : World)
      → IsFree w
      → handle_post_request net json request w ≡ returned w'
      → After w 1 w'
  one-After request w w' free e =
      let p = rw e at (post-Promise net json request w free.config_free free.ipvs_free) in
      let s =
        rw e at
          (Ends-Steady request w (post-Ends net json request w free.config_free free.ipvs_free)) in
      record {
        answers = p.0.0 ∷ [];
        answered = p.0.1;
        one_each = refl;
        still_free = record { config_free = p.1; ipvs_free = p.2 };
        same_config = s.0;
        few_calls = s.1;
      }

  -- Where both mutexes are free and the handler returns for each of a sequence of requests, exactly one
  -- response is sent for each, the configuration stays, both mutexes are free again, and libipvs was
  -- called at most once for each request.
  pub Served-After :
      {w w' : World} {requests : List Bytes}
      → IsFree w
      → Served w requests w'
      → After w (length requests) w'
  Served-After free (all_served {w}) = record {
    answers = [];
    answered = sym (append-nil w.responses);
    one_each = refl;
    still_free = free;
    same_config = refl;
    few_calls = omega arith;
  }
  Served-After free (serve_next {w} {w'} {w''} {request} {requests} e rest) =
      let one = one-After request w w' free e in
      let later = Served-After one.still_free rest in
      record {
        answers = one.answers ++ later.answers;
        answered =
            later.answered
            ∙ ap (λ rs. rs ++ later.answers) one.answered
            ∙ append_assoc w.responses one.answers later.answers;
        one_each =
            omega (arith, length-append one.answers later.answers, one.one_each, later.one_each);
        still_free = later.still_free;
        same_config = later.same_config ∙ one.same_config;
        few_calls = omega (arith, one.few_calls, later.few_calls);
      }
