-- ===== src/HttpServer/Threads/Alone.antt =====
-- One handler on its own: the steps of src/http_server.cpp put together are `handle_post_request`.
pub mod Verdicts
use ipvshttpd.HttpServer.Threads.Alone.Verdicts.{follow, judge_lem}
use ipvshttpd.HttpServer.Post.{
  Json, World, Ended, returned, thrown, blocked, report_error, read_config, answer,
  convert_and_update, update_locked, check_kernels, check_host, check_key, handle_parsed,
  handle_post_request,
}
use ipvshttpd.HttpServer.Post.Outcome.Promise.{Promise, post-Promise}
use ipvshttpd.HttpServer.Threads.{
  Verdict, answering, reject, throws, proceed, judge_kernels, judge_host, judge_key, judge_parsed,
  judge, Pc, arrived, reading, wanting, converting, applying, done, crashed, crashed_locked, obey,
  converted, update_step, answer_step, step_pc,
}
use ipvshttpd.IpvsInterface.{set_weight}
use ipvshttpd.Libipvs.{Net, Service, Dest}
use ipvshttpd.Logging.{Logger}
use ipvshttpd.Prelude.Bytes.{Bytes, codes}
use ipvshttpd.Prelude.Int.{ℤ}
use ipvshttpd.Prelude.{
  ℕ, zero, suc, Bool, true, false, List, ◌++◌, Option, none, some, ◌≡◌, refl, sym, ap, ◌∙◌, inl,
  inr, arith, Bool-cases, Option-cases, if◌then◌else◌,
}

module _ (net : Net) (json : Json) where
  open json use {Value, parse, index, is_null, ne_text, is_int, as_text, as_int}

  -- The steps of one handler, as many as the fuel allows, until it has ended or waits.
  pub drive : ℕ → Bytes → World → Pc net json → World × Pc net json
  drive zero request w p = (w, p)
  drive (suc fuel) request w p = elim (step_pc net json request p w) [
    | none ↦ (w, p)
    | some (w', p') ↦ drive fuel request w' p'
  ]

  -- What the sequential handler calls such an end; none where it can go on.
  abbrev pub end_of : World × Pc net json → Option Ended
  end_of (w, done) = some (returned w)
  end_of (w, crashed) = some (thrown w)
  end_of (w, crashed_locked) = some (thrown w)
  end_of (w, arrived) = if w.config_locked then some (blocked w) else none
  end_of (w, wanting h k v) = if w.ipvs_locked then some (blocked w) else none
  end_of (w, p) = none

  step_some :
      (fuel : ℕ) (request : Bytes) (w w' : World) (p p' : Pc net json)
      → step_pc net json request p w ≡ some (w', p')
      → drive (suc fuel) request w p ≡ drive fuel request w' p'
  unfolding drive
  step_some fuel request w w' p p' e = rw (e, drive) refl

  step_none :
      (fuel : ℕ) (request : Bytes) (w : World) (p : Pc net json)
      → step_pc net json request p w ≡ none
      → drive (suc fuel) request w p ≡ (w, p)
  unfolding drive
  step_none fuel request w p e = rw (e, drive) refl

  -- The steps behind the update.
  answer_lem :
      (request : Bytes) (success : Bool) (calls : List (Service × Dest)) (logger : Logger)
      (server : Bytes) (w : World)
      → end_of (
          drive 3 request
            (record w { calls = w.calls ++ calls; logger = logger })
            (answering success))
        ≡ some (
            returned (
              answer
                (record { success = success; calls = calls; logger = logger; server = server })
                w))
  unfolding drive step_pc answer_step answer report_error
  answer_lem request true calls logger server w = refl
  answer_lem request false calls logger server w = refl

  -- The steps with the IPVS mutex held, from the update on.
  apply_lem :
      (request server vip : Bytes) (weight : ℤ) (w : World)
      → end_of (drive 4 request w (applying server weight vip))
        ≡ some (returned (answer (set_weight net vip server weight w.logger) w))
  unfolding drive step_pc update_step
  apply_lem request server vip weight w =
      let r = set_weight net vip server weight w.logger in
      answer_lem request r.success r.calls r.logger r.server w

  convert_lem :
      (request : Bytes) (hostname kernels : Value) (w : World)
      → end_of (drive 5 request w (converting hostname kernels w.config.vip))
        ≡ some (convert_and_update net json hostname kernels w)
  unfolding convert_and_update
  convert_lem request hostname kernels w =
      ap end_of (
        step_some 4 request w w (converting hostname kernels w.config.vip)
          (converted net json (as_text hostname) (as_int kernels) w.config.vip)
          (unfold step_pc in refl))
      ∙ elim (Option-cases (as_text hostname)) [
        | inl n ↦ rw (n, convert_and_update) (unfold drive step_pc in refl)
        | inr (server, e) ↦ elim (Option-cases (as_int kernels)) [
          | inl n ↦ rw (e, n, convert_and_update) (unfold drive step_pc in refl)
          | inr (weight, e') ↦
              rw (e, e', convert_and_update) (apply_lem request server w.config.vip weight w)
        ]
      ]

  update_lem :
      (request : Bytes) (hostname kernels : Value) (w : World)
      → end_of (drive 6 request w (wanting hostname kernels w.config.vip))
        ≡ some (update_locked net json hostname kernels w)
  unfolding update_locked
  update_lem request hostname kernels w = elim (Bool-cases w.ipvs_locked) [
    | inl taken ↦
        ap end_of (
          step_none 5 request w (wanting hostname kernels w.config.vip)
            (unfold step_pc in rw taken refl))
        ∙ rw taken refl
    | inr free ↦
        ap end_of (
          step_some 5 request w (record w { ipvs_locked = true })
            (wanting hostname kernels w.config.vip) (converting hostname kernels w.config.vip)
            (unfold step_pc in rw free refl))
        ∙ convert_lem request hostname kernels (record w { ipvs_locked = true })
        ∙ rw free refl
  ]

  verdict_lem :
      (request : Bytes) (v : Verdict net json) (w : World)
      → (let r = obey net json v w.config.vip w in end_of (drive 6 request r.0 r.1))
        ≡ some (follow net json v w)
  verdict_lem request (reject reason status) w = unfold drive step_pc report_error in refl
  verdict_lem request throws w = unfold drive step_pc in refl
  verdict_lem request (proceed hostname kernels) w = update_lem request hostname kernels w

  -- A handler that is driven alone, in any world, ends as `handle_post_request` says: it has returned or
  -- thrown with the same world, or stands at a lock with the world in which that one blocks.
  drive-handle_post_request :
      (request : Bytes) (w : World)
      → end_of (drive 12 request w arrived) ≡ some (handle_post_request net json request w)
  drive-handle_post_request request w = elim (Bool-cases w.config_locked) [
    | inl taken ↦
        ap end_of (step_none 11 request w arrived (unfold step_pc in rw taken refl))
        ∙ (unfold handle_post_request in rw taken refl)
    | inr free ↦
        ap end_of (reads free)
        ∙ verdict_lem request (judge net json request w.config.api_key) (read_config w)
        ∙ ap some (sym (judge_lem net json request (read_config w)))
        ∙ (unfold handle_post_request in rw free refl)
  ]
    where
      reads :
          w.config_locked ≡ false
          → drive 12 request w arrived ≡ (
              let r =
                obey net json
                  (judge net json request w.config.api_key)
                  w.config.vip
                  (read_config w) in
              drive 6 request r.0 r.1)
      reads free =
          step_some 11 request w (record w { config_locked = true }) arrived reading
            (unfold step_pc in rw free refl)
          ∙ (unfold drive step_pc in refl)

  -- A handler that is driven alone, from a world with both mutexes free, has ended when it has taken its
  -- steps, and keeps the promise of the sequential handler. Where it has returned, it has sent exactly one
  -- response and released both mutexes, and libipvs was called only for a request that carries the
  -- configured API key, with the host and the number that it names. Where an exception has left it, nothing
  -- was sent and libipvs was not called. Twelve steps are enough.
  pub drive-Promise :
      (request : Bytes) (w : World)
      → w.config_locked ≡ false
      → w.ipvs_locked ≡ false
      → (e : Ended) × (end_of (drive 12 request w arrived) ≡ some e) × Promise net json request w e
  drive-Promise request w cf free =
      (_, drive-handle_post_request request w, post-Promise net json request w cf free)
