-- ===== src/HttpServer/Threads/Alone/Verdicts.antt =====
-- The checks of `handle_post_request` of src/http_server.cpp, by their verdict.
use ipvshttpd.HttpServer.Post.{
  Json, World, Ended, returned, thrown, report_error, update_locked, check_kernels, check_host,
  check_key, handle_parsed,
}
use ipvshttpd.HttpServer.Threads.{
  Verdict, reject, throws, proceed, judge_kernels, judge_host, judge_key, judge_parsed, judge,
}
use ipvshttpd.Libipvs.{Net}
use ipvshttpd.Prelude.Bytes.{Bytes, codes}
use ipvshttpd.Prelude.{Option, none, some, ◌≡◌, refl, inl, inr, arith, Bool-cases, Option-cases}

module _ (net : Net) (json : Json) where
  open json use {Value, parse, index, is_null, ne_text, is_int, as_text, as_int}

  -- The sequential handler behind its checks, by the verdict.
  abbrev pub follow : Verdict net json → World → Ended
  follow (reject reason status) w = returned (report_error reason status w)
  follow throws w = thrown w
  follow (proceed hostname kernels) w = update_locked net json hostname kernels w

  judge_kernels_lem :
      (hostname kernels : Value) (w : World)
      → check_kernels net json hostname kernels w
        ≡ follow (judge_kernels net json hostname kernels) w
  unfolding check_kernels judge_kernels
  judge_kernels_lem hostname kernels w = ground arith

  judge_host_lem :
      (root hostname : Value) (w : World)
      → check_host net json root hostname w ≡ follow (judge_host net json root hostname) w
  unfolding check_host judge_host
  judge_host_lem root hostname w = elim (Bool-cases (is_null hostname)) [
    | inl e ↦ rw e refl
    | inr e ↦ rw e (elim (Option-cases (index root (codes "available_kernels"))) [
      | inl e' ↦ rw e' refl
      | inr (kernels, e') ↦ rw e' (judge_kernels_lem hostname kernels w)
    ])
  ]

  judge_key_lem :
      (root key : Value) (w : World)
      → check_key net json root key w ≡ follow (judge_key net json root key w.config.api_key) w
  unfolding check_key judge_key
  judge_key_lem root key w = elim (Bool-cases (is_null key)) [
    | inl e ↦ rw e refl
    | inr e ↦ rw e (elim (Bool-cases (ne_text key w.config.api_key)) [
      | inl e' ↦ rw e' refl
      | inr e' ↦ rw e' (elim (Option-cases (index root (codes "host"))) [
        | inl n ↦ rw n refl
        | inr (hostname, f) ↦ rw f (judge_host_lem root hostname w)
      ])
    ])
  ]

  judge_parsed_lem :
      (o : Option Value) (w : World)
      → handle_parsed net json o w ≡ follow (judge_parsed net json o w.config.api_key) w
  unfolding handle_parsed judge_parsed
  judge_parsed_lem none w = refl
  judge_parsed_lem (some root) w = elim (Option-cases (index root (codes "api_key"))) [
    | inl n ↦ rw (n, handle_parsed, judge_parsed) refl
    | inr (key, f) ↦ rw (f, handle_parsed, judge_parsed) (judge_key_lem root key w)
  ]

  pub judge_lem :
      (request : Bytes) (w : World)
      → handle_parsed net json (parse request) w
        ≡ follow (judge net json request w.config.api_key) w
  unfolding judge
  judge_lem request w = judge_parsed_lem (parse request) w
