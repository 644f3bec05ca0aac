-- ===== src/HttpServer/Post/Outcome/Passing.antt =====
-- The requests that pass every check of src/http_server.cpp, and what becomes of them behind the checks.
use ipvshttpd.HttpServer.Post.Outcome.{Authorized, Asked, updating, reaches_update}
use ipvshttpd.HttpServer.Post.{
  Json, World, thrown, blocked, read_config, update_locked, convert_and_update, handle_post_request,
}
use ipvshttpd.Libipvs.{Net}
use ipvshttpd.Prelude.Bytes.{Bytes, codes}
use ipvshttpd.Prelude.Int.{ℤ}
use ipvshttpd.Prelude.{true, false, none, some, ◌≡◌, refl, ◌∙◌}

module _ (net : Net) (json : Json) where
  open json use {Value, index, is_null, is_int, as_text, as_int}

  -- The request has passed every check, with these two values: the conversions are not among the checks.
  pub record Cleared (request api_key : Bytes) (hostname kernels : Value) : Type 0 where
    pub auth : Authorized net json request api_key
    pub host_found : index auth.root (codes "host") ≡ some hostname
    pub host_not_null : is_null hostname ≡ false
    pub kernels_found : index auth.root (codes "available_kernels") ≡ some kernels
    pub kernels_not_null : is_null kernels ≡ false
    pub kernels_is_int : is_int kernels ≡ true

  -- Once both values are converted, the request is one that asks for them.
  pub Cleared-Asked :
      {request api_key : Bytes} {h k : Value} {server : Bytes} {weight : ℤ}
      → (c : Cleared request api_key h k) → as_text h ≡ some server
      → as_int k ≡ some weight
      → Asked net json c.auth.root server weight
  Cleared-Asked {h = h} {k} c et en = record {
    hostname = h;
    kernels = k;
    host_found = c.host_found;
    host_not_null = c.host_not_null;
    kernels_found = c.kernels_found;
    kernels_not_null = c.kernels_not_null;
    kernels_is_int = c.kernels_is_int;
    server_text = et;
    weight_int = en;
  }

  -- A request that passes every check of the handler.
  pub record Passes (request api_key : Bytes) : Type 0 where
    pub hostname : Value
    pub kernels : Value
    pub cleared : Cleared request api_key hostname kernels

  pub passes_update :
      (request : Bytes) (w : World) (p : Passes request w.config.api_key)
      → w.config_locked ≡ false
      → handle_post_request net json request w
        ≡ update_locked net json p.hostname p.kernels (read_config w)
  passes_update request w p cf =
      reaches_update net json request w p.cleared.auth.root p.cleared.auth.key p.hostname p.kernels
        cf p.cleared.auth.parsed p.cleared.auth.key_found p.cleared.auth.key_not_null
        p.cleared.auth.key_matches p.cleared.host_found p.cleared.host_not_null
        p.cleared.kernels_found p.cleared.kernels_not_null p.cleared.kernels_is_int

  update_throws :
      (hostname kernels : Value) (w : World)
      → w.ipvs_locked ≡ false
      → as_text hostname ≡ none
      → update_locked net json hostname kernels (read_config w) ≡ thrown (updating net json w)
  unfolding update_locked convert_and_update
  update_throws hostname kernels w free e = simp free (rw (e, convert_and_update) refl)

  update_blocks :
      (hostname kernels : Value) (w : World)
      → w.ipvs_locked ≡ true
      → update_locked net json hostname kernels w ≡ blocked w
  unfolding update_locked
  update_blocks hostname kernels w h = simp h

  -- A request that finds both mutexes free and whose `host` passes the checks but has no text form,
  -- such as a JSON object, throws while the IPVS mutex is held. It is not released: each request that
  -- comes then and passes the checks blocks.
  pub host_throws_deadlocks :
      (request : Bytes) (w : World) (p : Passes request w.config.api_key)
      → w.config_locked ≡ false
      → w.ipvs_locked ≡ false
      → as_text p.hostname ≡ none
      → (handle_post_request net json request w ≡ thrown (updating net json w))
        × ((later : Bytes)
            → Passes later w.config.api_key
            → handle_post_request net json later (updating net json w)
              ≡ blocked (read_config (updating net json w)))
  host_throws_deadlocks request w p cf free e = (
    passes_update request w p cf ∙ update_throws p.hostname p.kernels w free e,
    λ later q.
        passes_update later (updating net json w) q refl
        ∙ update_blocks q.hostname q.kernels (read_config (updating net json w)) refl,
  )
