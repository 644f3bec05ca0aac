-- ===== src/HttpServer/Post/Faults.antt =====
-- The requests that `handle_post_request` of src/http_server.cpp refuses, and with which answer.
use ipvshttpd.HttpServer.Post.Outcome.Passing.{Passes}
use ipvshttpd.HttpServer.Post.Outcome.{Authorized, post_free}
use ipvshttpd.HttpServer.Post.{
  Json, Status, bad_request, unauthorized, World, Ended, returned, thrown, report_error,
  read_config, update_locked, check_kernels, check_host, check_key, handle_parsed,
  handle_post_request,
}
use ipvshttpd.Libipvs.{Net}
use ipvshttpd.Prelude.Bytes.{Bytes, codes}
use ipvshttpd.Prelude.{true, false, none, some, ◌≡◌, refl, ◌∙◌}

module _ (net : Net) (json : Json) where
  open json use {Value, parse, index, is_null, ne_text, is_int}

  -- What may be wrong with a request, in the words of its answer, in the order of the checks.
  pub data Fault (request api_key : Bytes) : Bytes → Status → Type 0 where
    not_json :
        parse request ≡ none → Fault request api_key (codes "Could not parse JSON.") bad_request
    no_key :
        (root key : Value)
        → parse request ≡ some root
        → index root (codes "api_key") ≡ some key
        → is_null key ≡ true
        → Fault request api_key (codes "Missing API key.") unauthorized
    wrong_key :
        (root key : Value)
        → parse request ≡ some root
        → index root (codes "api_key") ≡ some key
        → is_null key ≡ false
        → ne_text key api_key ≡ true
        → Fault request api_key (codes "Invalid API key.") unauthorized
    no_host :
        (a : Authorized net json request api_key) (host : Value)
        → index a.root (codes "host") ≡ some host
        → is_null host ≡ true
        → Fault request api_key (codes "No host specified.") bad_request
    no_kernels :
        (a : Authorized net json request api_key) (host kernels : Value)
        → index a.root (codes "host") ≡ some host
        → is_null host ≡ false
        → index a.root (codes "available_kernels") ≡ some kernels
        → is_null kernels ≡ true
        → Fault request api_key (codes "No available_kernels specified.") bad_request
    no_number :
        (a : Authorized net json request api_key) (host kernels : Value)
        → index a.root (codes "host") ≡ some host
        → is_null host ≡ false
        → index a.root (codes "available_kernels") ≡ some kernels
        → is_null kernels ≡ false
        → is_int kernels ≡ false
        → Fault request api_key
            (codes "available_kernels needs to be an integer value.")
            bad_request

  -- A request whose JSON is no object, so that a member of it cannot be looked up.
  pub data NoObject (request : Bytes) : Type 0 where
    no_member :
        (root : Value) (name : Bytes)
        → parse request ≡ some root
        → index root name ≡ none
        → NoObject request

  pub data Sort (request api_key : Bytes) : Type 0 where
    faulty :
        (reason : Bytes) (status : Status)
        → Fault request api_key reason status
        → Sort request api_key
    no_object : NoObject request → Sort request api_key
    passing : Passes net json request api_key → Sort request api_key

  abbrev Answered : (request : Bytes) (w : World) → Sort request w.config.api_key → Ended → Type 0
  Answered request w (faulty reason status f) e =
      e ≡ returned (report_error reason status (read_config w))
  Answered request w (no_object n) e = e ≡ thrown (read_config w)
  Answered request w (passing p) e = e ≡ update_locked net json p.hostname p.kernels (read_config w)

  -- The sort of a request, with what is done with it.
  abbrev pub SortedEnd : (request : Bytes) (w : World) → Ended → Type 0
  SortedEnd request w e = (s : Sort request w.config.api_key) × Answered request w s e

  -- A request that finds the configuration mutex free and has one of the six faults is answered
  -- with the reason of that fault, with the status that belongs to it, and with nothing else: no
  -- JSON, an API key that is missing or wrong, a host that is missing, a number of kernels that is
  -- missing or no integer, each behind the checks before it.
  pub handle_post_request-Fault :
      (request : Bytes) (w : World) {reason : Bytes} {status : Status}
      → w.config_locked ≡ false
      → Fault request w.config.api_key reason status
      → handle_post_request net json request w
        ≡ returned (report_error reason status (read_config w))
  unfolding handle_parsed check_key check_host check_kernels
  handle_post_request-Fault request w cf (not_json p) = post_free net json request w cf ∙ rw p refl
  handle_post_request-Fault request w cf (no_key root key p kf kn) =
      post_free net json request w cf ∙ rw p (rw (kf, handle_parsed) (rw kn refl))
  handle_post_request-Fault request w cf (wrong_key root key p kf kn ne) =
      post_free net json request w cf ∙ rw p (rw (kf, handle_parsed) (rw (kn, ne) refl))
  handle_post_request-Fault request w cf (no_host a host hf hn) =
      post_free net json request w cf
      ∙ rw a.parsed
          (rw (a.key_found, handle_parsed) (rw (a.key_not_null, a.key_matches, hf, hn) refl))
  handle_post_request-Fault request w cf (no_kernels a host kernels hf hn nf nn) =
      post_free net json request w cf
      ∙ rw a.parsed (
          rw (a.key_found, handle_parsed) (rw (a.key_not_null, a.key_matches, hf, hn, nf, nn) refl))
  handle_post_request-Fault request w cf (no_number a host kernels hf hn nf nn ni) =
      post_free net json request w cf
      ∙ rw a.parsed (
          rw (a.key_found, handle_parsed)
            (rw (a.key_not_null, a.key_matches, hf, hn, nf, nn, ni) refl))
