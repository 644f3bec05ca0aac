-- ===== src/HttpServer/Post/Outcome.antt =====
-- How `handle_post_request` of src/http_server.cpp can end.
pub mod Promise
pub mod Passing
use ipvshttpd.HttpServer.Post.{
  Json, Status, ok, bad_request, unauthorized, internal_server_error, World, Ended, returned,
  thrown, blocked, report_error, read_config, answer, convert_and_update, update_locked,
  check_kernels, check_host, check_key, handle_parsed, handle_post_request,
}
use ipvshttpd.IpvsInterface.{set_weight}
use ipvshttpd.Libipvs.{Net}
use ipvshttpd.Prelude.Bytes.{Bytes, codes}
use ipvshttpd.Prelude.Int.{ℤ}
use ipvshttpd.Prelude.{
  Bool, true, false, not, Option, none, some, ◌≡◌, ◌≢◌, refl, sym, ap, ◌∙◌, ◌⊎◌, inl, inr, arith,
  Bool-cases, Option-cases, if◌then◌else◌,
}

module _ (net : Net) (json : Json) where
  open json use {Value, parse, index, is_null, ne_text, is_int, as_text, as_int}

  -- The request carries an API key, and the library finds it equal to the configured one.
  pub record Authorized (request : Bytes) (api_key : Bytes) : Type 0 where
    pub root : Value
    pub key : Value
    pub parsed : parse request ≡ some root
    pub key_found : index root (codes "api_key") ≡ some key
    pub key_not_null : is_null key ≡ false
    pub key_matches : ne_text key api_key ≡ false

  -- The request names a server and a whole number of kernels.
  pub record Asked (root : Value) (server : Bytes) (weight : ℤ) : Type 0 where
    pub hostname : Value
    pub kernels : Value
    pub host_found : index root (codes "host") ≡ some hostname
    pub host_not_null : is_null hostname ≡ false
    pub kernels_found : index root (codes "available_kernels") ≡ some kernels
    pub kernels_not_null : is_null kernels ≡ false
    pub kernels_is_int : is_int kernels ≡ true
    pub server_text : as_text hostname ≡ some server
    pub weight_int : as_int kernels ≡ some weight

  -- The world while the update runs.
  abbrev pub updating : World → World
  updating w = record (read_config w) { ipvs_locked = true }

  -- The four ends of a request that finds both mutexes free.
  pub data Ends (request : Bytes) (w : World) : Ended → Type 0 where
    rejected :
        (reason : Bytes) (status : Status)
        → status ≢ ok
        → Ends request w (returned (report_error reason status (read_config w)))
    failed : Ends request w (thrown (read_config w))
    failed_locked : Authorized request w.config.api_key → Ends request w (thrown (updating w))
    updated :
        (server : Bytes) (weight : ℤ) (a : Authorized request w.config.api_key)
        → Asked a.root server weight
        → Ends request w (
            returned
              (answer (set_weight net w.config.vip server weight (updating w).logger) (updating w)))

  module _ (request : Bytes) (w : World) (free : w.ipvs_locked ≡ false) where
    module _ (a : Authorized request w.config.api_key) (hostname : Value)
        (host_found : index a.root (codes "host") ≡ some hostname)
        (host_not_null : is_null hostname ≡ false) where
      update-Ends :
          (kernels : Value)
          → index a.root (codes "available_kernels") ≡ some kernels
          → is_null kernels ≡ false
          → is_int kernels ≡ true
          → Ends request w (update_locked net json hostname kernels (read_config w))
      unfolding update_locked convert_and_update
      update-Ends kernels kf kn ki = rw free (elim (Option-cases (as_text hostname)) [
        | inl e ↦ rw (e, convert_and_update) (failed_locked a)
        | inr (server, e) ↦ elim (Option-cases (as_int kernels)) [
          | inl e' ↦ rw (e, e', convert_and_update) (failed_locked a)
          | inr (weight, e') ↦
              rw (e, e', convert_and_update)
                (updated server weight a (record {
                  hostname = hostname;
                  kernels = kernels;
                  host_found = host_found;
                  host_not_null = host_not_null;
                  kernels_found = kf;
                  kernels_not_null = kn;
                  kernels_is_int = ki;
                  server_text = e;
                  weight_int = e';
                }))
        ]
      ])

      kernels-Ends :
          (kernels : Value)
          → index a.root (codes "available_kernels") ≡ some kernels
          → Ends request w (check_kernels net json hostname kernels (read_config w))
      unfolding check_kernels
      kernels-Ends kernels kf = elim (Bool-cases (is_null kernels)) [
        | inl e ↦ rw e (rejected _ bad_request (cc))
        | inr e ↦ rw e (elim (Bool-cases (is_int kernels)) [
          | inl e' ↦ rw e' (update-Ends kernels kf e e')
          | inr e' ↦ rw e' (rejected _ bad_request (cc))
        ])
      ]

    host-Ends :
        (a : Authorized request w.config.api_key) (hostname : Value)
        → index a.root (codes "host") ≡ some hostname
        → Ends request w (check_host net json a.root hostname (read_config w))
    unfolding check_host
    host-Ends a hostname hf = elim (Bool-cases (is_null hostname)) [
      | inl e ↦ rw e (rejected _ bad_request (cc))
      | inr e ↦ rw e (elim (Option-cases (index a.root (codes "available_kernels"))) [
        | inl e' ↦ rw e' failed
        | inr (kernels, e') ↦ rw e' (kernels-Ends a hostname hf e kernels e')
      ])
    ]

    key-Ends :
        (root key : Value)
        → parse request ≡ some root
        → index root (codes "api_key") ≡ some key
        → Ends request w (check_key net json root key (read_config w))
    unfolding check_key
    key-Ends root key p kf = elim (Bool-cases (is_null key)) [
      | inl e ↦ rw e (rejected _ unauthorized (cc))
      | inr e ↦ rw e (elim (Bool-cases (ne_text key w.config.api_key)) [
        | inl e' ↦ rw e' (rejected _ unauthorized (cc))
        | inr e' ↦ rw e' (elim (Option-cases (index root (codes "host"))) [
          | inl n ↦ rw n failed
          | inr (hostname, hf) ↦ rw hf (
              host-Ends
                (record {
                  root = root;
                  key = key;
                  parsed = p;
                  key_found = kf;
                  key_not_null = e;
                  key_matches = e';
                })
                hostname hf)
        ])
      ])
    ]

    parsed-Ends :
        (o : Option Value)
        → parse request ≡ o
        → Ends request w (handle_parsed net json o (read_config w))
    unfolding handle_parsed
    parsed-Ends none e = rejected _ bad_request (cc)
    parsed-Ends (some root) e = elim (Option-cases (index root (codes "api_key"))) [
      | inl n ↦ rw (n, handle_parsed) failed
      | inr (key, kf) ↦ rw (kf, handle_parsed) (key-Ends root key e kf)
    ]

  pub post_free :
      (request : Bytes) (w : World)
      → w.config_locked ≡ false
      → handle_post_request net json request w
        ≡ handle_parsed net json (parse request) (read_config w)
  unfolding handle_post_request
  post_free request w cf = simp cf

  pub post-Ends :
      (request : Bytes) (w : World)
      → w.config_locked ≡ false
      → w.ipvs_locked ≡ false
      → Ends request w (handle_post_request net json request w)
  post-Ends request w cf free =
      rw (post_free request w cf) (parsed-Ends request w free (parse request) refl)

  -- A request that passes all checks comes to the update, whoever holds the mutex.
  pub reaches_update :
      (request : Bytes) (w : World) (root key hostname kernels : Value)
      → w.config_locked ≡ false
      → parse request ≡ some root
      → index root (codes "api_key") ≡ some key
      → is_null key ≡ false
      → ne_text key w.config.api_key ≡ false
      → index root (codes "host") ≡ some hostname
      → is_null hostname ≡ false
      → index root (codes "available_kernels") ≡ some kernels
      → is_null kernels ≡ false
      → is_int kernels ≡ true
      → handle_post_request net json request w
        ≡ update_locked net json hostname kernels (read_config w)
  unfolding handle_parsed check_key check_host check_kernels
  reaches_update request w root key hostname kernels cf p kf kn km hf hn nf nn ni =
      post_free request w cf ∙ rw p (rw (kf, handle_parsed) (rw (kn, km, hf, hn, nf, nn, ni) refl))
