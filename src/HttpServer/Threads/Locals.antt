-- ===== src/HttpServer/Threads/Locals.antt =====
-- What the local variables of a handler of src/http_server.cpp say, and the sections it can be in.
use ipvshttpd.Configuration.{Config}
use ipvshttpd.HttpServer.Post.Outcome.{Authorized, Asked}
use ipvshttpd.HttpServer.Post.Outcome.Passing.{Cleared}
use ipvshttpd.HttpServer.Post.{Json}
use ipvshttpd.HttpServer.Threads.{
  Verdict, proceed, judge_kernels, judge_host, judge_key, judge_parsed, judge, Pc, reading, copied,
  logged_key, logged_vip, checking, wanting, converting, applying, answering, reported,
  failure_reported, unlocking, done, crashed_locked,
}
use ipvshttpd.Libipvs.{Net}
use ipvshttpd.Prelude.Bytes.{Bytes, codes}
use ipvshttpd.Prelude.{
  ℕ, Bool, false, Option, none, some, ◌≡◌, refl, sym, ap, ◌∙◌, inl, inr, Bool-cases, Option-cases,
  if◌then◌else◌,
}
use mathlib.Core.Path.{subst}

abbrev pub held : Bool → ℕ
held b = if b then 1 else 0

module _ (net : Net) (json : Json) where
  open json use {Value, parse, index, is_null, ne_text, is_int, as_text, as_int}

  -- Between the lock of the configuration mutex and its unlock.
  abbrev pub in_config : Pc net json → ℕ
  in_config reading = 1
  in_config (copied k v) = 1
  in_config (logged_key k v) = 1
  in_config (logged_vip k v) = 1
  in_config _ = 0

  -- Between the lock of the IPVS mutex and its unlock, an exception on the way included.
  abbrev pub in_ipvs : Pc net json → ℕ
  in_ipvs (converting h k v) = 1
  in_ipvs (applying s w v) = 1
  in_ipvs (answering b) = 1
  in_ipvs failure_reported = 1
  in_ipvs unlocking = 1
  in_ipvs crashed_locked = 1
  in_ipvs _ = 0

  -- Its response has been sent.
  abbrev pub answered : Pc net json → ℕ
  answered (reported reason) = 1
  answered failure_reported = 1
  answered unlocking = 1
  answered done = 1
  answered _ = 0

  -- Its update, if it came to one, has been made.
  abbrev pub obeyed : Pc net json → ℕ
  obeyed (reported reason) = 1
  obeyed (answering b) = 1
  obeyed failure_reported = 1
  obeyed unlocking = 1
  obeyed done = 1
  obeyed _ = 0

  -- What the local variables of a handler say about its request and the configuration.
  abbrev pub IsTrue : Config → Bytes → Pc net json → Type 0
  IsTrue c request (copied k v) = (k ≡ c.api_key) × (v ≡ c.vip)
  IsTrue c request (logged_key k v) = (k ≡ c.api_key) × (v ≡ c.vip)
  IsTrue c request (logged_vip k v) = (k ≡ c.api_key) × (v ≡ c.vip)
  IsTrue c request (checking k v) = (k ≡ c.api_key) × (v ≡ c.vip)
  IsTrue c request (wanting h k v) = Cleared net json request c.api_key h k × (v ≡ c.vip)
  IsTrue c request (converting h k v) = Cleared net json request c.api_key h k × (v ≡ c.vip)
  IsTrue c request (applying s n v) =
      ((a : Authorized net json request c.api_key) × Asked net json a.root s n) × (v ≡ c.vip)
  IsTrue c request _ = Unit

  -- The verdict on a request goes on only if the request has passed every check.
  abbrev pub IsSound : Bytes → Bytes → Verdict net json → Type 0
  IsSound request api_key (proceed h k) = Cleared net json request api_key h k
  IsSound request api_key _ = Unit

  module _ (request api_key : Bytes) (a : Authorized net json request api_key) (h : Value)
      (hf : index a.root (codes "host") ≡ some h) where
    kernels-IsSound :
        (k : Value)
        → is_null h ≡ false
        → index a.root (codes "available_kernels") ≡ some k
        → IsSound request api_key (judge_kernels net json h k)
    unfolding judge_kernels
    kernels-IsSound k hn kf = elim (Bool-cases (is_null k)) [
      | inl e ↦ rw e tt
      | inr e ↦ rw e (elim (Bool-cases (is_int k)) [
        | inr e' ↦ rw e' tt
        | inl e' ↦ rw e' (record {
          auth = a;
          host_found = hf;
          host_not_null = hn;
          kernels_found = kf;
          kernels_not_null = e;
          kernels_is_int = e';
        })
      ])
    ]

    host-IsSound : IsSound request api_key (judge_host net json a.root h)
    unfolding judge_host
    host-IsSound = elim (Bool-cases (is_null h)) [
      | inl e ↦ rw e tt
      | inr e ↦ rw e (elim (Option-cases (index a.root (codes "available_kernels"))) [
        | inl e' ↦ rw e' tt
        | inr (k, e') ↦ rw e' (kernels-IsSound k e e')
      ])
    ]

  key-IsSound :
      (request api_key : Bytes) (root key : Value)
      → parse request ≡ some root
      → index root (codes "api_key") ≡ some key
      → IsSound request api_key (judge_key net json root key api_key)
  unfolding judge_key
  key-IsSound request api_key root key p f = elim (Bool-cases (is_null key)) [
    | inl e ↦ rw e tt
    | inr e ↦ rw e (elim (Bool-cases (ne_text key api_key)) [
      | inl e' ↦ rw e' tt
      | inr e' ↦ rw e' (elim (Option-cases (index root (codes "host"))) [
        | inl n ↦ rw n tt
        | inr (h, hf) ↦ rw hf (
            host-IsSound request api_key
              (record {
                root = root;
                key = key;
                parsed = p;
                key_found = f;
                key_not_null = e;
                key_matches = e';
              })
              h hf)
      ])
    ])
  ]

  parsed-IsSound :
      (request api_key : Bytes) (o : Option Value)
      → parse request ≡ o
      → IsSound request api_key (judge_parsed net json o api_key)
  unfolding judge_parsed
  parsed-IsSound request api_key none e = tt
  parsed-IsSound request api_key (some root) e =
      elim (Option-cases (index root (codes "api_key"))) [
        | inl n ↦ rw (n, judge_parsed) tt
        | inr (key, f) ↦ rw (f, judge_parsed) (key-IsSound request api_key root key e f)
      ]

  pub judge-IsSound :
      (request api_key : Bytes) → IsSound request api_key (judge net json request api_key)
  unfolding judge
  judge-IsSound request api_key = parsed-IsSound request api_key (parse request) refl

  -- A request that goes on with a key has passed every check with that key.
  pub judged-Cleared :
      (request api_key : Bytes) {k : Bytes} {h n : Value}
      → k ≡ api_key
      → judge net json request k ≡ proceed h n
      → Cleared net json request api_key h n
  judged-Cleared request api_key same e =
      subst (IsSound request api_key) (ap (judge net json request) (sym same) ∙ e)
        (judge-IsSound request api_key)

  -- And the other way round.
  pub Cleared-judged :
      {request api_key : Bytes} {h n : Value}
      → Cleared net json request api_key h n
      → judge net json request api_key ≡ proceed h n
  unfolding judge judge_parsed judge_key judge_host judge_kernels
  Cleared-judged c = rw (c.auth.parsed) (
      rw (c.auth.key_found, judge_parsed)
        (rw (c.auth.key_not_null, c.auth.key_matches)
          (rw (c.host_found) (
            rw (c.host_not_null)
              (rw (c.kernels_found) (rw (c.kernels_not_null, c.kernels_is_int) refl))))))
