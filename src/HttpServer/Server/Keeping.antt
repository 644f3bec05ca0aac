-- ===== src/HttpServer/Server/Keeping.antt =====
-- What `start` and `stop` of src/http_server.cpp keep of the server object: the steps that they are made of.
use ipvshttpd.Configuration.{Config}
use ipvshttpd.HttpServer.Server.{
  ServerEvent, RunEnd, by_itself, by_signal, by_exception, endless, stuck_in_delete, Netlib,
  HttpServer, happens, logs, stop, ssl_files, takes_files, options_of, Prepared, ready, ends,
  make_server, prepare, run, run_prepared, start,
}
use ipvshttpd.IpvsInterface.{InitAnswers, init}
use ipvshttpd.Prelude.Bytes.{Bytes, codes}
use ipvshttpd.Prelude.{Bool, true, false, not, ◌≡◌, refl, if◌then◌else◌}

-- A predicate at the state that is to be run or has been left.
abbrev pub PreparedWith {ℓ} : (HttpServer → Type ℓ) → Prepared → Type ℓ
PreparedWith P (ready s) = P s
PreparedWith P (ends s r) = P s

pub either_prepared {ℓ} :
    (Q : Prepared → Type ℓ) (b : Bool) (x y : Prepared) → Q x → Q y → Q (if b then x else y)
either_prepared Q true x y hx hy = hx
either_prepared Q false x y hx hy = hy

pub either_server {ℓ} :
    (P : HttpServer → Type ℓ) (b : Bool) (x y : HttpServer) → P x → P y → P (if b then x else y)
either_server P true x y hx hy = hx
either_server P false x y hx hy = hy

pub unless_stuck {ℓ} :
    (Q : Prepared → Type ℓ) (b : Bool) (x y : Prepared)
    → (b ≡ true → Q x)
    → Q y
    → Q (if b then x else y)
unless_stuck Q true x y hx hy = hx refl
unless_stuck Q false x y hx hy = hy

-- A predicate that a log message, an event and a new pointer do not change.
pub record IsKept {ℓ} (P : HttpServer → Type ℓ) : Type ℓ where
  pub logs_keep : (m : Bytes) (s : HttpServer) → P s → P (logs m s)
  pub happens_keep : (e : ServerEvent) (s : HttpServer) → P s → P (happens e s)
  pub pointer_keep : (b : Bool) (s : HttpServer) → P s → P (record s { has_server = b })

module _ {ℓ} (P : HttpServer → Type ℓ) (kept : IsKept P) where
  open kept use {logs_keep, happens_keep, pointer_keep}

  pub stop_keep : (s : HttpServer) → P s → P (stop s)
  unfolding stop
  stop_keep s h =
      either_server P s.has_server _ s
        (pointer_keep false _ (happens_keep _ _ (happens_keep _ _ (logs_keep _ s h)))) h

  pub make_server_keep :
      (n : Netlib) (c : Config) (s : HttpServer) → P s → PreparedWith P (make_server n c s)
  unfolding make_server
  make_server_keep n c s h =
      let s' : HttpServer = if s.has_server then stop s else s in
      let s'' : HttpServer = if c.use_ssl then logs (codes "Enabling SSL.") s' else s' in
      let h' : P s' = either_server P s.has_server (stop s) s (stop_keep s h) h in
      let h'' : P s'' = either_server P c.use_ssl _ s' (logs_keep _ s' h') h' in
      either_prepared (PreparedWith P) (not (takes_files n (ssl_files c))) _ _ h'' (
        either_prepared (PreparedWith P) (not (n.makes (options_of c s''))) _ _ h''
          (pointer_keep true _ (happens_keep _ s'' h'')))

  pub run_keep : (e : RunEnd) (s : HttpServer) → P s → P (run e s).0
  unfolding run
  run_keep by_itself s h = happens_keep _ _ (happens_keep _ _ (happens_keep _ _ (logs_keep _ s h)))
  run_keep by_signal s h =
      happens_keep _ _ (happens_keep _ _ (stop_keep _ (happens_keep _ _ (logs_keep _ s h))))
  run_keep by_exception s h = happens_keep _ _ (happens_keep _ _ (logs_keep _ s h))
  run_keep endless s h = happens_keep _ _ (logs_keep _ s h)
  run_keep stuck_in_delete s h =
      happens_keep _ _ (logs_keep _ _ (happens_keep _ _ (logs_keep _ s h)))

  pub run_prepared_keep : (e : RunEnd) (p : Prepared) → PreparedWith P p → P (run_prepared e p).0
  run_prepared_keep e (ready s) h = run_keep e s h
  run_prepared_keep e (ends s r) h = h

  -- So `start` keeps what the locking and `init` also keep; where it waits, it has done nothing.
  pub start_keep :
      (a : InitAnswers) (n : Netlib) (c : Config) (s : HttpServer)
      → (s.ipvs_locked ≡ true → P s)
      → P (record s { interface = (init a s.interface).0; ipvs_locked = false })
      → P (start a n c s).0
  unfolding start prepare
  start_keep a n c s h h' = run_prepared_keep n.run_end (prepare a n c s) (
      unless_stuck (PreparedWith P) s.ipvs_locked _ _ h (
        either_prepared (PreparedWith P) (init a s.interface).1 _ _ (make_server_keep n c _ h') h'))
