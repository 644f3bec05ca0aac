-- ===== src/HttpServer/Threads/Refinement.antt =====
-- What the handlers of src/http_server.cpp promise together: the requests are taken one at a time.
use ipvshttpd.Configuration.{Config}
use ipvshttpd.HttpServer.Post.Outcome.{Authorized, Asked}
use ipvshttpd.HttpServer.Post.{Json, World}
use ipvshttpd.HttpServer.Threads.Effect.{Calls, same_calls, more_calls}
use ipvshttpd.HttpServer.Threads.Invariant.{Inv, Reach-Inv, All-split}
use ipvshttpd.HttpServer.Threads.Locals.{IsTrue}
use ipvshttpd.HttpServer.Threads.Moves.{
  Moves, locks_config, copies, logs_key, logs_vip, unlocks_config, rejects, throws_out, proceeds,
  locks_ipvs, converts, fails, applies, answers_ok, answers_error, logs_failure, logs_reason,
  unlocks_ipvs, step_pc-Moves,
}
use ipvshttpd.HttpServer.Threads.{
  Pc, reported, failure_reported, answering, unlocking, done, crashed, crashed_locked, Thread, Pool,
  Step, pick, Reach, here, next, arrivals, opening,
}
use ipvshttpd.IpvsInterface.{set_weight}
use ipvshttpd.Libipvs.{Net, Service, Dest}
use ipvshttpd.Logging.{Logger}
use ipvshttpd.Prelude.Bytes.{Bytes}
use ipvshttpd.Prelude.Int.{ℤ}
use ipvshttpd.Prelude.{
  Bool, true, false, List, [], ◌∷◌, ◌++◌, append_assoc, ◌≡◌, refl, sym, ap, ◌∙◌, All, if◌then◌else◌,
}
use mathlib.Core.Path.{subst}

module _ (net : Net) (json : Json) where
  -- The abstract server: the requests that are still to be taken, and the calls of libipvs so far.
  pub record Server : Type 0 where
    pub waiting : List Bytes
    pub calls : List (Service × Dest)

  -- One request after the other is taken, in any order, and each at most once: it is dropped, or, if it is
  -- authorized, the update that it asks for is made.
  pub data Serves (c : Config) (s : Server) : Server → Type 0 where
    begin : Serves c s s
    drop_one :
        (before after : List Bytes) (request : Bytes) {t : Server}
        → Serves c s t
        → t.waiting ≡ before ++ request ∷ after
        → Serves c s (record { waiting = before ++ after; calls = t.calls })
    obey_one :
        (before after : List Bytes) (request server : Bytes) (weight : ℤ) (g : Logger)
        (a : Authorized net json request c.api_key) {t : Server}
        → Serves c s t
        → t.waiting ≡ before ++ request ∷ after
        → Asked net json a.root server weight
        → Serves c s (record {
          waiting = before ++ after;
          calls = t.calls ++ (set_weight net c.vip server weight g).calls;
        })

  -- A handler that has not come to the end of its update, or of its request.
  abbrev pub is_waiting : Pc net json → Bool
  is_waiting (reported reason) = false
  is_waiting (answering b) = false
  is_waiting failure_reported = false
  is_waiting unlocking = false
  is_waiting done = false
  is_waiting crashed = false
  is_waiting crashed_locked = false
  is_waiting _ = true

  abbrev waiting_one : Bytes → Bool → List Bytes
  waiting_one request b = if b then request ∷ [] else []

  abbrev pub waiting_of : List (Thread net json) → List Bytes
  waiting_of [] = []
  waiting_of (t ∷ ts) = waiting_one t.request (is_waiting t.pc) ++ waiting_of ts

  waiting_of-append :
      (xs ys : List (Thread net json)) → waiting_of (xs ++ ys) ≡ waiting_of xs ++ waiting_of ys
  waiting_of-append [] ys = refl
  waiting_of-append (t ∷ ts) ys =
      ap (λ l. waiting_one t.request (is_waiting t.pc) ++ l) (waiting_of-append ts ys)
      ∙ sym (append_assoc (waiting_one t.request (is_waiting t.pc)) (waiting_of ts) (waiting_of ys))

  waiting_of-arrivals : (rs : List Bytes) → waiting_of (arrivals net json rs) ≡ rs
  waiting_of-arrivals [] = refl
  waiting_of-arrivals (r ∷ rs) = ap (λ l. r ∷ l) (waiting_of-arrivals rs)

  -- What a pool is to its clients.
  abbrev pub seen_as : Pool net json → Server
  seen_as s = record { waiting = waiting_of s.threads; calls = s.world.calls }

  -- A step is invisible, or the end of one request.
  data Shows (c : Config) (request : Bytes) (p p' : Pc net json) (cs cs' : List (Service × Dest))
      : Type 0 where
    invisible : is_waiting p' ≡ is_waiting p → cs' ≡ cs → Shows c request p p' cs cs'
    takes :
        is_waiting p ≡ true
        → is_waiting p' ≡ false
        → Calls net json c request cs cs'
        → Shows c request p p' cs cs'

  Moves-Shows :
      (c : Config) {request : Bytes} {w w' : World} {p p' : Pc net json}
      → Moves net json request w p w' p'
      → IsTrue net json c request p
      → Shows c request p p' w.calls w'.calls
  Moves-Shows c (locks_config free) t = invisible refl refl
  Moves-Shows c copies t = invisible refl refl
  Moves-Shows c (logs_key k v) t = invisible refl refl
  Moves-Shows c (logs_vip k v) t = invisible refl refl
  Moves-Shows c (unlocks_config k v) t = invisible refl refl
  Moves-Shows c (rejects k v reason status e) t = takes refl refl (same_calls refl)
  Moves-Shows c (throws_out k v e) t = takes refl refl (same_calls refl)
  Moves-Shows c (proceeds k v h n e) t = invisible refl refl
  Moves-Shows c (locks_ipvs h n v free) t = invisible refl refl
  Moves-Shows c (converts h n v s m et en) t = invisible refl refl
  Moves-Shows c (fails h n v e) t = takes refl refl (same_calls refl)
  Moves-Shows c {w = w} (applies s n v) t =
      takes refl refl (more_calls t.0.0 s n w.logger t.0.1 (rw t.1 refl))
  Moves-Shows c answers_ok t = invisible refl refl
  Moves-Shows c answers_error t = invisible refl refl
  Moves-Shows c logs_failure t = invisible refl refl
  Moves-Shows c (logs_reason reason) t = invisible refl refl
  Moves-Shows c unlocks_ipvs t = invisible refl refl

  same_server :
      {ws ws' : List Bytes} {cs cs' : List (Service × Dest)}
      → ws ≡ ws'
      → cs ≡ cs'
      → ◌≡◌ {A = Server}
          (record { waiting = ws; calls = cs })
          (record { waiting = ws'; calls = cs' })
  same_server p q = rw (p, q) refl

  module _ (c : Config) (origin : Server) (before after : List (Thread net json))
      (request : Bytes) where
    abbrev seen_at : Pc net json → World → Server
    seen_at q u =
        seen_as
          (record { world = u; threads = before ++ record { request = request; pc = q } ∷ after })

    waiting_at :
        (q : Pc net json)
        → waiting_of (before ++ record { request = request; pc = q } ∷ after)
          ≡ waiting_of before ++ (waiting_one request (is_waiting q) ++ waiting_of after)
    waiting_at q = waiting_of-append before (record { request = request; pc = q } ∷ after)

    waiting_by :
        (q : Pc net json) (b : Bool)
        → is_waiting q ≡ b
        → waiting_of (before ++ record { request = request; pc = q } ∷ after)
          ≡ waiting_of before ++ (waiting_one request b ++ waiting_of after)
    waiting_by q b e =
        waiting_at q
        ∙ ap (λ (x : Bool). waiting_of before ++ (waiting_one request x ++ waiting_of after)) e

    shown-Serves :
        (p p' : Pc net json) (v v' : World)
        → Shows c request p p' v.calls v'.calls
        → Serves c origin (seen_at p v)
        → Serves c origin (seen_at p' v')
    shown-Serves p p' v v' (invisible e same) r =
        subst (Serves c origin)
          (same_server (waiting_at p ∙ sym (waiting_by p' (is_waiting p) e)) (sym same)) r
    shown-Serves p p' v v' (takes w w' (same_calls e)) r =
        subst (Serves c origin) (same_server (sym (waiting_by p' false w')) (sym e))
          (drop_one (waiting_of before) (waiting_of after) request r (waiting_by p true w))
    shown-Serves p p' v v' (takes w w' (more_calls a server weight g asked e)) r =
        subst (Serves c origin) (same_server (sym (waiting_by p' false w')) (sym e)) (
          obey_one (waiting_of before) (waiting_of after) request server weight g a r
            (waiting_by p true w) asked)

  Step-Serves :
      (w : World) (requests : List Bytes) {origin : Server} {s t : Pool net json}
      → Step net json s t
      → Inv net json w requests s
      → Serves w.config origin (seen_as s)
      → Serves w.config origin (seen_as t)
  Step-Serves w requests {origin} {s} {t} (pick before after request p p' w' es e et) i r =
      let true_here : IsTrue net json w.config request p =
        (All-split (λ t. IsTrue net json w.config t.request t.pc) before
          (record { request = request; pc = p } ∷ after)
          (subst (All (λ t. IsTrue net json w.config t.request t.pc)) es i.locals)).1.0 in
      let shows = Moves-Shows w.config (step_pc-Moves net json e) true_here in
      subst (λ u. Serves w.config origin (seen_as u)) (sym et)
        (shown-Serves w.config origin before after request p p' s.world w' shows (
          subst (λ ts. Serves w.config origin (seen_as (record { world = s.world; threads = ts })))
            es r))

  -- The handlers with their two mutexes implement the abstract server: however they take their turns, from
  -- a world with both mutexes free, what has become of the waiting requests and of the calls of libipvs is
  -- what it makes of them when it takes the requests one after the other, each at most once, and either
  -- drops it or, if it is authorized, makes the whole update that it asks for, with the configured VIP.
  pub Reach-Serves :
      (w : World) (requests : List Bytes) {s : Pool net json}
      → w.config_locked ≡ false
      → w.ipvs_locked ≡ false
      → Reach net json (opening net json w requests) s
      → Serves w.config (record { waiting = requests; calls = w.calls }) (seen_as s)
  Reach-Serves w requests cf free here =
      subst (Serves w.config (record { waiting = requests; calls = w.calls }))
        (same_server (sym (waiting_of-arrivals requests)) refl) begin
  Reach-Serves w requests cf free (next r st) =
      Step-Serves w requests st (Reach-Inv net json w requests cf free r)
        (Reach-Serves w requests cf free r)
