-- ===== src/HttpServer/Server/Life.antt =====
-- The life of the server of cpp-netlib under `start` and `stop` of src/http_server.cpp.
use ipvshttpd.Configuration.{Config}
use ipvshttpd.HttpServer.Server.Keeping.{PreparedWith, either_prepared, either_server}
use ipvshttpd.HttpServer.Server.{
  ServerEvent, created, run_entered, run_left, run_threw, stopped, deleted, io_stopped, RunEnd,
  by_itself, by_signal, by_exception, endless, stuck_in_delete, Netlib, HttpServer, new_server,
  happens, logs, stop, ssl_files, takes_files, options_of, create, Prepared, ready, ends,
  make_server, prepare, after_run, run, run_prepared, start,
}
use ipvshttpd.IpvsInterface.{Interface, InitAnswers, init}
use ipvshttpd.Prelude.Bytes.{Bytes, codes}
use ipvshttpd.Prelude.Int.{ℤ}
use ipvshttpd.Prelude.{
  ℕ, ◌+◌, Bool, true, false, not, List, [], ◌∷◌, ◌++◌, ◌≡◌, refl, ◌∙◌, inl, inr, arith, Bool-cases,
  if◌then◌else◌,
}

abbrev pub news : List ServerEvent → ℕ
news [] = 0
news (created o ∷ es) = 1 + news es
news (_ ∷ es) = news es

abbrev pub deletes : List ServerEvent → ℕ
deletes [] = 0
deletes (deleted ∷ es) = 1 + deletes es
deletes (_ ∷ es) = deletes es

abbrev pub held : Bool → ℕ
held b = if b then 1 else 0

-- Each server that was created and not deleted is the one that the pointer holds.
abbrev pub IsBalanced : HttpServer → Type 0
IsBalanced s = news s.events ≡ deletes s.events + held s.has_server

abbrev new_of : ServerEvent → ℕ
new_of e = news (e ∷ [])

abbrev delete_of : ServerEvent → ℕ
delete_of e = deletes (e ∷ [])

news-concat : (es : List ServerEvent) (e : ServerEvent) → news (es ++ e ∷ []) ≡ news es + new_of e
news-concat [] e = omega arith
news-concat (created o ∷ es) e = omega (arith, news-concat es e)
news-concat (_ ∷ es) e = news-concat es e

deletes-concat :
    (es : List ServerEvent) (e : ServerEvent) → deletes (es ++ e ∷ []) ≡ deletes es + delete_of e
deletes-concat [] e = omega arith
deletes-concat (deleted ∷ es) e = omega (arith, deletes-concat es e)
deletes-concat (_ ∷ es) e = deletes-concat es e

stop_balance :
    (s : HttpServer)
    → s.has_server ≡ true
    → IsBalanced s
    → news ((s.events ++ stopped ∷ []) ++ deleted ∷ [])
      ≡ deletes ((s.events ++ stopped ∷ []) ++ deleted ∷ [])
stop_balance s h b =
    let held_one : held s.has_server ≡ 1 = rw h refl in
    omega (
      arith,
      news-concat s.events stopped,
      news-concat (s.events ++ stopped ∷ []) deleted,
      deletes-concat s.events stopped,
      deletes-concat (s.events ++ stopped ∷ []) deleted,
    )

-- `stop` keeps the balance and leaves no server, however often it is called.
pub stop-IsBalanced :
    (s : HttpServer) → IsBalanced s → IsBalanced (stop s) × ((stop s).has_server ≡ false)
unfolding stop
stop-IsBalanced s b = elim (Bool-cases s.has_server) [
  | inl h ↦ simp h (omega (arith, stop_balance s h b), refl)
  | inr h ↦ simp h ((simp h at b), refl)
]

happens-IsBalanced :
    (e : ServerEvent) (s : HttpServer)
    → new_of e ≡ delete_of e
    → IsBalanced s
    → IsBalanced (happens e s)
happens-IsBalanced e s n b = omega (arith, news-concat s.events e, deletes-concat s.events e)

run-IsBalanced : (e : RunEnd) (s : HttpServer) → IsBalanced s → IsBalanced (run e s).0
unfolding run
run-IsBalanced e s b =
    ended e (happens run_entered (logs (codes "Server start.") s))
      (happens-IsBalanced run_entered (logs (codes "Server start.") s) refl b)
  where
    left : (t : HttpServer) → IsBalanced t → IsBalanced (happens io_stopped (happens run_left t))
    left t h =
        happens-IsBalanced io_stopped (happens run_left t) refl
          (happens-IsBalanced run_left t refl h)

    ended : (d : RunEnd) (t : HttpServer) → IsBalanced t → IsBalanced (after_run d t).0
    ended by_itself t h = left t h
    ended by_signal t h = left (stop t) (stop-IsBalanced t h).0
    ended by_exception t h = happens-IsBalanced run_threw t refl h
    ended endless t h = h
    ended stuck_in_delete t h = happens-IsBalanced stopped (logs (codes "Server stop.") t) refl h

create-IsBalanced :
    (c : Config) (s : HttpServer) → s.has_server ≡ false → IsBalanced s → IsBalanced (create c s)
create-IsBalanced c s h b =
    let none_held : held s.has_server ≡ 0 = rw h refl in
    omega (
      arith,
      news-concat s.events (created (options_of c s)),
      deletes-concat s.events (created (options_of c s)),
    )

-- No server is held, and the balance is kept.
abbrev IsCleared : HttpServer → Type 0
IsCleared s = IsBalanced s × (s.has_server ≡ false)

cleared : (s : HttpServer) → IsBalanced s → IsCleared (if s.has_server then stop s else s)
cleared s b = elim (Bool-cases s.has_server) [
  | inl h ↦ simp h (stop-IsBalanced s b)
  | inr h ↦ simp h ((simp h at b), refl)
]

make_server-IsBalanced :
    (n : Netlib) (c : Config) (s : HttpServer)
    → IsBalanced s
    → PreparedWith IsBalanced (make_server n c s)
unfolding make_server
make_server-IsBalanced n c s b =
    let s' : HttpServer = if s.has_server then stop s else s in
    let s'' : HttpServer = if c.use_ssl then logs (codes "Enabling SSL.") s' else s' in
    let (b'', empty) = either_server IsCleared c.use_ssl _ s' (cleared s b) (cleared s b) in
    either_prepared (PreparedWith IsBalanced) (not (takes_files n (ssl_files c))) _ _ b'' (
      either_prepared (PreparedWith IsBalanced) (not (n.makes (options_of c s''))) _ _ b''
        (create-IsBalanced c s'' empty b''))

run_prepared-IsBalanced :
    (e : RunEnd) (p : Prepared) → PreparedWith IsBalanced p → IsBalanced (run_prepared e p).0
run_prepared-IsBalanced e (ready s) b = run-IsBalanced e s b
run_prepared-IsBalanced e (ends s r) b = b

-- `start` keeps the balance, whatever fails or throws in it: a server that is still held is deleted
-- before the next is created, and one whose run throws stays held.
pub start-IsBalanced :
    (a : InitAnswers) (n : Netlib) (c : Config) (s : HttpServer)
    → IsBalanced s
    → IsBalanced (start a n c s).0
unfolding start prepare
start-IsBalanced a n c s b =
    let tried : HttpServer = record s { interface = (init a s.interface).0; ipvs_locked = false } in
    run_prepared-IsBalanced n.run_end (prepare a n c s) (
      either_prepared (PreparedWith IsBalanced) s.ipvs_locked _ _ b (
        either_prepared (PreparedWith IsBalanced) (init a s.interface).1 _ _
          (make_server-IsBalanced n c tried b) b))

-- What a caller does with the object.
pub data Use : Type 0 where
  starts : InitAnswers → Netlib → Config → Use
  stops : Use

abbrev pub use_once : HttpServer → Use → HttpServer
use_once s (starts a n c) = (start a n c s).0
use_once s stops = stop s

abbrev pub use_all : HttpServer → List Use → HttpServer
use_all s [] = s
use_all s (u ∷ us) = use_all (use_once s u) us

use_once-IsBalanced : (s : HttpServer) (u : Use) → IsBalanced s → IsBalanced (use_once s u)
use_once-IsBalanced s (starts a n c) b = start-IsBalanced a n c s b
use_once-IsBalanced s stops b = (stop-IsBalanced s b).0

use_all-IsBalanced : (s : HttpServer) (us : List Use) → IsBalanced s → IsBalanced (use_all s us)
use_all-IsBalanced s [] b = b
use_all-IsBalanced s (u ∷ us) b = use_all-IsBalanced (use_once s u) us (use_once-IsBalanced s u b)

-- However often a new object is started and stopped, in any order and whatever fails or throws in it, at
-- most one server exists at a time: each that was created and not deleted is the one that the pointer
-- holds. Another `stop` leaves none.
pub one_server :
    (listen_address : Bytes) (port threads : ℤ) (i : Interface) (locked : Bool) (us : List Use)
    → let s = use_all (new_server listen_address port threads i locked) us in
      IsBalanced s
      × (news (stop s).events ≡ deletes (stop s).events)
      × ((stop s).has_server ≡ false)
one_server listen_address port threads i locked us =
    let s : HttpServer = use_all (new_server listen_address port threads i locked) us in
    let b : IsBalanced s =
      use_all-IsBalanced (new_server listen_address port threads i locked) us refl in
    let (balance, empty) = stop-IsBalanced s b in (b, (rw empty at balance) ∙ omega arith, empty)
