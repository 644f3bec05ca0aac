-- ===== src/Daemon/Shutdown.antt =====
-- The destructors that run when the process of src/ipvshttpd.cpp ends, and the calls of libipvs that it has
-- made by then.
pub mod Process
use ipvshttpd.Configuration.{Config}
use ipvshttpd.Daemon.Options.{Options, Parse, exit_one, options, default_options, parse_args}
use ipvshttpd.Daemon.Run.{
  Host, ForkResult, fork_failed, in_parent, in_child, Ending, exited, aborted, hung, Exit,
  FileEvent, Loaded, load_failed, loaded, load_config, stop_all, finish, after_start, serve_all,
  run_server, fork_and_run, run_daemon, after_load, after_parse, initial_logger, main,
}
use ipvshttpd.HttpServer.Server.Events.{result_of, start_course}
use ipvshttpd.HttpServer.Server.Keeping.{IsKept, stop_keep, start_keep}
use ipvshttpd.HttpServer.Server.{
  RunEnd, by_itself, by_signal, by_exception, Netlib, HttpServer, Started, gave, threw, stuck, stop,
  start,
}
use ipvshttpd.IpvsInterface.Life.{comes_up, init_calls, init_outcome}
use ipvshttpd.IpvsInterface.{IpvsCall, call_close, InitAnswers, Interface, init, close}
use ipvshttpd.Prelude.Bytes.{Bytes, equal}
use ipvshttpd.Prelude.Int.{pos, eq_ℤ}
use ipvshttpd.Prelude.{
  ℕ, Bool, true, false, not, ◌||◌, List, [], ◌∷◌, ◌++◌, append-nil, Option, none, some, ◌≡◌, refl,
  sym, ap, ◌∙◌, ◌⊎◌, inl, inr, Bool-cases, if◌then◌else◌,
}
use mathlib.Core.Path.{subst}

-- The destructor of the server object, which stops, and then that of the static `ipvs`.
unfoldable pub destroy : HttpServer → HttpServer
unfolding stop close
destroy s = let s' = stop s in record s' { interface = close s'.interface }

-- Where `main` returned before the server object was there, `ipvs` was never initialized. An exception
-- that nothing catches ends the process without the destructors.
abbrev pub calls_by : Ending → Option HttpServer → List IpvsCall
calls_by e none = []
calls_by (exited code) (some s) = (destroy s).interface.made
calls_by aborted (some s) = s.interface.made
calls_by hung (some s) = s.interface.made

abbrev pub process_calls : Exit → List IpvsCall
process_calls e = calls_by e.ending e.server

-- The calls into libipvs so far, and the flag, are the same.
abbrev pub SameIpvs : HttpServer → HttpServer → Type 0
SameIpvs s t =
    (t.interface.made ≡ s.interface.made) × (t.interface.initialized ≡ s.interface.initialized)

SameIpvs-IsKept : (s : HttpServer) → IsKept (SameIpvs s)
SameIpvs-IsKept s = record {
  logs_keep = λ m t h. h;
  happens_keep = λ e t h. h;
  pointer_keep = λ b t h. h;
}

pub stop-SameIpvs : (s : HttpServer) → SameIpvs s (stop s)
stop-SameIpvs s = stop_keep (SameIpvs s) (SameIpvs-IsKept s) s (refl, refl)

-- The calls behind one `init` of a new interface, and the flag.
abbrev pub Inited : InitAnswers → HttpServer → Type 0
Inited a s = (s.interface.made ≡ init_calls a) × (s.interface.initialized ≡ comes_up a)

-- The object of `main` before its `start`: an interface that nothing was done with, no server, and the IPVS
-- mutex free.
abbrev pub IsUnused : HttpServer → Type 0
IsUnused s =
    (s.interface.made ≡ [])
    × (s.interface.initialized ≡ false)
    × (s.has_server ≡ false)
    × (s.ipvs_locked ≡ false)

init-Inited :
    (a : InitAnswers) (i : Interface)
    → i.made ≡ []
    → i.initialized ≡ false
    → ((init a i).0.made ≡ init_calls a) × ((init a i).0.initialized ≡ comes_up a)
init-Inited a i made off =
    let told = init_outcome a i in
    (
      told.2 ∙ ap (λ l. l ++ init_calls a) made,
      told.1 ∙ ap (λ b. comes_up a || b) off ∙ or_false (comes_up a),
    )
  where
    or_false : (b : Bool) → (b || false) ≡ b
    or_false true = refl
    or_false false = refl

Inited-IsKept : (a : InitAnswers) → IsKept (Inited a)
Inited-IsKept a = record {
  logs_keep = λ m t h. h;
  happens_keep = λ e t h. h;
  pointer_keep = λ b t h. h;
}

pub start-Inited :
    (a : InitAnswers) (n : Netlib) (c : Config) (s : HttpServer)
    → IsUnused s
    → Inited a (start a n c s).0
start-Inited a n c s (made, off, empty, free) =
    start_keep (Inited a) (Inited-IsKept a) a n c s (λ locked. cc)
      (init-Inited a s.interface made off)

-- What the process calls in all: libipvs is closed behind the calls of `init` exactly if it came up.
abbrev pub opened_and_closed : InitAnswers → List IpvsCall
opened_and_closed a = init_calls a ++ (if comes_up a then call_close ∷ [] else [])

close_made :
    (i : Interface) → (close i).made ≡ i.made ++ (if i.initialized then call_close ∷ [] else [])
unfolding close
close_made i = elim (Bool-cases i.initialized) [
  | inl e ↦ rw e refl
  | inr e ↦ rw (e, append-nil) refl
]

destroy_made :
    (s : HttpServer)
    → (destroy s).interface.made
      ≡ s.interface.made ++ (if s.interface.initialized then call_close ∷ [] else [])
unfolding destroy
destroy_made s =
    let kept = stop-SameIpvs s in
    close_made (stop s).interface
    ∙ ap (λ l. l ++ (if (stop s).interface.initialized then call_close ∷ [] else [])) kept.0
    ∙ ap (λ b. s.interface.made ++ (if b then call_close ∷ [] else [])) kept.1

pub unused_calls : (s : HttpServer) → IsUnused s → (destroy s).interface.made ≡ []
unused_calls s (made, off, empty, free) =
    destroy_made s
    ∙ ap (λ l. l ++ (if s.interface.initialized then call_close ∷ [] else [])) made
    ∙ ap (λ b. if b then call_close ∷ [] else []) off

pub closing_calls :
    (a : InitAnswers) (s : HttpServer)
    → Inited a s
    → (destroy s).interface.made ≡ opened_and_closed a
closing_calls a s (made, flag) =
    destroy_made s
    ∙ ap (λ l. l ++ (if s.interface.initialized then call_close ∷ [] else [])) made
    ∙ ap (λ b. init_calls a ++ (if b then call_close ∷ [] else [])) flag
