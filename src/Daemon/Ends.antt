-- ===== src/Daemon/Ends.antt =====
-- How `main` of src/ipvshttpd.cpp ends behind its fork: the PID file and the result of the process.
use ipvshttpd.Configuration.{Config}
use ipvshttpd.Daemon.Options.{Options}
use ipvshttpd.Daemon.Run.{
  Host, Ending, exited, aborted, hung, Exit, FileEvent, wrote, removed, stop_all, finish,
  after_start, serve_all, run_server,
}
use ipvshttpd.HttpServer.Server.{HttpServer, Started, gave, threw, stuck, start}
use ipvshttpd.Libc.{decimal}
use ipvshttpd.Logging.{log_error}
use ipvshttpd.Prelude.Bytes.{codes, equal}
use ipvshttpd.Prelude.Int.{pos, eq_ℤ}
use ipvshttpd.Prelude.{
  ℕ, Bool, true, false, ◌||◌, ◌++◌, append-nil, some, List, [], ◌∷◌, ◌≡◌, refl, sym, inl, inr,
  arith, if◌then◌else◌, Bool-cases,
}
use mathlib.Core.Path.{subst}

-- Whether the process, if it has a PID file, can write it.
abbrev pub writes : Host → Options → Bool
writes host o = equal o.pid_file [] || host.can_write o.pid_file

-- The result behind the clean-up.
abbrev pub removes : Host → Options → ℕ
removes host o = if equal o.pid_file [] || eq_ℤ (host.remove o.pid_file) (pos 0) then 0 else 1

-- What is done to the PID file, if there is one, before the server runs, and behind it.
abbrev pub pid_written : Host → Options → List FileEvent
pid_written host o =
    if equal o.pid_file [] then [] else wrote o.pid_file (decimal host.getpid ++ codes "\n") ∷ []

abbrev pub pid_removed : Options → List FileEvent
pid_removed o = if equal o.pid_file [] then [] else removed o.pid_file ∷ []

-- A process behind its fork: its end, what it has done to files, in order, and the state of its server object.
pub record Cleaned (e : Exit) (d : Ending) (files : List FileEvent) (s : HttpServer) : Type 0 where
  pub ends_so : e.ending ≡ d
  pub files_so : e.files ≡ files
  pub server_so : e.server ≡ some s

-- By the object that `start` leaves, and its result.
abbrev pub CleanedBy : Started → HttpServer → Host → Options → Exit → Type 0
CleanedBy (gave up) s host o e =
    Cleaned e (exited (removes host o)) (pid_written host o ++ pid_removed o) (stop_all s)
CleanedBy threw s host o e = Cleaned e aborted (pid_written host o) s
CleanedBy stuck s host o e = Cleaned e hung (pid_written host o) s

pub finish_end :
    (host : Host) (o : Options) (files : List FileEvent) (s : HttpServer)
    → ((finish host o.pid_file files s).ending ≡ exited (removes host o))
      × ((finish host o.pid_file files s).server ≡ some s)
unfolding finish
finish_end host o files s = elim (Bool-cases (equal o.pid_file [])) [
  | inl e ↦ rw e (refl, refl)
  | inr e ↦ elim (Bool-cases (eq_ℤ (host.remove o.pid_file) (pos 0))) [
    | inl r ↦ rw (e, r) (refl, refl)
    | inr r ↦ rw (e, r) (refl, refl)
  ]
]

finish-Cleaned :
    (host : Host) (o : Options) (files : List FileEvent) (s : HttpServer)
    → Cleaned (finish host o.pid_file files s) (exited (removes host o)) (files ++ pid_removed o) s
unfolding finish
finish-Cleaned host o files s = elim (Bool-cases (equal o.pid_file [])) [
  | inl e ↦ rw e (record { ends_so = refl; files_so = sym (append-nil files); server_so = refl })
  | inr e ↦ elim (Bool-cases (eq_ℤ (host.remove o.pid_file) (pos 0))) [
    | inl r ↦ rw (e, r) (record { ends_so = refl; files_so = refl; server_so = refl })
    | inr r ↦ rw (e, r) (record { ends_so = refl; files_so = refl; server_so = refl })
  ]
]

after_start-CleanedBy :
    (host : Host) (o : Options) (s : HttpServer) (r : Started)
    → CleanedBy r s host o (after_start host o.pid_file (pid_written host o) s r)
unfolding after_start
after_start-CleanedBy host o s (gave up) = finish-Cleaned host o (pid_written host o) (stop_all s)
after_start-CleanedBy host o s threw = record { ends_so = refl; files_so = refl; server_so = refl }
after_start-CleanedBy host o s stuck = record { ends_so = refl; files_so = refl; server_so = refl }

run_server-pid_written :
    (host : Host) (o : Options) (c : Config) (s : HttpServer)
    → writes host o ≡ true
    → run_server host o c s ≡ serve_all host c o.pid_file (pid_written host o) s
unfolding run_server
run_server-pid_written host o c s w = elim (Bool-cases (equal o.pid_file [])) [
  | inl e ↦ rw e refl
  | inr e ↦ elim (Bool-cases (host.can_write o.pid_file)) [
    | inl can ↦ rw (e, can) refl
    | inr can ↦ cc
  ]
]

-- By whether the PID file can be written; where it cannot, the server object is as it came, but for the
-- error in its log.
abbrev pub CleanedIf : Bool → HttpServer → HttpServer × Started → Host → Options → Exit → Type 0
CleanedIf true s x host o e = CleanedBy x.1 x.0 host o e
CleanedIf false s x host o e =
    Cleaned e (exited 1) [] s
    × (e.logger
        ≡ log_error (codes "Could not write to PID file: " ++ o.pid_file) s.interface.logger)

unwritten :
    (host : Host) (o : Options) (c : Config) (s : HttpServer) (x : HttpServer × Started)
    → writes host o ≡ false
    → CleanedIf false s x host o (run_server host o c s)
unfolding run_server
unwritten host o c s x w = elim (Bool-cases (equal o.pid_file [])) [
  | inl e ↦ absurd (ground (arith, e, w))
  | inr e ↦ elim (Bool-cases (host.can_write o.pid_file)) [
    | inl can ↦ absurd (ground (arith, e, can, w))
    | inr can ↦ rw (e, can) (record { ends_so = refl; files_so = refl; server_so = refl }, refl)
  ]
]

-- Behind the fork, a process that cannot write its PID file logs an error and exits with 1; it has done
-- nothing to files, and its server object is untouched. Else it starts its server. If `start` returns, with
-- whatever answer, the server is stopped; all that was done to files is that the PID file, if there is one,
-- was written, with the number of the process, and `remove` was called for it afterwards; and the result is
-- 0, or 1 if that call fails. If an exception leaves `start`, the process is aborted, and if `start` never
-- returns, nor does `main`; in both cases the PID file, if there is one, was written, and nothing else was
-- done to files.
pub run_server-CleanedIf :
    (host : Host) (o : Options) (c : Config) (s : HttpServer)
    → CleanedIf
        (writes host o)
        s
        (start host.init_answers host.netlib c s)
        host
        o
        (run_server host o c s)
unfolding serve_all
run_server-CleanedIf host o c s =
    let x = start host.init_answers host.netlib c s in
    elim (Bool-cases (writes host o)) [
      | inl w ↦
          subst (λ b. CleanedIf b s x host o (run_server host o c s)) (sym w)
            (subst (CleanedBy x.1 x.0 host o) (sym (run_server-pid_written host o c s w))
              (after_start-CleanedBy host o x.0 x.1))
      | inr w ↦
          subst (λ b. CleanedIf b s x host o (run_server host o c s)) (sym w)
            (unwritten host o c s x w)
    ]
