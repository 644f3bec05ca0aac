-- ===== src/HttpServer/Threads/Schedule.antt =====
-- A schedule of the handlers of src/http_server.cpp, to run a pool: which handler has the next turn.
use ipvshttpd.HttpServer.Post.{Json, World}
use ipvshttpd.HttpServer.Threads.{Pc, Thread, step_pc, Pool, pick, Reach, here, next}
use ipvshttpd.Libipvs.{Net}
use ipvshttpd.Prelude.{
  ℕ, zero, suc, List, [], ◌∷◌, ◌++◌, append_assoc, Option, none, some, refl, inl, inr, Option-cases,
}
use mathlib.Core.Path.{subst}

module _ (net : Net) (json : Json) where
  abbrev behind : Thread net json → Pool net json → Pool net json
  behind t s = record { world = s.world; threads = t ∷ s.threads }

  -- The turn of the first handler, which passes where it has ended or waits.
  abbrev stepped :
      Thread net json
      → List (Thread net json)
      → World
      → Option (World × Pc net json)
      → Pool net json
  stepped t ts w none = record { world = w; threads = t ∷ ts }
  stepped t ts w (some (w', p')) = record {
    world = w';
    threads = record { request = t.request; pc = p' } ∷ ts;
  }

  unfoldable pub turn : World → List (Thread net json) → ℕ → Pool net json
  turn w [] k = record { world = w; threads = [] }
  turn w (t ∷ ts) zero = stepped t ts w (step_pc net json t.request t.pc w)
  turn w (t ∷ ts) (suc k) = behind t (turn w ts k)

  unfoldable pub run_schedule : List ℕ → Pool net json → Pool net json
  unfolding turn
  run_schedule [] s = s
  run_schedule (k ∷ ks) s = run_schedule ks (turn s.world s.threads k)

  abbrev among : List (Thread net json) → Pool net json → Pool net json
  among before s = record { world = s.world; threads = before ++ s.threads }

  turn-Reach :
      (before ts : List (Thread net json)) (w : World) (k : ℕ)
      → Reach net json (record { world = w; threads = before ++ ts }) (among before (turn w ts k))
  unfolding turn
  turn-Reach before [] w k = here
  turn-Reach before (t ∷ ts) w zero = elim (Option-cases (step_pc net json t.request t.pc w)) [
    | inl e ↦ rw e here
    | inr ((w', p'), e) ↦ rw e (next here (pick before ts t.request t.pc p' w' refl e refl))
  ]
  turn-Reach before (t ∷ ts) w (suc k) =
      let r = turn-Reach (before ++ t ∷ []) ts w k in
      subst
        (λ xs.
          Reach net json (record { world = w; threads = xs })
            (among before (behind t (turn w ts k))))
        (append_assoc before (t ∷ []) ts)
        (subst
          (λ xs.
            Reach net json (record { world = w; threads = (before ++ t ∷ []) ++ ts })
              (record { world = (turn w ts k).world; threads = xs }))
          (append_assoc before (t ∷ []) (turn w ts k).threads) r)

  followed_by :
      {s t u : Pool net json} → Reach net json s t → Reach net json t u → Reach net json s u
  followed_by r here = r
  followed_by r (next q st) = next (followed_by r q) st

  -- Every schedule is a run.
  pub run_schedule-Reach : (ks : List ℕ) (s : Pool net json) → Reach net json s (run_schedule ks s)
  unfolding run_schedule
  run_schedule-Reach [] s = here
  run_schedule-Reach (k ∷ ks) s =
      followed_by (turn-Reach [] s.threads s.world k)
        (run_schedule-Reach ks (turn s.world s.threads k))
