-- ===== src/HttpServer/Threads/Progress/Able.antt =====
-- Which handlers of src/http_server.cpp can take a step.
use ipvshttpd.HttpServer.Post.{Json, World}
use ipvshttpd.HttpServer.Threads.Locals.{in_config, in_ipvs}
use ipvshttpd.HttpServer.Threads.Exceptions.{left_locked}
use ipvshttpd.HttpServer.Threads.{
  Pc, arrived, reading, copied, logged_key, logged_vip, checking, wanting, converting, applying,
  answering, reported, failure_reported, answer_step, unlocking, done, crashed, crashed_locked,
  step_pc,
}
use ipvshttpd.Libipvs.{Net}
use ipvshttpd.Prelude.Bytes.{Bytes}
use ipvshttpd.Prelude.{ℕ, Bool, true, false, some, ◌≡◌, refl, arith, if◌then◌else◌}

module _ (net : Net) (json : Json) where
  -- A handler that has ended.
  abbrev pub has_ended : Pc net json → Bool
  has_ended done = true
  has_ended crashed = true
  has_ended crashed_locked = true
  has_ended _ = false

  abbrev pub ended_ℕ : Pc net json → ℕ
  ended_ℕ p = if has_ended p then 0 else 1

  -- The step that a handler can take, if it is not ended and the mutex that it may want is free.
  unfoldable pub CanStep : World → Bytes → Pc net json → Type 0
  CanStep w request p =
      (w' : World) × (p' : Pc net json) × (step_pc net json request p w ≡ some (w', p'))

  pub inside_CanStep :
      (w : World) (request : Bytes) (p : Pc net json)
      → in_ipvs net json p ≡ 1
      → left_locked net json p ≡ 0
      → CanStep w request p
  unfolding CanStep step_pc answer_step
  inside_CanStep w request (converting h k v) e l = (_, _, refl)
  inside_CanStep w request (applying s n v) e l = (_, _, refl)
  inside_CanStep w request (answering true) e l = (_, _, refl)
  inside_CanStep w request (answering false) e l = (_, _, refl)
  inside_CanStep w request failure_reported e l = (_, _, refl)
  inside_CanStep w request (reported reason) e l = absurd (omega arith)
  inside_CanStep w request unlocking e l = (_, _, refl)
  inside_CanStep w request crashed_locked e l = absurd (omega arith)
  inside_CanStep w request arrived e l = absurd (omega arith)
  inside_CanStep w request reading e l = absurd (omega arith)
  inside_CanStep w request (copied k v) e l = absurd (omega arith)
  inside_CanStep w request (logged_key k v) e l = absurd (omega arith)
  inside_CanStep w request (logged_vip k v) e l = absurd (omega arith)
  inside_CanStep w request (checking k v) e l = absurd (omega arith)
  inside_CanStep w request (wanting h k v) e l = absurd (omega arith)
  inside_CanStep w request done e l = absurd (omega arith)
  inside_CanStep w request crashed e l = absurd (omega arith)

  pub reading_CanStep :
      (w : World) (request : Bytes) (p : Pc net json)
      → in_config net json p ≡ 1
      → CanStep w request p
  unfolding CanStep step_pc answer_step
  reading_CanStep w request reading e = (_, _, refl)
  reading_CanStep w request (copied k v) e = (_, _, refl)
  reading_CanStep w request (logged_key k v) e = (_, _, refl)
  reading_CanStep w request (logged_vip k v) e = (_, _, refl)
  reading_CanStep w request arrived e = absurd (omega arith)
  reading_CanStep w request (checking k v) e = absurd (omega arith)
  reading_CanStep w request (wanting h k v) e = absurd (omega arith)
  reading_CanStep w request (converting h k v) e = absurd (omega arith)
  reading_CanStep w request (applying s n v) e = absurd (omega arith)
  reading_CanStep w request (answering b) e = absurd (omega arith)
  reading_CanStep w request failure_reported e = absurd (omega arith)
  reading_CanStep w request (reported reason) e = absurd (omega arith)
  reading_CanStep w request unlocking e = absurd (omega arith)
  reading_CanStep w request done e = absurd (omega arith)
  reading_CanStep w request crashed e = absurd (omega arith)
  reading_CanStep w request crashed_locked e = absurd (omega arith)

  pub free_CanStep :
      (w : World) (request : Bytes) (p : Pc net json)
      → w.config_locked ≡ false
      → w.ipvs_locked ≡ false
      → ended_ℕ p ≡ 1
      → CanStep w request p
  unfolding CanStep step_pc answer_step
  free_CanStep w request arrived cf free e =
      (record w { config_locked = true }, reading, rw cf refl)
  free_CanStep w request reading cf free e = (_, _, refl)
  free_CanStep w request (copied k v) cf free e = (_, _, refl)
  free_CanStep w request (logged_key k v) cf free e = (_, _, refl)
  free_CanStep w request (logged_vip k v) cf free e = (_, _, refl)
  free_CanStep w request (checking k v) cf free e = (_, _, refl)
  free_CanStep w request (wanting h k v) cf free e =
      (record w { ipvs_locked = true }, converting h k v, rw free refl)
  free_CanStep w request (converting h k v) cf free e = (_, _, refl)
  free_CanStep w request (applying s n v) cf free e = (_, _, refl)
  free_CanStep w request (answering true) cf free e = (_, _, refl)
  free_CanStep w request (answering false) cf free e = (_, _, refl)
  free_CanStep w request failure_reported cf free e = (_, _, refl)
  free_CanStep w request (reported reason) cf free e = (_, _, refl)
  free_CanStep w request unlocking cf free e = (_, _, refl)
  free_CanStep w request done cf free e = absurd (omega arith)
  free_CanStep w request crashed cf free e = absurd (omega arith)
  free_CanStep w request crashed_locked cf free e = absurd (omega arith)
