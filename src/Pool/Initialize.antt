-- ===== src/Pool/Initialize.antt =====
-- Initialize of a WorkerPool in internal/worker/worker_pool.go.
use log_generator.Config.Profiles.{EpsProfile}
use log_generator.Float.{Float64}
use log_generator.Pool.State.{Pool, max_workers}
use log_generator.Prelude.{
  List, Option, String, [], if◌then◌else◌, length, none, some, str_eq, suc, zero, ℕ, ◌++◌, ◌+◌, ◌∷◌,
}
use log_generator.Prelude.Int.{eqb_ℤ, ltb_ℤ, mul64, pos, quot, rounds, ℤ}
use log_generator.Prelude.Result.{Result, err, ok, ◌>>=◌}
use log_generator.Worker.State.{
  Network, SetupError, Worker, new_udp_worker_with_config, set_buffer_sizes, set_precision_mode,
  set_target_eps,
}

pub data InitOutcome : Type 0 where
  initialized pool_running divided_by_zero : InitOutcome
  worker_failed : ℤ → SetupError → InitOutcome

-- The number of workers to make, at most 200
unfoldable pub limited_count : EpsProfile → ℤ
limited_count p = if ltb_ℤ max_workers p.worker_count then max_workers else p.worker_count

module _ {F : Type 0} (fl : Float64 F) where
  -- The settings that Initialize makes on a new worker, of `count` workers.
  unfoldable pub configure : ℤ → EpsProfile → ℤ → Worker F → Worker F
  configure now profile count w =
      let sized =
        if ltb_ℤ (pos 0) profile.send_buffer_size
        then set_buffer_sizes fl (mul64 profile.send_buffer_size (pos 1024))
            (mul64 profile.receive_buffer_size (pos 1024)) w
        else w in
      let targeted = set_target_eps fl now (quot profile.target_eps count) sized in
      if str_eq profile.precision_mode ""
      then targeted
      else set_precision_mode fl profile.precision_mode targeted

  -- The worker of index `i`, of `count`.
  unfoldable pub make_worker :
      (ℕ → Network) → ℤ → String → EpsProfile → ℤ → ℕ → Result SetupError (Worker F)
  make_worker net now host profile count i = do
    w ←
        new_udp_worker_with_config fl (net i) now (pos (i + 1)) (pos (10514 + i)) host
          profile.batch_size profile.ticker_interval
    ok (configure now profile count w)

  -- The loop of Initialize from index `i` on, with `left` workers to make; the workers made before a
  -- failure stay in the pool.
  unfoldable pub create_loop :
      (ℕ → Network)
      → ℤ
      → String
      → EpsProfile
      → ℤ
      → ℕ
      → ℕ
      → List (Worker F)
      → List (Worker F) × Option (ℤ × SetupError)
  create_loop net now host profile count zero i made = (made, none)
  create_loop net now host profile count (suc left) i made =
      elim (make_worker net now host profile count i) [
        | err e ↦ (made, some (pos (i + 1), e))
        | ok w ↦ create_loop net now host profile count left (suc i) (made ++ w ∷ [])
      ]

  -- Initialize. With no worker to make, its last line divides by zero.
  unfoldable pub initialize : (ℕ → Network) → ℤ → Pool F → Pool F × InitOutcome
  initialize net now p =
      if p.is_running
      then (p, pool_running)
      else let count = limited_count p.profile in
        let (made, failure) =
          create_loop net now p.target_host p.profile count (rounds count) 0 p.workers in
        elim failure [
          | some (id, e) ↦ (record p { workers = made }, worker_failed id e)
          | none ↦ (
            record p { workers = made; worker_count = pos (length made) },
            if eqb_ℤ count (pos 0) then divided_by_zero else initialized,
          )
        ]
