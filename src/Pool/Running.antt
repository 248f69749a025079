-- ===== src/Pool/Running.antt =====
-- Start and Stop of a WorkerPool in internal/worker/worker_pool.go. Start waits for the goroutines
-- that start the workers, so that each has run when it returns. The tuner only prints and collects
-- garbage.
use log_generator.Pool.State.{Pool}
use log_generator.Prelude.{List, [], false, if◌then◌else◌, true, ◌∷◌}
use log_generator.Prelude.Int.{ℤ}
use log_generator.Worker.Lifecycle.{Outcome, hung, panicked, refused, start, stop, succeeded}
use log_generator.Worker.State.{Worker}

-- How a call on the pool ends: a panic or an endless wait is that of a worker's Stop.
pub data PoolOutcome : Type 0 where
  done already_started not_started crashed stuck : PoolOutcome

module _ {F : Type 0} where
  -- Each worker is started; a failure is only counted.
  unfoldable pub start_workers : List (Worker F) → List (Worker F)
  start_workers [] = []
  start_workers (w ∷ ws) = (start w).0 ∷ start_workers ws

  -- Start
  unfoldable pub start_pool : ℤ → Pool F → Pool F × PoolOutcome
  start_pool now p = if p.is_running then (p, already_started) else (
    record p { is_running = true; start_time = now; workers = start_workers p.workers },
    done,
  )

  -- The loop of Stop goes on after an error, with the `rest` of it, and ends at a panic.
  unfoldable pub after_stop :
      Worker F × Outcome
      → List (Worker F)
      → List (Worker F) × PoolOutcome
      → List (Worker F) × PoolOutcome
  after_stop (v, panicked) ws rest = (v ∷ ws, crashed)
  after_stop (v, hung) ws rest = (v ∷ ws, stuck)
  after_stop (v, succeeded) ws rest = (v ∷ rest.0, rest.1)
  after_stop (v, refused e) ws rest = (v ∷ rest.0, rest.1)

  -- The loop of Stop, which stops each worker with the context cancelled
  unfoldable pub stop_workers : List (Worker F) → List (Worker F) × PoolOutcome
  stop_workers [] = ([], done)
  stop_workers (w ∷ ws) = after_stop (stop true w) ws (stop_workers ws)

  -- Stop
  unfoldable pub stop_pool : Pool F → Pool F × PoolOutcome
  stop_pool p =
      let (ws, outcome) = stop_workers p.workers in
      if p.is_running
      then (record p { is_running = false; cancelled = true; workers = ws }, outcome)
      else (p, not_started)
