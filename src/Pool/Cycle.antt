-- ===== src/Pool/Cycle.antt =====
-- The life of a WorkerPool of internal/worker/worker_pool.go: one start and one stop.
use log_generator.Pool.Running.{
  PoolOutcome, after_stop, already_started, crashed, done, not_started, start_pool, start_workers,
  stop_pool, stop_workers,
}
use log_generator.Pool.State.{Pool}
use log_generator.Prelude.{All, List, [], ap, false, length, refl, suc, true, ◌<◌, ◌∷◌, ◌≡◌}
use log_generator.Prelude.Int.{ℤ}
use log_generator.Worker.Lifecycle.{Outcome, hung, panicked, refused, start, stop, succeeded}
use log_generator.Worker.Lifecycle.Cycle.{
  IsFresh, IsSpent, start-idle, stop-spends, stop-start_again,
}
use log_generator.Worker.State.{Worker}

module _ {F : Type 0} where
  pub after_stop-succeeded :
      (r : Worker F × Outcome) (ws : List (Worker F)) (rest : List (Worker F) × PoolOutcome)
      → r.1 ≡ succeeded
      → after_stop r ws rest ≡ (r.0 ∷ rest.0, rest.1)
  unfolding after_stop
  after_stop-succeeded (v, succeeded) ws rest h = refl
  after_stop-succeeded (v, panicked) ws rest h = cc
  after_stop-succeeded (v, hung) ws rest h = cc
  after_stop-succeeded (v, refused e) ws rest h = cc

  after_stop-panicked :
      (r : Worker F × Outcome) (ws : List (Worker F)) (rest : List (Worker F) × PoolOutcome)
      → r.1 ≡ panicked
      → (after_stop r ws rest).1 ≡ crashed
  unfolding after_stop
  after_stop-panicked (v, panicked) ws rest h = refl
  after_stop-panicked (v, succeeded) ws rest h = cc
  after_stop-panicked (v, hung) ws rest h = cc
  after_stop-panicked (v, refused e) ws rest h = cc

  start_workers-stop :
      (ws : List (Worker F))
      → All IsFresh ws
      → let (vs, outcome) = stop_workers (start_workers ws) in
        (outcome ≡ done) × All IsSpent vs × (length vs ≡ length ws)
  unfolding start_workers stop_workers
  start_workers-stop [] h = (refl, tt, refl)
  start_workers-stop (w ∷ ws) h =
      let (o, s) = stop-spends true w h.0.unstopped h.0.connected refl in
      let (rest, spent, l) = start_workers-stop ws h.1 in
      rw
        (
          start-idle w h.0.idle,
          after_stop-succeeded (stop true (record w { is_running = true })) (start_workers ws)
              (stop_workers (start_workers ws)) o,
        )
        (rest, (s, spent), ap suc l)

  spent_crash :
      (w : Worker F) (ws : List (Worker F))
      → IsSpent w
      → (stop_workers (start_workers (w ∷ ws))).1 ≡ crashed
  unfolding start_workers stop_workers
  spent_crash w ws s =
      after_stop-panicked (stop true (start w).0) (start_workers ws)
        (stop_workers (start_workers ws)) (stop-start_again true w s).2

  -- A pool of fresh workers starts, refuses a second Start, and stops without a panic or an endless
  -- wait, in whatever mode its workers are: each has its connection closed. It then refuses Stop.
  pub stop_pool-start_pool :
      (now later : ℤ) (p : Pool F)
      → p.is_running ≡ false
      → All IsFresh p.workers
      → let v = (start_pool now p).0 in
        let (q, outcome) = stop_pool v in
        ((start_pool now p).1 ≡ done)
        × ((start_pool later v).1 ≡ already_started)
        × (outcome ≡ done)
        × All IsSpent q.workers
        × (length q.workers ≡ length p.workers)
        × ((stop_pool q).1 ≡ not_started)
  unfolding start_pool stop_pool
  stop_pool-start_pool now later p idle fresh =
      let (o, spent, l) = start_workers-stop p.workers fresh in
      simp idle (refl, refl, o, spent, l, refl)

  -- A pool whose workers were stopped starts again, but its next Stop panics, if it has a worker.
  pub stop_pool-restarted :
      (now : ℤ) (p : Pool F)
      → p.is_running ≡ false
      → All IsSpent p.workers
      → 0 < length p.workers
      → ((start_pool now p).1 ≡ done) × ((stop_pool (start_pool now p).0).1 ≡ crashed)
  unfolding start_pool stop_pool
  stop_pool-restarted now p idle spent some_worker =
      simp idle (refl, crash p.workers spent some_worker)
    where
      crash :
          (ws : List (Worker F))
          → All IsSpent ws
          → 0 < length ws
          → (stop_workers (start_workers ws)).1 ≡ crashed
      crash [] s h = elim h [ ]
      crash (w ∷ ws) s h = spent_crash w ws s.0
