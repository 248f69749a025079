-- ===== src/Pool/Live.antt =====
-- Pools whose workers run, as the control server of internal/monitor/control_server.go keeps them.
use log_generator.Pool.Cycle.{after_stop-succeeded}
use log_generator.Pool.Running.{done, start_pool, start_workers, stop_pool, stop_workers}
use log_generator.Pool.State.{Pool}
use log_generator.Prelude.{All, List, [], false, refl, true, ◌∷◌, ◌≡◌}
use log_generator.Prelude.Int.{ℤ}
use log_generator.Worker.Lifecycle.{stop, succeeded}
use log_generator.Worker.Lifecycle.Cycle.{
  IsFresh, close_and_wait-succeeded, start-idle, stop-running,
}
use log_generator.Worker.State.{Worker, open_conn}

-- A worker that runs, and that the pool can stop.
pub record IsLive {F : Type 0} (w : Worker F) : Type 0 where
  pub runs : w.is_running ≡ true
  pub unstopped : w.stop_closed ≡ false
  pub connected : w.conn ≡ open_conn

abbrev pub IsLivePool : {F : Type 0} → Pool F → Type 0
IsLivePool p = (p.is_running ≡ true) × All IsLive p.workers

abbrev pub IsIdlePool : {F : Type 0} → Pool F → Type 0
IsIdlePool p = (p.is_running ≡ false) × All IsFresh p.workers

module _ {F : Type 0} where
  start_workers-IsLive : (ws : List (Worker F)) → All IsFresh ws → All IsLive (start_workers ws)
  unfolding start_workers
  start_workers-IsLive [] h = tt
  start_workers-IsLive (w ∷ ws) (f, h) = rw (start-idle w f.idle) (
    record { runs = refl; unstopped = f.unstopped; connected = f.connected },
    start_workers-IsLive ws h,
  )

  pub start_pool-IsLivePool :
      (now : ℤ) (p : Pool F)
      → IsIdlePool p
      → IsLivePool (start_pool now p).0 × ((start_pool now p).1 ≡ done)
  unfolding start_pool
  start_pool-IsLivePool now p (idle, fresh) =
      simp idle ((refl, start_workers-IsLive p.workers fresh), refl)

  stop_live : (w : Worker F) → IsLive w → (stop true w).1 ≡ succeeded
  stop_live w l =
      rw
        (
          stop-running true w l.runs,
          close_and_wait-succeeded true (record w { is_running = false }) l.unstopped refl,
        )
        refl

  pub stop_workers-live : (ws : List (Worker F)) → All IsLive ws → (stop_workers ws).1 ≡ done
  unfolding stop_workers
  stop_workers-live [] h = refl
  stop_workers-live (w ∷ ws) (l, h) =
      rw (after_stop-succeeded (stop true w) ws (stop_workers ws) (stop_live w l))
        (stop_workers-live ws h)

  pub stop_pool-live : (p : Pool F) → IsLivePool p → (stop_pool p).1 ≡ done
  unfolding stop_pool
  stop_pool-live p (runs, live) = rw runs (stop_workers-live p.workers live)
