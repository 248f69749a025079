-- ===== src/Pool/Stopping.antt =====
-- Stop of a pool of internal/worker/worker_pool.go whose workers run.
use mathlib.Core.Path.{subst}
use log_generator.Pool.Cycle.{after_stop-succeeded}
use log_generator.Pool.Live.{IsLive, IsLivePool, stop_workers-live}
use log_generator.Pool.Running.{done, stop_pool, stop_workers}
use log_generator.Pool.State.{Pool}
use log_generator.Prelude.{All, List, [], ap, false, length, refl, suc, sym, true, ◌∷◌, ◌≡◌}
use log_generator.Worker.Lifecycle.{stop, succeeded}
use log_generator.Worker.Lifecycle.Cycle.{IsSpent, stop-spends}
use log_generator.Worker.State.{Worker}

module _ {F : Type 0} where
  stop_live-spends :
      (w : Worker F) → IsLive w → ((stop true w).1 ≡ succeeded) × IsSpent (stop true w).0
  stop_live-spends w l =
      let e : w ≡ record w { is_running = true } = ap (λ b. record w { is_running = b }) l.runs in
      subst (λ v. ((stop true v).1 ≡ succeeded) × IsSpent (stop true v).0) (sym e)
        (stop-spends true w l.unstopped l.connected refl)

  stop_workers-spends :
      (ws : List (Worker F))
      → All IsLive ws
      → All IsSpent (stop_workers ws).0 × (length (stop_workers ws).0 ≡ length ws)
  unfolding stop_workers
  stop_workers-spends [] h = (tt, refl)
  stop_workers-spends (w ∷ ws) (l, h) =
      let (e, s) = stop_live-spends w l in
      let (rest, n) = stop_workers-spends ws h in
      rw (after_stop-succeeded (stop true w) ws (stop_workers ws) e) ((s, rest), ap suc n)

  -- Stop of a pool whose workers run ends each of them, with its connection closed.
  pub stop_pool-spends :
      (p : Pool F)
      → IsLivePool p
      → let (q, outcome) = stop_pool p in
        (outcome ≡ done)
        × (q.is_running ≡ false)
        × All IsSpent q.workers
        × (length q.workers ≡ length p.workers)
  unfolding stop_pool
  stop_pool-spends p (on, live) =
      let (s, n) = stop_workers-spends p.workers live in
      simp on (stop_workers-live p.workers live, refl, s, n)
