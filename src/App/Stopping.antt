-- ===== src/App/Stopping.antt =====
-- Stop of the application of cmd/main.go, and the program as a whole.
use log_generator.App.{App}
use log_generator.App.Live.{IsAppUp, IsOpen}
use log_generator.App.Running.{
  after_dashboard, after_pool_stop, app_done, app_idle, close_dashboard, finish_stop, stop_app,
}
use log_generator.Config.Optimizer.{MemoryOptimizer, stop_optimizer-active}
use log_generator.Metrics.Lifecycle.{IsCollector, stop-IsCollector}
use log_generator.Monitor.Dashboard.{Dashboard, stop_dashboard}
use log_generator.Monitor.Dashboard.Cycle.{stop_dashboard-running}
use log_generator.Monitor.Invariant.{IsStoppable}
use log_generator.Pool.Running.{done, stop_pool}
use log_generator.Pool.Stopping.{stop_pool-spends}
use log_generator.Prelude.{All, Option, [], ap, false, length, none, refl, some, true, ◌∙◌, ◌≡◌}
use log_generator.Worker.Lifecycle.Cycle.{IsSpent}

-- A dashboard, or an optimizer, that has ended, if there is one.
abbrev pub IsOver : {M : Type 0} → Option (Dashboard M) → Type 0
IsOver none = Unit {0}
IsOver (some d) =
    (d.is_running ≡ false) × (d.serving ≡ false) × (d.tasks ≡ 0) × (d.hub.clients ≡ [])

abbrev pub IsDone : Option MemoryOptimizer → Type 0
IsDone none = Unit {0}
IsDone (some o) = (o.is_active ≡ false) × (o.tasks ≡ 0)

-- What Stop leaves of an application: every part of it has ended.
pub record IsEnded {F H M : Type 0} (a b : App F H M) : Type 0 where
  pub not_running : b.is_running ≡ false
  pub cancelled : b.cancelled ≡ true
  pub pool : b.pool.is_running ≡ false
  pub workers : All IsSpent b.pool.workers
  pub number : length b.pool.workers ≡ length a.pool.workers
  pub collector : (b.collector.is_collecting ≡ false) × (b.collector.loops ≡ 0)
  pub dashboard : IsOver b.dashboard
  pub optimizer : IsDone b.optimizer

module _ {F H M : Type 0} where
  finish_stop-Ends :
      (o : Option MemoryOptimizer) (a b : App F H M)
      → b.optimizer ≡ o
      → IsStoppable o
      → IsCollector b.collector
      → b.cancelled ≡ true
      → b.pool.is_running ≡ false
      → All IsSpent b.pool.workers
      → length b.pool.workers ≡ length a.pool.workers
      → IsOver b.dashboard
      → let (c, end) = finish_stop o b in IsEnded a c × (end ≡ app_done)
  unfolding finish_stop
  finish_stop-Ends none a b e s k c p w n d =
      let (kept, off) = stop-IsCollector b.collector k in
      (
        record {
          not_running = refl;
          cancelled = c;
          pool = p;
          workers = w;
          number = n;
          collector = (off, kept.one_loop ∙ rw off refl);
          dashboard = d;
          optimizer = rw e tt;
        },
        refl,
      )
  finish_stop-Ends (some o) a b e s k c p w n d =
      let (kept, off) = stop-IsCollector b.collector k in
      rw (finish_stop, stop_optimizer-active o s.0 s.1)
        (
          record {
            not_running = refl;
            cancelled = c;
            pool = p;
            workers = w;
            number = n;
            collector = (off, kept.one_loop ∙ rw off refl);
            dashboard = d;
            optimizer = (refl, refl);
          },
          refl,
        )

  close_dashboard-Ends :
      (o : Option (Dashboard M)) (a b : App F H M)
      → b.dashboard ≡ o
      → IsOpen o
      → IsStoppable b.optimizer
      → IsCollector b.collector
      → b.cancelled ≡ true
      → b.pool.is_running ≡ false
      → All IsSpent b.pool.workers
      → length b.pool.workers ≡ length a.pool.workers
      → let (c, end) = close_dashboard o b in IsEnded a c × (end ≡ app_done)
  unfolding close_dashboard after_dashboard
  close_dashboard-Ends none a b e d s k c p w n =
      finish_stop-Ends b.optimizer a b refl s k c p w n (rw e tt)
  close_dashboard-Ends (some x) a b e d s k c p w n =
      let (shut, f) = stop_dashboard-running x d.0 d.1 in
      rw (close_dashboard, f)
        (finish_stop-Ends b.optimizer a (record b { dashboard = some (stop_dashboard x).0 }) refl s
          k c p w n
          (shut.not_running, shut.not_serving, shut.no_tasks, ap (λ h. h.clients) shut.hub))

  stop_app-live :
      (a : App F H M)
      → a.is_running ≡ true
      → (stop_pool a.pool).1 ≡ done
      → stop_app a
        ≡ close_dashboard a.dashboard (record a { cancelled = true; pool = (stop_pool a.pool).0 })
  unfolding stop_app after_pool_stop
  stop_app-live a on e = simp (on, e) refl

  stop_app-refused : (a : App F H M) → a.is_running ≡ false → (stop_app a).1 ≡ app_idle
  unfolding stop_app
  stop_app-refused a off = simp off refl

  -- Stop of an application that runs succeeds and ends every part of it: each worker, with its
  -- connection closed, the dashboard with its clients, the collector and the optimizer. A second Stop
  -- is refused.
  pub stop_app-IsEnded :
      (a : App F H M)
      → IsAppUp a
      → let (b, end) = stop_app a in IsEnded a b × (end ≡ app_done) × ((stop_app b).1 ≡ app_idle)
  stop_app-IsEnded a h =
      let (e, off, spent, n) = stop_pool-spends a.pool h.pool in
      let q = (stop_pool a.pool).0 in
      let (over, end) =
        close_dashboard-Ends a.dashboard a (record a { cancelled = true; pool = q }) refl
          h.dashboard h.optimizer h.collector refl off spent n in
      rw (stop_app-live a h.running e) (over, end, stop_app-refused _ over.not_running)
