-- ===== src/App/Running.antt =====
-- Start and Stop of the application of cmd/main.go, what its update loop does once a second, and main.
use log_generator.App.{App}
use log_generator.Config.Optimizer.{
  MemoryOptimizer, initialize_optimizer, start_optimizer, stop_optimizer,
}
use log_generator.Float.{Float64}
use log_generator.Metrics.Collect.{collect_tick, update_worker_metrics}
use log_generator.Metrics.Lifecycle.{start_collector, stop_collector}
use log_generator.Monitor.Dashboard.{
  Dashboard, DashboardOutcome, dashboard_done, dashboard_event, dashboard_idle, dashboard_panicked,
  dashboard_running, start_dashboard, stop_dashboard,
}
use log_generator.Monitor.Hub.{Event}
use log_generator.Monitor.Update.{metrics_of}
use log_generator.Pool.Aggregate.{Reading, aggregate, receive_report}
use log_generator.Pool.Initialize.{
  InitOutcome, divided_by_zero, initialize, initialized, pool_running, worker_failed,
}
use log_generator.Pool.Running.{
  PoolOutcome, already_started, crashed, done, not_started, start_pool, stop_pool, stuck,
}
use log_generator.Pool.State.{get_metrics}
use log_generator.Pool.Working.{work}
use log_generator.Prelude.{List, Option, [], false, if◌then◌else◌, none, some, true, ℕ, ◌∷◌}
use log_generator.Prelude.Int.{ℤ}
use log_generator.Worker.Eps.{WorkerMetrics}
use log_generator.Worker.Loops.Passes.{Pass}
use log_generator.Worker.State.{Network}

-- How a call ends.
pub data AppOutcome : Type 0 where
  app_done app_running app_idle app_panicked app_hung : AppOutcome
  pool_refuses dashboard_refuses : AppOutcome
  no_workers : InitOutcome → AppOutcome

module _ {F H M : Type 0} where
  -- The optimizer's part of Start
  unfoldable pub start_optimization : Option MemoryOptimizer → App F H M → App F H M
  start_optimization none a = a
  start_optimization (some o) a = record a {
    optimizer = some (start_optimizer o);
    runtime = initialize_optimizer o a.runtime;
  }

  -- The dashboard's part of Start
  unfoldable pub after_open : Dashboard M × DashboardOutcome → App F H M → App F H M × AppOutcome
  after_open (d, dashboard_done) a = (record a { dashboard = some d }, app_done)
  after_open (d, dashboard_running) a = (record a { dashboard = some d }, dashboard_refuses)
  after_open (d, dashboard_idle) a = (record a { dashboard = some d }, dashboard_refuses)
  after_open (d, dashboard_panicked) a = (record a { dashboard = some d }, app_panicked)

  unfoldable pub open_dashboard : Option (Dashboard M) → App F H M → App F H M × AppOutcome
  open_dashboard none a = (a, app_done)
  open_dashboard (some d) a = after_open (start_dashboard d) a

  -- Start after the pool's Start
  unfoldable pub after_pool_start : PoolOutcome → App F H M → App F H M × AppOutcome
  after_pool_start done a = open_dashboard a.dashboard a
  after_pool_start already_started a = (a, pool_refuses)
  after_pool_start not_started a = (a, pool_refuses)
  after_pool_start crashed a = (a, app_panicked)
  after_pool_start stuck a = (a, app_hung)

  -- Start after the pool's Initialize
  unfoldable pub after_initialize : ℤ → InitOutcome → App F H M → App F H M × AppOutcome
  after_initialize now initialized a =
      let (q, outcome) = start_pool now a.pool in after_pool_start outcome (record a { pool = q })
  after_initialize now pool_running a = (a, no_workers pool_running)
  after_initialize now divided_by_zero a = (a, app_panicked)
  after_initialize now (worker_failed i e) a = (a, no_workers (worker_failed i e))

  -- Start from the pool on
  unfoldable pub start_workers_of :
      Float64 F → (ℕ → Network) → ℤ → App F H M → App F H M × AppOutcome
  start_workers_of fl net now a =
      let (q, outcome) = initialize fl net now a.pool in
      after_initialize now outcome (record a { pool = q })

  -- Start up to the pool: the application counts as running from here on, also where Start fails.
  unfoldable pub begin : ℤ → App F H M → App F H M
  begin now a =
      let b = start_optimization a.optimizer (record a { start_time = now; is_running = true }) in
      record b { collector = start_collector b.collector }

  -- Start
  unfoldable pub start_app : Float64 F → (ℕ → Network) → ℤ → App F H M → App F H M × AppOutcome
  start_app fl net now a =
      if a.is_running then (a, app_running) else start_workers_of fl net now (begin now a)

  -- updateMetrics: the collector gets the workers' metrics. The processor and the memory are written to
  -- a copy of its metrics, for the line that is printed every ten seconds.
  unfoldable pub update_app : Float64 F → App F H M → App F H M
  update_app fl a = record a {
    collector =
        update_worker_metrics fl (metrics_of (get_metrics a.pool).worker_metrics) a.collector;
  }

  -- The end of Stop: the collector and the optimizer
  unfoldable pub finish_stop : Option MemoryOptimizer → App F H M → App F H M × AppOutcome
  finish_stop none a =
      (record a { collector = stop_collector a.collector; is_running = false }, app_done)
  finish_stop (some o) a =
      let b = record a { collector = stop_collector a.collector } in
      elim (stop_optimizer o) [
        | none ↦ (b, app_panicked)
        | some p ↦ (record b { optimizer = some p; is_running = false }, app_done)
      ]

  -- Stop after the dashboard: its refusal is only printed.
  unfoldable pub after_dashboard : DashboardOutcome → App F H M → App F H M × AppOutcome
  after_dashboard dashboard_done a = finish_stop a.optimizer a
  after_dashboard dashboard_running a = finish_stop a.optimizer a
  after_dashboard dashboard_idle a = finish_stop a.optimizer a
  after_dashboard dashboard_panicked a = (a, app_panicked)

  unfoldable pub close_dashboard : Option (Dashboard M) → App F H M → App F H M × AppOutcome
  close_dashboard none a = finish_stop a.optimizer a
  close_dashboard (some d) a =
      let (e, outcome) = stop_dashboard d in
      after_dashboard outcome (record a { dashboard = some e })

  -- Stop after the pool: its refusal is only printed.
  unfoldable pub after_pool_stop : PoolOutcome → App F H M → App F H M × AppOutcome
  after_pool_stop done a = close_dashboard a.dashboard a
  after_pool_stop already_started a = close_dashboard a.dashboard a
  after_pool_stop not_started a = close_dashboard a.dashboard a
  after_pool_stop crashed a = (a, app_panicked)
  after_pool_stop stuck a = (a, app_hung)

  -- Stop
  unfoldable pub stop_app : App F H M → App F H M × AppOutcome
  stop_app a =
      let (q, outcome) = stop_pool a.pool in
      if a.is_running
      then after_pool_stop outcome (record a { cancelled = true; pool = q })
      else (a, app_idle)

-- What goes on between Start and Stop.
pub data AppEvent (F M : Type 0) : Type 0 where
  -- a worker makes a pass of its send loop
  works : ℕ → Pass F → AppEvent F M
  -- a tick of the update loop, of the collector, and of the pool's aggregator
  updates : AppEvent F M
  measures : ℤ → AppEvent F M
  aggregates : ℤ → Reading F → AppEvent F M
  -- the aggregator receives a worker's report
  reports : WorkerMetrics F → AppEvent F M
  -- an event of the dashboard's web sockets
  sockets : Event M → AppEvent F M

module _ {F H M : Type 0} (fl : Float64 F) where
  unfoldable pub app_event : AppEvent F M → App F H M → App F H M
  app_event (works i p) a = record a { pool = work fl i p a.pool }
  app_event updates a = update_app fl a
  app_event (measures now) a = record a { collector = (collect_tick fl now a.collector).0 }
  app_event (aggregates now reading) a = record a { pool = aggregate fl now reading a.pool }
  app_event (reports m) a = record a { pool = receive_report m a.pool }
  app_event (sockets e) a = record a {
    dashboard = elim a.dashboard [ none ↦ none | some d ↦ some (dashboard_event e d) ];
  }

  abbrev pub app_events : List (AppEvent F M) → App F H M → App F H M
  app_events [] a = a
  app_events (e ∷ es) a = app_events es (app_event e a)
