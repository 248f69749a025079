-- ===== src/App/Readings.antt =====
-- What the collector of the application of cmd/main.go holds while it runs.
use mathlib.Core.Path.{subst}
use log_generator.App.{App, AppConfig, made, new_log_generator}
use log_generator.App.Measuring.{
  HasNew, after_initialize-IsSame, new_log_generator-HasNew, optimization-collector,
}
use log_generator.App.Report.{achieved, final_report, grade_of}
use log_generator.App.Running.{
  AppEvent, AppOutcome, aggregates, app_event, app_events, begin, measures, reports, sockets,
  start_app, start_optimization, start_workers_of, update_app, updates, works,
}
use log_generator.Config.Optimizer.{Runtime}
use log_generator.Float.{Float64, float_zero}
use log_generator.Metrics.{Collector, WorkerMetric, new_metrics_collector, no_metrics}
use log_generator.Metrics.Collect.{
  collect_current_metrics, collect_tick, measured, update_metrics, update_worker_metrics,
}
use log_generator.Metrics.Lifecycle.{start_collector}
use log_generator.Monitor.Update.{metrics_of}
use log_generator.Pool.Initialize.{initialize}
use log_generator.Pool.State.{get_metrics}
use log_generator.Prelude.{List, [], if_ind, refl, true, ℕ, ◌∷◌, ◌≡◌}
use log_generator.Prelude.Int.{pos, ℤ}
use log_generator.Worker.State.{Network}

-- The target of NewMetricsCollector, and no reading of the processor and the memory.
record HasReadings {F H : Type 0} (fl : Float64 F) (c : Collector F H) : Type 0 where
  own_target : c.target_eps ≡ pos 4_000_000
  target : c.current_metrics.target_eps ≡ pos 4_000_000
  cpu : c.current_metrics.cpu_usage_percent ≡ float_zero fl
  memory : c.current_metrics.memory_usage_mb ≡ float_zero fl

module _ {F H : Type 0} (fl : Float64 F) where
  update-HasReadings :
      (ws : List (WorkerMetric F)) (c : Collector F H)
      → HasReadings fl c
      → HasReadings fl (update_worker_metrics fl ws c)
  unfolding update_worker_metrics
  update-HasReadings ws c h = record {
    own_target = h.own_target;
    target = h.target;
    cpu = h.cpu;
    memory = h.memory;
  }

  collect-HasReadings :
      (now : ℤ) (c : Collector F H) → HasReadings fl c → HasReadings fl (collect_tick fl now c).0
  unfolding collect_tick collect_current_metrics update_metrics measured
  collect-HasReadings now c h = record {
    own_target = h.own_target;
    target = h.own_target;
    cpu = h.cpu;
    memory = h.memory;
  }

  start-HasReadings : (c : Collector F H) → HasReadings fl c → HasReadings fl (start_collector c)
  unfolding start_collector
  start-HasReadings c h =
      if_ind (λ (d : Collector F H). HasReadings fl d) c.is_collecting (λ _. h)
        (λ _. record {
          own_target = h.own_target;
          target = h.target;
          cpu = h.cpu;
          memory = h.memory;
        })

module _ {F H M : Type 0} (fl : Float64 F) where
  start_app-HasReadings :
      (net : ℕ → Network) (now : ℤ) (a : App F H M)
      → HasReadings fl a.collector
      → HasReadings fl (start_app fl net now a).0.collector
  unfolding start_app start_workers_of begin
  start_app-HasReadings net now a h =
      let b = begin now a in
      let r = initialize fl net now b.pool in
      if_ind (λ (r : App F H M × AppOutcome). HasReadings fl r.0.collector) a.is_running (λ _. h)
        (λ _. rw ((after_initialize-IsSame now r.1 (record b { pool = r.0 })).0) (
          start-HasReadings fl (start_optimization a.optimizer (started a)).collector
            (rw (optimization-collector a.optimizer (started a)) h)))
    where
      started : App F H M → App F H M
      started x = record x { start_time = now; is_running = true }

  app_event-HasReadings :
      (e : AppEvent F M) (a : App F H M)
      → HasReadings fl a.collector
      → HasReadings fl (app_event fl e a).collector
  unfolding app_event update_app
  app_event-HasReadings (works i p) a h = h
  app_event-HasReadings updates a h =
      update-HasReadings fl (metrics_of (get_metrics a.pool).worker_metrics) a.collector h
  app_event-HasReadings (measures now) a h = collect-HasReadings fl now a.collector h
  app_event-HasReadings (aggregates now r) a h = h
  app_event-HasReadings (reports m) a h = h
  app_event-HasReadings (sockets e) a h = h

  app_events-HasReadings :
      (es : List (AppEvent F M)) (a : App F H M)
      → HasReadings fl a.collector
      → HasReadings fl (app_events fl es a).collector
  app_events-HasReadings [] a h = h
  app_events-HasReadings (e ∷ es) a h =
      app_events-HasReadings es (app_event fl e a) (app_event-HasReadings e a h)

module _ {F H M : Type 0} (fl : Float64 F) where
  made-HasReadings :
      (cpus : ℕ) (now : ℤ) (c : AppConfig) (a : App F H M)
      → HasNew fl cpus now c (made a)
      → HasReadings fl a.collector
  unfolding new_metrics_collector no_metrics
  made-HasReadings cpus now c a e =
      rw e.1 (record { own_target = refl; target = refl; cpu = refl; memory = refl })

  -- Whatever the profile is and goes on, the final report measures the rate against 4,000,000, not
  -- against the target of the profile, and the collector, from which the dashboard and the alerts
  -- read, never holds a reading of the processor or the memory.
  pub final_report-target :
      (cpus : ℕ) (net : ℕ → Network) (now later : ℤ) (c : AppConfig) (rt : Runtime) (a : App F H M)
      (es : List (AppEvent F M))
      → new_log_generator fl cpus now c rt ≡ made a
      → let b = app_events fl es (start_app fl net now a).0 in
        let r = final_report fl later b in
        (r.achievement ≡ achieved fl r.current_eps (pos 4_000_000))
        × (r.grade ≡ grade_of fl (achieved fl r.current_eps (pos 4_000_000)))
        × (b.collector.current_metrics.cpu_usage_percent ≡ float_zero fl)
        × (b.collector.current_metrics.memory_usage_mb ≡ float_zero fl)
  unfolding final_report
  final_report-target cpus net now later c rt a es e =
      let fresh = subst (HasNew fl cpus now c) e (new_log_generator-HasNew H M fl cpus now c rt) in
      let b = (start_app fl net now a).0 in
      let h =
        app_events-HasReadings fl es b
          (start_app-HasReadings fl net now a (made-HasReadings cpus now c a fresh)) in
      rw h.target (refl, refl, h.cpu, h.memory)
