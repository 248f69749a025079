-- ===== src/Metrics/Keeping.antt =====
-- What the updates of the collector in pkg/metrics/collector.go leave alone: whether it collects.
use log_generator.Float.{Float64}
use log_generator.Metrics.{Collector, WorkerMetric}
use log_generator.Metrics.Collect.{
  collect_current_metrics, collect_tick, update_metrics, update_worker_metrics,
}
use log_generator.Metrics.Lifecycle.{IsCollector}
use log_generator.Prelude.{List, refl, ◌≡◌}
use log_generator.Prelude.Int.{ℤ}

module _ {F H : Type 0} (fl : Float64 F) where
  pub update-IsCollector :
      (ws : List (WorkerMetric F)) (c : Collector F H)
      → IsCollector c
      → IsCollector (update_worker_metrics fl ws c)
        × ((update_worker_metrics fl ws c).is_collecting ≡ c.is_collecting)
  unfolding update_worker_metrics
  update-IsCollector ws c h = (record { one_loop = h.one_loop; unclosed = h.unclosed }, refl)

  pub collect-IsCollector :
      (now : ℤ) (c : Collector F H)
      → IsCollector c
      → IsCollector (collect_tick fl now c).0
        × ((collect_tick fl now c).0.is_collecting ≡ c.is_collecting)
  unfolding collect_tick collect_current_metrics update_metrics
  collect-IsCollector now c h = (record { one_loop = h.one_loop; unclosed = h.unclosed }, refl)
