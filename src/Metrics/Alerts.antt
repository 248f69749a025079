-- ===== src/Metrics/Alerts.antt =====
-- Which handlers checkAlerts of pkg/metrics/collector.go calls.
use log_generator.Float.{Float64}
use log_generator.Metrics.{
  AlertThresholds, AlertType, PerformanceMetrics, high_cpu, high_memory, high_packet_loss, low_eps,
}
use log_generator.Prelude.{Bool, List, [], false, if◌then◌else◌, true, ◌∷◌}
use log_generator.Prelude.Int.{ltb_ℤ}

-- The alert's threshold is passed.
abbrev pub passes :
    {F : Type 0} → Float64 F → AlertThresholds F → PerformanceMetrics F → AlertType → Bool
passes fl t m low_eps = ltb_ℤ m.current_eps t.min_eps
passes fl t m high_packet_loss = fl.lt t.max_packet_loss m.packet_loss
passes fl t m high_cpu = fl.lt t.max_cpu_usage m.cpu_usage_percent
passes fl t m high_memory = fl.lt t.max_memory_usage_mb m.memory_usage_mb

abbrev pub same_alert : AlertType → AlertType → Bool
same_alert low_eps low_eps = true
same_alert high_packet_loss high_packet_loss = true
same_alert high_cpu high_cpu = true
same_alert high_memory high_memory = true
same_alert a b = false

module _ {F H : Type 0} where
  -- The handlers that are called with an alert of the type.
  abbrev pub handlers_of : AlertType → List (H × AlertType × PerformanceMetrics F) → List H
  handlers_of a [] = []
  handlers_of a ((h, b, m) ∷ calls) =
      let rest = handlers_of a calls in if same_alert a b then h ∷ rest else rest
