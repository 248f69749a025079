-- ===== src/Metrics.antt =====
-- pkg/metrics/collector.go: the collector of performance metrics that the control server keeps. Its
-- state, its measurement once a second, and its alerts.
pub mod Scores
pub mod Collect
pub mod Lifecycle
pub mod History
pub mod Totals
pub mod Alerts
pub mod Keeping
pub mod Summary
use log_generator.Float.{Float64, float_zero}
use log_generator.Prelude.{Bool, List, [], false, replicate, ℕ}
use log_generator.Prelude.Int.{pos, ℤ}
use log_generator.Worker.State.{second, zero_time}

-- WorkerMetric
pub record WorkerMetric (F : Type 0) : Type 0 where
  pub worker_id : ℤ
  pub port : ℤ
  pub current_eps : ℤ
  pub total_sent : ℤ
  pub error_count : ℤ
  pub packet_loss : F
  pub is_active : Bool
  pub cpu_usage : F

-- PerformanceMetrics
pub record PerformanceMetrics (F : Type 0) : Type 0 where
  pub current_eps : ℤ
  pub total_sent : ℤ
  pub total_errors : ℤ
  pub packet_loss : F
  pub cpu_usage_percent : F
  pub memory_usage_mb : F
  pub network_tx_mbps : F
  pub network_tx_packets : ℤ
  pub network_rx_packets : ℤ
  pub network_tx_bytes : ℤ
  pub network_rx_bytes : ℤ
  pub active_workers : ℤ
  pub total_workers : ℤ
  pub timestamp : ℤ
  pub uptime_seconds : ℤ
  pub target_eps : ℤ
  pub achievement_percent : F
  pub consistency_score : F
  pub efficiency_score : F
  pub worker_details : List (WorkerMetric F)

-- AlertThresholds
pub record AlertThresholds (F : Type 0) : Type 0 where
  pub min_eps : ℤ
  pub max_packet_loss : F
  pub max_cpu_usage : F
  pub max_memory_usage_mb : F

-- The alert handlers are an interface; `H` is what tells one from another.
-- MetricsCollector
pub record Collector (F H : Type 0) : Type 0 where
  pub collect_interval : ℤ
  pub history_size : ℕ
  pub start_time : ℤ
  pub target_eps : ℤ
  pub current_metrics : PerformanceMetrics F
  pub metrics_history : List (PerformanceMetrics F)
  pub last_total_sent : ℤ
  pub last_timestamp : ℤ
  pub eps_buffer : List ℤ
  pub eps_buffer_index : ℕ
  pub alert_thresholds : AlertThresholds F
  pub alert_handlers : List H
  pub is_collecting : Bool
  pub stop_closed : Bool  -- stopChan
  pub loops : ℕ  -- the goroutines of wg

-- triggerAlert's first argument
pub data AlertType : Type 0 where
  low_eps high_packet_loss high_cpu high_memory : AlertType

module _ {F : Type 0} (fl : Float64 F) where
  -- The metrics that hold a target and a time only.
  unfoldable pub no_metrics : ℤ → ℤ → PerformanceMetrics F
  no_metrics target now = record {
    current_eps = pos 0;
    total_sent = pos 0;
    total_errors = pos 0;
    packet_loss = float_zero fl;
    cpu_usage_percent = float_zero fl;
    memory_usage_mb = float_zero fl;
    network_tx_mbps = float_zero fl;
    network_tx_packets = pos 0;
    network_rx_packets = pos 0;
    network_tx_bytes = pos 0;
    network_rx_bytes = pos 0;
    active_workers = pos 0;
    total_workers = pos 0;
    timestamp = now;
    uptime_seconds = pos 0;
    target_eps = target;
    achievement_percent = float_zero fl;
    consistency_score = float_zero fl;
    efficiency_score = float_zero fl;
    worker_details = [];
  }

  -- NewMetricsCollector
  unfoldable pub new_metrics_collector : {H : Type 0} → ℤ → Collector F H
  new_metrics_collector now = record {
    collect_interval = pos second;
    history_size = 1800;
    start_time = now;
    target_eps = pos 4_000_000;
    current_metrics = no_metrics (pos 4_000_000) now;
    metrics_history = [];
    last_total_sent = pos 0;
    last_timestamp = zero_time;
    eps_buffer = replicate 60 (pos 0);
    eps_buffer_index = 0;
    alert_thresholds = record {
      min_eps = pos 3_800_000;
      max_packet_loss = fl.decimal (pos 5) 1;
      max_cpu_usage = fl.of_int (pos 75);
      max_memory_usage_mb = fl.of_int (pos 12_288);
    };
    alert_handlers = [];
    is_collecting = false;
    stop_closed = false;
    loops = 0;
  }
