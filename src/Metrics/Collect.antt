-- ===== src/Metrics/Collect.antt =====
-- What the goroutines of pkg/metrics/collector.go do with a collector: a measurement, its entry in
-- the history, the alerts, and the updates that the control server makes.
use log_generator.Float.{Float64, float_hundred, float_zero}
use log_generator.Metrics.{
  AlertType, Collector, PerformanceMetrics, WorkerMetric, high_cpu, high_memory, high_packet_loss,
  low_eps,
}
use log_generator.Metrics.Scores.{calculate_consistency_score, calculate_efficiency_score}
use log_generator.Prelude.{
  List, [], drop, if◌then◌else◌, length, ltb, not, set, ◌%◌, ◌&&◌, ◌++◌, ◌+◌, ◌∷◌,
}
use log_generator.Prelude.Int.{add64, eqb_ℤ, ltb_ℤ, pos, sub64, ℤ, ◌-ℤ◌}
use log_generator.Worker.Eps.{seconds}
use log_generator.Worker.State.{time_sub, zero_time}

module _ {F H : Type 0} where
  -- updateMetrics
  unfoldable pub update_metrics : PerformanceMetrics F → Collector F H → Collector F H
  update_metrics m c =
      let history = c.metrics_history ++ m ∷ [] in
      record c {
        current_metrics = m;
        metrics_history = if ltb c.history_size (length history) then drop 1 history else history;
      }

  -- triggerAlert: a call of each handler
  unfoldable pub trigger_alert :
      AlertType → PerformanceMetrics F → List H → List (H × AlertType × PerformanceMetrics F)
  trigger_alert a m [] = []
  trigger_alert a m (h ∷ hs) = (h, a, m) ∷ trigger_alert a m hs

  -- UpdateSystemMetrics
  unfoldable pub update_system_metrics : F → F → F → ℤ → ℤ → ℤ → ℤ → Collector F H → Collector F H
  update_system_metrics cpu memory mbps tx_packets rx_packets tx_bytes rx_bytes c = record c {
    current_metrics = record c.current_metrics {
      cpu_usage_percent = cpu;
      memory_usage_mb = memory;
      network_tx_mbps = mbps;
      network_tx_packets = tx_packets;
      network_rx_packets = rx_packets;
      network_tx_bytes = tx_bytes;
      network_rx_bytes = rx_bytes;
    };
  }

  -- AddAlertHandler and SetTargetEPS
  unfoldable pub add_alert_handler : H → Collector F H → Collector F H
  add_alert_handler h c = record c { alert_handlers = c.alert_handlers ++ h ∷ [] }

  unfoldable pub set_collector_target : ℤ → Collector F H → Collector F H
  set_collector_target target c = record c { target_eps = target }

-- GetMetricsHistory, at the time `now`
unfoldable pub get_metrics_history :
    {F : Type 0} → ℤ → ℤ → List (PerformanceMetrics F) → List (PerformanceMetrics F)
get_metrics_history now duration [] = []
get_metrics_history now duration (m ∷ ms) =
    let rest = get_metrics_history now duration ms in
    if ltb_ℤ (now -ℤ duration) m.timestamp then m ∷ rest else rest

module _ {F : Type 0} (fl : Float64 F) where
  -- The loop of UpdateWorkerMetrics, with its variables.
  unfoldable pub worker_totals : List (WorkerMetric F) → ℤ → ℤ → ℤ → F → ℤ × ℤ × ℤ × F
  worker_totals [] active sent errors loss = (active, sent, errors, loss)
  worker_totals (w ∷ ws) active sent errors loss =
      worker_totals ws (if w.is_active then add64 active (pos 1) else active)
        (if w.is_active then add64 sent w.total_sent else sent)
        (if w.is_active then add64 errors w.error_count else errors)
        (if w.is_active then fl.add loss w.packet_loss else loss)

module _ {F H : Type 0} (fl : Float64 F) where
  -- The rate since the last measurement, or 0 without one.
  unfoldable pub current_rate : ℤ → Collector F H → ℤ
  current_rate now c =
      let duration = time_sub now c.last_timestamp in
      if not (eqb_ℤ c.last_timestamp zero_time)
        && ltb_ℤ (pos 0) c.last_total_sent
        && ltb_ℤ (pos 0) duration
      then fl.to_int (
          fl.div (fl.of_int (sub64 c.current_metrics.total_sent c.last_total_sent))
            (seconds fl duration))
      else pos 0

  -- What collectCurrentMetrics makes of the current metrics, with the buffer written already.
  unfoldable pub measured : ℤ → ℤ → List ℤ → Collector F H → PerformanceMetrics F
  measured now eps buffer c = record c.current_metrics {
    current_eps = eps;
    timestamp = now;
    uptime_seconds = fl.to_int (seconds fl (time_sub now c.start_time));
    target_eps = c.target_eps;
    achievement_percent =
        fl.mul (fl.div (fl.of_int eps) (fl.of_int c.current_metrics.target_eps)) (float_hundred fl);
    consistency_score = calculate_consistency_score fl buffer;
    efficiency_score = calculate_efficiency_score fl c.current_metrics;
  }

  -- collectCurrentMetrics
  unfoldable pub collect_current_metrics : ℤ → Collector F H → Collector F H × PerformanceMetrics F
  collect_current_metrics now c =
      let eps = current_rate now c in
      let buffer = set c.eps_buffer c.eps_buffer_index eps in
      (
        record c {
          eps_buffer = buffer;
          eps_buffer_index = (c.eps_buffer_index + 1) % length c.eps_buffer;
          last_total_sent = c.current_metrics.total_sent;
          last_timestamp = now;
        },
        measured now eps buffer c,
      )

  -- The calls of the handlers that checkAlerts starts.
  unfoldable pub check_alerts :
      PerformanceMetrics F → Collector F H → List (H × AlertType × PerformanceMetrics F)
  check_alerts m c =
      let t = c.alert_thresholds in
      let hs = c.alert_handlers in
      (if ltb_ℤ m.current_eps t.min_eps then trigger_alert low_eps m hs else [])
      ++ (if fl.lt t.max_packet_loss m.packet_loss then trigger_alert high_packet_loss m hs else [])
      ++ (if fl.lt t.max_cpu_usage m.cpu_usage_percent then trigger_alert high_cpu m hs else [])
      ++ (if fl.lt t.max_memory_usage_mb m.memory_usage_mb
          then trigger_alert high_memory m hs
          else [])

  -- A tick of collectLoop
  unfoldable pub collect_tick :
      ℤ → Collector F H → Collector F H × List (H × AlertType × PerformanceMetrics F)
  collect_tick now c =
      let (d, m) = collect_current_metrics now c in
      let e = update_metrics m d in (e, check_alerts m e)

  -- UpdateWorkerMetrics
  unfoldable pub update_worker_metrics : List (WorkerMetric F) → Collector F H → Collector F H
  update_worker_metrics ws c =
      let (active, sent, errors, loss) =
        worker_totals fl ws (pos 0) (pos 0) (pos 0) (float_zero fl) in
      record c {
        current_metrics = record c.current_metrics {
          total_sent = sent;
          total_errors = errors;
          packet_loss =
              if ltb_ℤ (pos 0) active then fl.div loss (fl.of_int active) else float_zero fl;
          active_workers = active;
          total_workers = pos (length ws);
          worker_details = ws;
        };
      }
