-- ===== src/Monitor/Update.antt =====
-- What the control server of internal/monitor/control_server.go passes from the pool to the collector
-- once a second, and its Stop.
use log_generator.Float.{Float64, float_zero}
use log_generator.Metrics.{Collector, WorkerMetric}
use log_generator.Metrics.Collect.{update_system_metrics, update_worker_metrics}
use log_generator.Metrics.Totals.{HasCounts, active, update_worker_metrics-totals}
use log_generator.Monitor.Control.{Control}
use log_generator.Pool.State.{MetricsMap, Pool, PoolMetrics, get_metrics}
use log_generator.Prelude.{
  All, Bool-cases, List, [], ap, arith, if◌then◌else◌, inl, inr, keep_if, keep_if-dropped,
  keep_if-kept, length, none, refl, some, suc, ◌<◌, ◌∙◌, ◌∷◌, ◌≡◌,
}
use log_generator.Prelude.Int.{ltb_ℤ, mul64, pos, total, ℤ, ◌≤ℤ◌}
use log_generator.Worker.Eps.{WorkerMetrics}

-- The collector's record of a worker: the worker is active if its rate is positive.
unfoldable pub metric_of : {F : Type 0} → WorkerMetrics F → WorkerMetric F
metric_of m = record {
  worker_id = m.worker_id;
  port = m.port;
  current_eps = m.current_eps;
  total_sent = m.total_sent;
  error_count = m.error_count;
  packet_loss = m.packet_loss;
  is_active = ltb_ℤ (pos 0) m.current_eps;
  cpu_usage = m.cpu_usage;
}

-- The loop over the pool's map, in the order in which the map is ranged over.
unfoldable pub metrics_of : {F : Type 0} → MetricsMap F → List (WorkerMetric F)
metrics_of [] = []
metrics_of ((id, m) ∷ rest) = metric_of m ∷ metrics_of rest

module _ {F : Type 0} (fl : Float64 F) where
  -- The throughput in Mbps, from the rate of the pool.
  unfoldable pub throughput : ℤ → F
  throughput eps =
      let kibi = fl.of_int (pos 1024) in
      let bytes_per_sec = fl.mul (fl.of_int eps) (fl.of_int (pos 512)) in
      if ltb_ℤ (pos 0) eps
      then fl.div (fl.div (fl.mul bytes_per_sec (fl.of_int (pos 8))) kibi) kibi
      else float_zero fl

module _ {F H : Type 0} (fl : Float64 F) where
  -- The updates of the collector from the pool's report.
  unfoldable pub update_collector : PoolMetrics F (MetricsMap F) → Collector F H → Collector F H
  update_collector m c =
      update_system_metrics m.system_metrics.cpu_usage_percent m.system_metrics.memory_usage_mb
        (throughput fl m.total_eps) m.total_sent m.system_metrics.network_rx_packets
        (mul64 m.total_sent (pos 512)) m.system_metrics.network_rx_bytes
        (update_worker_metrics fl (metrics_of m.worker_metrics) c)

  -- The case of metricsUpdateLoop for a tick. Whether the generator runs was tested before the wait.
  unfoldable pub update_tick : Control F H → Control F H
  update_tick cs = elim cs.worker_pool [
    | none ↦ cs
    | some p ↦ record cs { collector = update_collector (get_metrics p) cs.collector }
  ]

-- The reports in a map with a positive rate.
abbrev pub rated : {F : Type 0} → MetricsMap F → List (ℤ × WorkerMetrics F)
rated = keep_if (λ r. ltb_ℤ (pos 0) r.1.current_eps)

abbrev pub HasReports : {F : Type 0} → MetricsMap F → Type 0
HasReports = All (λ r. (pos 0 ≤ℤ r.1.total_sent) × (pos 0 ≤ℤ r.1.error_count))

module _ {F : Type 0} where
  pub metrics_of-rated :
      (m : MetricsMap F)
      → (length (active (metrics_of m)) ≡ length (rated m))
        × (total (λ w. w.total_sent) (active (metrics_of m))
            ≡ total (λ r. r.1.total_sent) (rated m))
        × (total (λ w. w.error_count) (active (metrics_of m))
            ≡ total (λ r. r.1.error_count) (rated m))
        × (HasReports m → All HasCounts (metrics_of m))
        × (length (metrics_of m) ≡ length m)
  unfolding metrics_of metric_of
  metrics_of-rated [] = (refl, refl, refl, λ h. tt, refl)
  metrics_of-rated ((id, m) ∷ rest) =
      let (a, b, c, d, e) = metrics_of-rated rest in
      elim (Bool-cases (ltb_ℤ (pos 0) m.current_eps)) [
        | inl on ↦
            rw
              (
                keep_if-kept (λ w. w.is_active) (metric_of m) (metrics_of rest) on,
                keep_if-kept (λ r. ltb_ℤ (pos 0) r.1.current_eps) (id, m) rest on,
              )
              (ap suc a, omega (arith, b), omega (arith, c), λ h. (h.0, d h.1), ap suc e)
        | inr off ↦
            rw
              (
                keep_if-dropped (λ w. w.is_active) (metric_of m) (metrics_of rest) off,
                keep_if-dropped (λ r. ltb_ℤ (pos 0) r.1.current_eps) (id, m) rest off,
              )
              (a, b, c, λ h. (h.0, d h.1), ap suc e)
      ]

update_tick-pool :
    {F H : Type 0} (fl : Float64 F) (cs : Control F H) (p : Pool F)
    → cs.worker_pool ≡ some p
    → (update_tick fl cs).collector ≡ update_collector fl (get_metrics p) cs.collector
unfolding update_tick
update_tick-pool fl cs p there = rw (update_tick, there) refl

-- A tick of metricsUpdateLoop brings the collector in step with the pool's report, if there is a
-- pool: it counts the reports with a positive rate as active workers, adds up exactly what they sent
-- and their errors, where these fit into 64 bits, counts all reports as workers, and takes the pool's
-- own total for the packets.
pub update_tick-totals :
    {F H : Type 0} (fl : Float64 F) (cs : Control F H) (p : Pool F)
    → cs.worker_pool ≡ some p
    → let report = get_metrics p in
      let reports = report.worker_metrics in
      HasReports reports
      → length (rated reports) < 9223372036854775808
      → total (λ r. r.1.total_sent) (rated reports) < 9223372036854775808
      → total (λ r. r.1.error_count) (rated reports) < 9223372036854775808
      → let m = (update_tick fl cs).collector.current_metrics in
        (m.active_workers ≡ pos (length (rated reports)))
        × (m.total_sent ≡ pos (total (λ r. r.1.total_sent) (rated reports)))
        × (m.total_errors ≡ pos (total (λ r. r.1.error_count) (rated reports)))
        × (m.total_workers ≡ pos (length reports))
        × (m.network_tx_packets ≡ report.total_sent)
unfolding update_collector update_system_metrics
update_tick-totals fl cs p there h few sent errors =
    let reports = (get_metrics p).worker_metrics in
    let (a, b, c, d, e) = metrics_of-rated reports in
    let t =
      update_worker_metrics-totals fl (metrics_of reports) cs.collector (d h) (omega (arith, a))
        (omega (arith, b)) (omega (arith, c)) in
    rw (update_tick-pool fl cs p there)
      (t.0 ∙ ap pos a, t.1 ∙ ap pos b, t.2 ∙ ap pos c, t.3 ∙ ap pos e, refl)
