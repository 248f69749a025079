-- ===== src/Witnesses/Metrics.antt =====
-- Theorems on pkg/metrics at concrete inputs.
use log_generator.Float.Fixed.{millionths}
use log_generator.Metrics.{
  Collector, PerformanceMetrics, WorkerMetric, new_metrics_collector, no_metrics,
}
use log_generator.Metrics.Collect.{add_alert_handler}
use log_generator.Metrics.History.{latest, update_all, update_all-latest}
use log_generator.Metrics.Lifecycle.{
  call_start, call_stop, ends_started, run_calls, run_calls-IsCollector,
}
use log_generator.Prelude.{List, [], arith, false, if◌then◌else◌, length, true, ℕ, ◌∷◌, ◌≡◌, ◌≤◌}
use log_generator.Prelude.Int.{pos, ℤ}

-- A collector with one handler, which the number 7 stands for.
abbrev sample_collector : Collector ℤ ℕ
sample_collector = add_alert_handler 7 (new_metrics_collector millionths (pos 0))

abbrev low_metrics : PerformanceMetrics ℤ
low_metrics = no_metrics millionths (pos 4_000_000) (pos 0)

abbrev two_metrics : List (WorkerMetric ℤ)
two_metrics =
    record {
      worker_id = pos 1;
      port = pos 10514;
      current_eps = pos 100;
      total_sent = pos 900;
      error_count = pos 2;
      packet_loss = pos 5;
      is_active = true;
      cpu_usage = pos 3;
    }
    ∷ record {
      worker_id = pos 2;
      port = pos 10515;
      current_eps = pos 0;
      total_sent = pos 50;
      error_count = pos 1;
      packet_loss = pos 5;
      is_active = false;
      cpu_usage = pos 3;
    }
    ∷ []

run_calls-IsCollector_example :
    let calls = call_stop ∷ call_start ∷ call_stop ∷ call_start ∷ call_start ∷ [] in
    let c : Collector ℤ ℕ = run_calls calls (new_metrics_collector millionths (pos 0)) in
    (c.is_collecting ≡ ends_started calls false)
    × (c.loops ≡ (if ends_started calls false then 1 else 0))
    × (c.is_collecting ≡ true → c.stop_closed ≡ false)
run_calls-IsCollector_example =
    run_calls-IsCollector ℕ millionths (pos 0)
      (call_stop ∷ call_start ∷ call_stop ∷ call_start ∷ call_start ∷ [])

update_all-latest_example :
    let d = update_all (low_metrics ∷ low_metrics ∷ []) sample_collector in
    (d.metrics_history ≡ latest 1800 (low_metrics ∷ low_metrics ∷ []))
    × (length d.metrics_history ≤ 1800)
unfolding new_metrics_collector add_alert_handler
update_all-latest_example =
    update_all-latest (low_metrics ∷ low_metrics ∷ []) sample_collector (omega arith)
