-- ===== src/Metrics/Summary.antt =====
-- GetSummaryReport of pkg/metrics/collector.go, which the dashboard answers at /api/summary.
use log_generator.Float.{Float64}
use log_generator.Metrics.{Collector}
use log_generator.Prelude.{◌*◌}
use log_generator.Prelude.Int.{pos, quot, rem, ℤ}
use log_generator.Worker.Eps.{seconds}
use log_generator.Worker.State.{second, time_sub}

-- The values of GetSummaryReport
pub record Summary (F : Type 0) : Type 0 where
  pub current_eps : ℤ
  pub target_eps : ℤ
  pub achievement_percent : F
  pub total_sent : ℤ
  pub uptime_hours : F
  pub average_eps : F
  pub consistency_score : F
  pub efficiency_score : F
  pub packet_loss_rate : F
  pub active_workers : ℤ
  pub cpu_usage_percent : F
  pub memory_usage_mb : F

module _ {F : Type 0} (fl : Float64 F) where
  -- Duration.Hours
  unfoldable pub hours : ℤ → F
  hours d =
      fl.add (fl.of_int (quot d (pos (3600 * second))))
        (fl.div (fl.of_int (rem d (pos (3600 * second)))) (fl.of_int (pos (3600 * second))))

  -- GetSummaryReport, at the time `now`
  unfoldable pub get_summary_report : {H : Type 0} → ℤ → Collector F H → Summary F
  get_summary_report now c =
      let m = c.current_metrics in
      let uptime = time_sub now c.start_time in
      record {
        current_eps = m.current_eps;
        target_eps = m.target_eps;
        achievement_percent = m.achievement_percent;
        total_sent = m.total_sent;
        uptime_hours = hours uptime;
        average_eps = fl.div (fl.of_int m.total_sent) (seconds fl uptime);
        consistency_score = m.consistency_score;
        efficiency_score = m.efficiency_score;
        packet_loss_rate = m.packet_loss;
        active_workers = m.active_workers;
        cpu_usage_percent = m.cpu_usage_percent;
        memory_usage_mb = m.memory_usage_mb;
      }
