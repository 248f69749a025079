-- ===== src/App/Report.antt =====
-- What the application of cmd/main.go prints: a line every ten seconds, and the report of Stop. The
-- text itself is not modelled. A test `x >= n` is `not (x < n)`, which differs for NaN only, and the
-- achievement, a quotient by a target other than 0, is none.
use log_generator.App.{App}
use log_generator.App.Running.{update_app}
use log_generator.Config.Profiles.{EpsProfile}
use log_generator.Float.{Float64, float_hundred, float_zero}
use log_generator.Metrics.{PerformanceMetrics}
use log_generator.Pool.State.{MetricsMap, PoolMetrics, get_metrics}
use log_generator.Prelude.{Option, if◌then◌else◌, none, not, some, ℕ, ◌%◌, ◌==◌}
use log_generator.Prelude.Int.{pos, ℤ}
use log_generator.Worker.Eps.{seconds}
use log_generator.Worker.State.{time_sub}

-- How the final report judges the achievement.
pub data Grade : Type 0 where
  excellent good needs_improvement poor : Grade

-- The values of printQuickStats
pub record QuickStats (F : Type 0) : Type 0 where
  pub eps : ℤ
  pub target : ℤ
  pub achievement : F
  pub active_workers : ℤ
  pub worker_count : ℤ
  pub cpu_usage : F
  pub memory_usage : F

-- The values of printFinalReport
pub record FinalReport (F : Type 0) : Type 0 where
  pub total_sent : ℤ
  pub average_eps : ℤ
  pub current_eps : ℤ
  pub achievement : F
  pub consistency : F
  pub efficiency : F
  pub packet_loss : F
  pub active_workers : ℤ
  pub worker_count : ℤ
  pub grade : Grade

module _ {F : Type 0} (fl : Float64 F) where
  unfoldable pub grade_of : F → Grade
  grade_of achievement =
      if not (fl.lt achievement (fl.of_int (pos 95)))
      then excellent
      else if not (fl.lt achievement (fl.of_int (pos 80)))
      then good
      else if not (fl.lt achievement (fl.of_int (pos 50)))
      then needs_improvement
      else poor

  -- Per cent of the target
  unfoldable pub achieved : ℤ → ℤ → F
  achieved eps target = fl.mul (fl.div (fl.of_int eps) (fl.of_int target)) (float_hundred fl)

  -- The total over the time, or 0 without time
  unfoldable pub average_rate : ℤ → ℤ → ℤ
  average_rate sent duration =
      let s = seconds fl duration in
      if fl.lt (float_zero fl) s then fl.to_int (fl.div (fl.of_int sent) s) else pos 0

  -- printQuickStats of the metrics that updateMetrics hands over
  unfoldable pub quick_stats : EpsProfile → PerformanceMetrics F → QuickStats F
  quick_stats p m = record {
    eps = m.current_eps;
    target = p.target_eps;
    achievement = achieved m.current_eps p.target_eps;
    active_workers = m.active_workers;
    worker_count = p.worker_count;
    cpu_usage = m.cpu_usage_percent;
    memory_usage = m.memory_usage_mb;
  }

  -- The metrics that updateMetrics prints: a copy of the collector's, with the pool's processor and
  -- memory.
  unfoldable pub printed_metrics :
      PoolMetrics F (MetricsMap F) → PerformanceMetrics F → PerformanceMetrics F
  printed_metrics report m = record m {
    cpu_usage_percent = report.system_metrics.cpu_usage_percent;
    memory_usage_mb = report.system_metrics.memory_usage_mb;
  }

  -- What a tick of the update loop prints, `elapsed` whole seconds after Start: every ten seconds.
  unfoldable pub update_prints : {H M : Type 0} → ℕ → App F H M → Option (QuickStats F)
  update_prints elapsed a =
      if elapsed % 10 == 0
      then some (
          quick_stats a.pool.profile
            (printed_metrics (get_metrics a.pool) (update_app fl a).collector.current_metrics))
      else none

  -- printFinalReport
  unfoldable pub final_report : {H M : Type 0} → ℤ → App F H M → FinalReport F
  final_report now a =
      let m = a.collector.current_metrics in
      let achievement = achieved m.current_eps m.target_eps in
      record {
        total_sent = m.total_sent;
        average_eps = average_rate m.total_sent (time_sub now a.start_time);
        current_eps = m.current_eps;
        achievement = achievement;
        consistency = m.consistency_score;
        efficiency = m.efficiency_score;
        packet_loss = m.packet_loss;
        active_workers = m.active_workers;
        worker_count = a.pool.profile.worker_count;
        grade = grade_of achievement;
      }
