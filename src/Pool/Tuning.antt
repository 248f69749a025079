-- ===== src/Pool/Tuning.antt =====
-- The tuner of internal/worker/worker_pool.go. It changes nothing of the pool: what it does is a list.
use log_generator.Float.{Float64}
use log_generator.Pool.State.{MetricsMap, Pool, PoolMetrics, get_metrics}
use log_generator.Prelude.{Bool, List, [], if◌then◌else◌, ◌++◌, ◌∷◌}
use log_generator.Prelude.Int.{eqb_ℤ, ltb_ℤ, mul64, pos, quot}

pub data TuningAction : Type 0 where
  tells_low_cpu collects_garbage tells_memory : TuningAction

module _ {F : Type 0} (fl : Float64 F) where
  -- performAutoTuning
  unfoldable pub perform_auto_tuning : PoolMetrics F (MetricsMap F) → List TuningAction
  perform_auto_tuning m =
      (if fl.lt m.system_metrics.cpu_usage_percent (fl.of_int (pos 60))
        then tells_low_cpu ∷ []
        else [])
      ++ (if fl.lt (fl.of_int (pos 10_240)) m.system_metrics.memory_usage_mb
          then collects_garbage ∷ tells_memory ∷ []
          else [])

  -- A tick of autoTuner: below 95 % of the target
  unfoldable pub tuner_tick : Pool F → List TuningAction
  tuner_tick p =
      let m = get_metrics p in
      if ltb_ℤ m.total_eps (quot (mul64 p.target_eps (pos 95)) (pos 100))
      then perform_auto_tuning m
      else []

  -- autoTuner with its ticks, each with the pool as it is then; it ends at once if tuning is off.
  unfoldable pub auto_tuner : Bool → List (Pool F) → List TuningAction
  auto_tuner enabled [] = []
  auto_tuner enabled (p ∷ ps) =
      let rest = auto_tuner enabled ps in if enabled then tuner_tick p ++ rest else []

  -- getCPUUsage, which nothing calls: an estimate of at most 100
  unfoldable pub get_cpu_usage : Pool F → F
  get_cpu_usage p =
      let rate = fl.div (fl.of_int (get_metrics p).total_eps) (fl.of_int p.target_eps) in
      let usage = fl.mul (fl.mul rate (fl.of_int p.worker_count)) (fl.decimal (pos 20) 1) in
      if eqb_ℤ p.target_eps (pos 0)
      then fl.of_int (pos 0)
      else if fl.lt (fl.of_int (pos 100)) usage
      then fl.of_int (pos 100)
      else usage
