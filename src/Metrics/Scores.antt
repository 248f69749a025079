-- ===== src/Metrics/Scores.antt =====
-- The scores of pkg/metrics/collector.go.
use log_generator.Float.{Float64, float_hundred, float_zero}
use log_generator.Float.Clamp.{Within, high_first, high_first-Within}
use log_generator.Metrics.{PerformanceMetrics}
use log_generator.Prelude.{List, [], false, if_ind, if◌then◌else◌, ◌∷◌, ◌≡◌}
use log_generator.Prelude.Int.{add64, ltb_ℤ, pos, sub64, ℤ}

module _ {F : Type 0} (fl : Float64 F) where
  -- The loop of calculateConsistencyScore, with its variables sum, sumSquares and count.
  unfoldable pub consistency_loop : List ℤ → F → F → ℤ → F × F × ℤ
  consistency_loop [] sum squares count = (sum, squares, count)
  consistency_loop (eps ∷ rest) sum squares count =
      let counts = ltb_ℤ (pos 0) eps in
      let x = fl.of_int eps in
      consistency_loop rest (if counts then fl.add sum x else sum)
        (if counts then fl.add squares (fl.mul x x) else squares)
        (if counts then add64 count (pos 1) else count)

  unfoldable pub at_least_zero : F → F
  at_least_zero score = if fl.lt score (float_zero fl) then float_zero fl else score

  -- The score of the sums: what is called the standard deviation is the variance.
  unfoldable pub consistency_of : F → F → ℤ → F
  consistency_of sum squares count =
      let mean = fl.div sum (fl.of_int count) in
      let variance = fl.div (fl.sub squares (fl.mul sum mean)) (fl.of_int (sub64 count (pos 1))) in
      let cv = if fl.lt (float_zero fl) mean then fl.div variance mean else (float_zero fl) in
      at_least_zero (fl.sub (float_hundred fl) (fl.mul cv (float_hundred fl)))

  -- calculateConsistencyScore
  unfoldable pub calculate_consistency_score : List ℤ → F
  calculate_consistency_score buffer =
      let (sum, squares, count) = consistency_loop buffer (float_zero fl) (float_zero fl) (pos 0) in
      if ltb_ℤ count (pos 2) then (float_hundred fl) else consistency_of sum squares count

  -- A rate for each unit of a resource, 100 where none is used.
  unfoldable pub resource_efficiency : ℤ → F → ℤ → F
  resource_efficiency eps used factor =
      if fl.lt (float_zero fl) used
      then fl.div (fl.of_int eps) (fl.mul used (fl.of_int factor))
      else (float_hundred fl)

  -- calculateEfficiencyScore
  unfoldable pub calculate_efficiency_score : PerformanceMetrics F → F
  calculate_efficiency_score m = high_first fl (float_zero fl) (float_hundred fl) (
      fl.add
        (fl.mul (resource_efficiency m.current_eps m.cpu_usage_percent (pos 1000))
          (fl.decimal (pos 6) 1))
        (fl.mul (resource_efficiency m.current_eps m.memory_usage_mb (pos 10))
          (fl.decimal (pos 4) 1)))

  consistency_of_bound :
      (sum squares : F) (count : ℤ)
      → fl.lt (float_zero fl) (float_zero fl) ≡ false
      → fl.lt (consistency_of sum squares count) (float_zero fl) ≡ false
  unfolding consistency_of at_least_zero
  consistency_of_bound sum squares count z =
      if_ind (λ x. fl.lt x (float_zero fl) ≡ false) (fl.lt _ (float_zero fl)) (λ below. z) (λ h. h)

  -- The efficiency score is neither below 0 nor above 100, and the consistency score is not below 0,
  -- where the order of float64 is irreflexive and does not put 100 below 0.
  pub scores_bounds :
      (buffer : List ℤ) (m : PerformanceMetrics F)
      → fl.lt (float_zero fl) (float_zero fl) ≡ false
      → fl.lt (float_hundred fl) (float_hundred fl) ≡ false
      → fl.lt (float_hundred fl) (float_zero fl) ≡ false
      → Within fl (float_zero fl) (float_hundred fl) (calculate_efficiency_score m)
        × (fl.lt (calculate_consistency_score buffer) (float_zero fl) ≡ false)
  unfolding calculate_efficiency_score calculate_consistency_score
  scores_bounds buffer m z h zh = (
    high_first-Within fl (float_zero fl) (float_hundred fl) _ z h zh,
    if_ind (λ x. fl.lt x (float_zero fl) ≡ false)
        (ltb_ℤ (consistency_loop buffer (float_zero fl) (float_zero fl) (pos 0)).2 (pos 2))
        (λ few. zh) (λ many. consistency_of_bound _ _ _ z),
  )
