-- ===== src/Metrics/Totals.antt =====
-- What UpdateWorkerMetrics of pkg/metrics/collector.go adds up.
use log_generator.Float.{Float64, float_zero}
use log_generator.Metrics.{Collector, WorkerMetric}
use log_generator.Metrics.Collect.{update_worker_metrics, worker_totals}
use log_generator.Prelude.{
  All, Bool-cases, List, [], ap, arith, inl, inr, keep_if, length, refl, ℕ, ◌+◌, ◌<◌, ◌∙◌, ◌∷◌, ◌≡◌,
}
use log_generator.Prelude.Int.{add64_counted, add64_pos, pos, pos_part, total, ◌≤ℤ◌}

abbrev pub active : {F : Type 0} → List (WorkerMetric F) → List (WorkerMetric F)
active = keep_if (λ w. w.is_active)

abbrev pub HasCounts : {F : Type 0} → WorkerMetric F → Type 0
HasCounts w = (pos 0 ≤ℤ w.total_sent) × (pos 0 ≤ℤ w.error_count)

module _ {F : Type 0} (fl : Float64 F) where
  worker_totals_lem :
      (ws : List (WorkerMetric F)) (a t e : ℕ) (loss : F)
      → All HasCounts ws
      → a + length (active ws) < 9223372036854775808
      → t + total (λ w. w.total_sent) (active ws) < 9223372036854775808
      → e + total (λ w. w.error_count) (active ws) < 9223372036854775808
      → let r = worker_totals fl ws (pos a) (pos t) (pos e) loss in
        (r.0 ≡ pos (a + length (active ws)))
        × (r.1 ≡ pos (t + total (λ w. w.total_sent) (active ws)))
        × (r.2 ≡ pos (e + total (λ w. w.error_count) (active ws)))
  unfolding worker_totals
  worker_totals_lem [] a t e loss c h k l = ground arith
  worker_totals_lem (w ∷ ws) a t e loss c h k l = elim (Bool-cases w.is_active) [
    | inl on ↦
        let h' : a + 1 + length (active ws) < 9223372036854775808 = ground arith in
        let k' : t + pos_part w.total_sent + total (λ w. w.total_sent) (active ws)
            < 9223372036854775808 =
          ground arith in
        let l' : e + pos_part w.error_count + total (λ w. w.error_count) (active ws)
            < 9223372036854775808 =
          ground arith in
        let rest =
          worker_totals_lem ws (a + 1) (t + pos_part w.total_sent) (e + pos_part w.error_count)
            (fl.add loss w.packet_loss) c.1 h' k' l' in
        rw
          (
            on,
            worker_totals,
            add64_pos a 1 (omega arith),
            add64_counted t w.total_sent c.0.0 (omega arith),
            add64_counted e w.error_count c.0.1 (omega arith),
          )
          (
            rest.0 ∙ ap pos (omega arith),
            rest.1 ∙ ap pos (omega arith),
            rest.2 ∙ ap pos (omega arith),
          )
    | inr off ↦
        rw off (worker_totals_lem ws a t e loss c.1 (ground arith) (ground arith) (ground arith))
  ]

  -- UpdateWorkerMetrics stores the number of the active workers and the exact sums of what they sent
  -- and of their errors, where these fit into 64 bits, with all the workers as the details. Without
  -- an active worker the average loss is 0, and the rate and the scores are left as they were.
  pub update_worker_metrics-totals :
      {H : Type 0} (ws : List (WorkerMetric F)) (c : Collector F H)
      → All HasCounts ws
      → length (active ws) < 9223372036854775808
      → total (λ w. w.total_sent) (active ws) < 9223372036854775808
      → total (λ w. w.error_count) (active ws) < 9223372036854775808
      → let m = (update_worker_metrics fl ws c).current_metrics in
        (m.active_workers ≡ pos (length (active ws)))
        × (m.total_sent ≡ pos (total (λ w. w.total_sent) (active ws)))
        × (m.total_errors ≡ pos (total (λ w. w.error_count) (active ws)))
        × (m.total_workers ≡ pos (length ws))
        × (active ws ≡ [] → m.packet_loss ≡ float_zero fl)
        × (m.current_eps ≡ c.current_metrics.current_eps)
        × (m.efficiency_score ≡ c.current_metrics.efficiency_score)
  unfolding update_worker_metrics
  update_worker_metrics-totals ws c q h k l =
      let (x, y, z) =
        worker_totals_lem ws 0 0 0 (float_zero fl) q (omega arith) (omega arith) (omega arith) in
      (
        x ∙ ap pos (omega arith),
        y ∙ ap pos (omega arith),
        z ∙ ap pos (omega arith),
        refl,
        λ none_active. rw (x, none_active) refl,
        refl,
        refl,
      )
