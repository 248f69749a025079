-- ===== src/App/Totals.antt =====
-- What the final report of cmd/main.go counts.
use log_generator.App.{App}
use log_generator.App.Report.{final_report}
use log_generator.App.Running.{app_event, update_app, updates}
use log_generator.Float.{Float64}
use log_generator.Metrics.Collect.{update_worker_metrics}
use log_generator.Metrics.Totals.{update_worker_metrics-totals}
use log_generator.Monitor.Update.{HasReports, metrics_of, metrics_of-rated, rated}
use log_generator.Pool.State.{MetricsMap, get_metrics}
use log_generator.Prelude.{
  Bool-cases, [], ap, arith, inl, inr, keep_if-dropped, keep_if-kept, length, ◌<◌, ◌∙◌, ◌∷◌, ◌≡◌,
  ◌≤◌,
}
use log_generator.Prelude.Int.{ltb_ℤ, pos, total, ℤ, ◌≤ℤ◌}
use log_generator.Worker.Eps.{WorkerMetrics}

-- The rated reports sent no more than all of them.
rated-le :
    {F : Type 0} (m : MetricsMap F)
    → total (λ r. r.1.total_sent) (rated m) ≤ total (λ r. r.1.total_sent) m
rated-le [] = omega arith
rated-le (r ∷ rest) = elim (Bool-cases (ltb_ℤ (pos 0) r.1.current_eps)) [
  | inl on ↦
      rw (keep_if-kept (λ (r : ℤ × WorkerMetrics _). ltb_ℤ (pos 0) r.1.current_eps) r rest on)
        (omega (arith, rated-le rest))
  | inr off ↦
      rw (keep_if-dropped (λ (r : ℤ × WorkerMetrics _). ltb_ℤ (pos 0) r.1.current_eps) r rest off)
        (omega (arith, rated-le rest))
]

-- After a tick of the update loop, the final report counts as sent exactly what the workers sent whose
-- last report has a positive rate, and as active as many as these, if the counts of the reports are
-- not negative and their sums fit into 64 bits; what the others sent is left out, so that the count is
-- at most that of all the reports.
pub final_report-total :
    {F H M : Type 0} (fl : Float64 F) (now : ℤ) (a : App F H M)
    → let reports = (get_metrics a.pool).worker_metrics in
      HasReports reports
      → length (rated reports) < 9223372036854775808
      → total (λ r. r.1.total_sent) (rated reports) < 9223372036854775808
      → total (λ r. r.1.error_count) (rated reports) < 9223372036854775808
      → let r = final_report fl now (app_event fl updates a) in
        (r.total_sent ≡ pos (total (λ r. r.1.total_sent) (rated reports)))
        × (r.active_workers ≡ pos (length (rated reports)))
        × (r.total_sent ≤ℤ pos (total (λ r. r.1.total_sent) reports))
unfolding final_report app_event update_app
final_report-total fl now a h few sent errors =
    let reports = (get_metrics a.pool).worker_metrics in
    let (n, s, e, counts, _) = metrics_of-rated reports in
    let t =
      update_worker_metrics-totals fl (metrics_of reports) a.collector (counts h) (omega (arith, n))
        (omega (arith, s)) (omega (arith, e)) in
    let all : (update_worker_metrics fl (metrics_of reports) a.collector).current_metrics.total_sent
        ≡ pos (total (λ r. r.1.total_sent) (rated reports)) =
      t.1 ∙ ap pos s in
    (all, t.0 ∙ ap pos n, rw all (omega (arith, rated-le reports)))
