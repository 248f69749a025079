-- ===== src/Monitor/Status.antt =====
-- The handlers of internal/monitor/control_server.go that only read: handleGetStatus, handleMetrics
-- and handleWorkers. A Go map is the list of its pairs, in the order in which it is ranged over.
use log_generator.Float.{Float64}
use log_generator.Metrics.{PerformanceMetrics}
use log_generator.Monitor.Control.{Control, GeneratorConfig}
use log_generator.Monitor.Update.{
  HasReports, rated, update_collector, update_tick, update_tick-totals,
}
use log_generator.Pool.State.{MetricsMap, Pool, PoolMetrics, get_metrics}
use log_generator.Prelude.{
  Bool, Bool-cases, List, Option, [], ap, false, inl, inr, keep_if, keep_if-dropped, keep_if-kept,
  length, map, none, refl, some, suc, sym, true, ◌*◌, ◌<◌, ◌∙◌, ◌∷◌, ◌≡◌,
}
use log_generator.Prelude.Int.{ltb_ℤ, pos, total, ℤ, ◌-ℤ◌}
use log_generator.Worker.Eps.{WorkerMetrics, seconds}
use log_generator.Worker.Lifecycle.{start}
use log_generator.Worker.State.{second, time_sub}

-- GeneratorStatus
pub record GeneratorStatus (F : Type 0) : Type 0 where
  pub is_running : Bool
  pub start_time : Option ℤ
  pub uptime_seconds : ℤ
  pub config : GeneratorConfig
  pub metrics : Option (PoolMetrics F (MetricsMap F))
  pub worker_statuses : List (ℤ × Bool)

-- What handleWorkers tells of a worker.
pub record WorkerRow : Type 0 where
  pub id : ℤ
  pub port : ℤ
  pub current_eps : ℤ
  pub total_sent : ℤ
  pub errors : ℤ
  pub active : Bool

module _ {F : Type 0} where
  -- The loop of handleGetStatus over the reports
  unfoldable pub statuses_of : MetricsMap F → List (ℤ × Bool)
  statuses_of [] = []
  statuses_of ((id, m) ∷ rest) = (id, ltb_ℤ (pos 0) m.current_eps) ∷ statuses_of rest

  -- The loop of handleWorkers over the reports
  unfoldable pub rows_of : MetricsMap F → List (ℤ × WorkerRow)
  rows_of [] = []
  rows_of ((id, m) ∷ rest) =
      (
        id,
        record {
          id = m.worker_id;
          port = m.port;
          current_eps = m.current_eps;
          total_sent = m.total_sent;
          errors = m.error_count;
          active = ltb_ℤ (pos 0) m.current_eps;
        },
      )
      ∷ rows_of rest

  -- The start time and the uptime of handleGetStatus, with two readings of the clock: an hour before
  -- the first, and the seconds from there to the second.
  unfoldable pub start_and_uptime : Float64 F → ℤ → ℤ → Bool → Option (Pool F) → Option ℤ × ℤ
  start_and_uptime fl now later false pool = (none, pos 0)
  start_and_uptime fl now later true none = (none, pos 0)
  start_and_uptime fl now later true (some p) =
      let start = now -ℤ pos (3600 * second) in
      (some start, fl.to_int (seconds fl (time_sub later start)))

module _ {F H : Type 0} where
  -- handleGetStatus
  unfoldable pub get_status : Float64 F → ℤ → ℤ → Control F H → GeneratorStatus F
  get_status fl now later cs =
      let (start, uptime) = start_and_uptime fl now later cs.is_running cs.worker_pool in
      record {
        is_running = cs.is_running;
        start_time = start;
        uptime_seconds = uptime;
        config = cs.config;
        metrics = elim cs.worker_pool [ none ↦ none | some p ↦ some (get_metrics p) ];
        worker_statuses = elim cs.worker_pool [
          | none ↦ []
          | some p ↦ statuses_of (get_metrics p).worker_metrics
        ];
      }

  -- handleMetrics
  unfoldable pub get_collected : Control F H → PerformanceMetrics F
  get_collected cs = cs.collector.current_metrics

  -- handleWorkers; without a pool it answers null.
  unfoldable pub get_workers : Control F H → Option (List (ℤ × WorkerRow))
  get_workers cs = elim cs.worker_pool [
    | none ↦ none
    | some p ↦ some (rows_of (get_metrics p).worker_metrics)
  ]

module _ {F : Type 0} where
  statuses-rated :
      (m : MetricsMap F) → length (keep_if (λ s. s.1) (statuses_of m)) ≡ length (rated m)
  unfolding statuses_of
  statuses-rated [] = refl
  statuses-rated ((id, m) ∷ rest) = elim (Bool-cases (ltb_ℤ (pos 0) m.current_eps)) [
    | inl on ↦
        rw
          (
            keep_if-kept (λ (s : ℤ × Bool). s.1) (id, ltb_ℤ (pos 0) m.current_eps)
                (statuses_of rest) on,
            keep_if-kept (λ (r : ℤ × WorkerMetrics F). ltb_ℤ (pos 0) r.1.current_eps) (id, m) rest
                on,
          )
          (ap suc (statuses-rated rest))
    | inr off ↦
        rw
          (
            keep_if-dropped (λ (s : ℤ × Bool). s.1) (id, ltb_ℤ (pos 0) m.current_eps)
                (statuses_of rest) off,
            keep_if-dropped (λ (r : ℤ × WorkerMetrics F). ltb_ℤ (pos 0) r.1.current_eps) (id, m)
                rest off,
          )
          (statuses-rated rest)
  ]

  length-statuses : (m : MetricsMap F) → length (statuses_of m) ≡ length m
  unfolding statuses_of
  length-statuses [] = refl
  length-statuses ((id, m) ∷ rest) = ap suc (length-statuses rest)

  rows-statuses : (m : MetricsMap F) → map (λ r. (r.0, r.1.active)) (rows_of m) ≡ statuses_of m
  unfolding rows_of statuses_of
  rows-statuses [] = refl
  rows-statuses ((id, m) ∷ rest) =
      ap (λ xs. (id, ltb_ℤ (pos 0) m.current_eps) ∷ xs) (rows-statuses rest)

module _ {F H : Type 0} (fl : Float64 F) where
  update_tick-worker_pool : (cs : Control F H) → (update_tick fl cs).worker_pool ≡ cs.worker_pool
  unfolding update_tick
  update_tick-worker_pool cs = by_pool cs.worker_pool
    where
      by_pool :
          (o : Option (Pool F))
          → let v : Control F H = elim o [
            | none ↦ cs
            | some p ↦ record cs { collector = update_collector fl (get_metrics p) cs.collector }
          ] in
            v.worker_pool ≡ cs.worker_pool
      by_pool none = refl
      by_pool (some p) = refl

  worker_statuses-pool :
      (now later : ℤ) (v : Control F H) (p : Pool F)
      → v.worker_pool ≡ some p
      → (get_status fl now later v).worker_statuses ≡ statuses_of (get_metrics p).worker_metrics
  unfolding get_status
  worker_statuses-pool now later v p there = rw there refl

  get_workers-pool :
      (v : Control F H) (p : Pool F)
      → v.worker_pool ≡ some p
      → get_workers v ≡ some (rows_of (get_metrics p).worker_metrics)
  unfolding get_workers
  get_workers-pool v p there = rw there refl

-- After a tick of metricsUpdateLoop, the handlers agree on a server with a pool: the metrics of
-- handleMetrics count as many active workers as there are in the statuses of handleGetStatus, and as
-- many workers as there are statuses, and handleWorkers tells the same workers to be active, if the
-- counts of the reports are not negative and their sums fit into 64 bits.
pub get_status-update_tick :
    {F H : Type 0} (fl : Float64 F) (now later : ℤ) (cs : Control F H) (p : Pool F)
    → cs.worker_pool ≡ some p
    → let reports = (get_metrics p).worker_metrics in
      HasReports reports
      → length (rated reports) < 9223372036854775808
      → total (λ r. r.1.total_sent) (rated reports) < 9223372036854775808
      → total (λ r. r.1.error_count) (rated reports) < 9223372036854775808
      → let v = update_tick fl cs in
        let statuses = (get_status fl now later v).worker_statuses in
        ((get_collected v).active_workers ≡ pos (length (keep_if (λ s. s.1) statuses)))
        × ((get_collected v).total_workers ≡ pos (length statuses))
        × (rows : List (ℤ × WorkerRow)) × (get_workers v ≡ some rows)
        × (map (λ r. (r.0, r.1.active)) rows ≡ statuses)
unfolding get_collected
get_status-update_tick fl now later cs p there h few sent errors =
    let reports = (get_metrics p).worker_metrics in
    let v = update_tick fl cs in
    let there' = update_tick-worker_pool fl cs ∙ there in
    let (a, _, _, n, _) = update_tick-totals fl cs p there h few sent errors in
    rw (worker_statuses-pool fl now later v p there') (
      a ∙ ap pos (sym (statuses-rated reports)),
      n ∙ ap pos (sym (length-statuses reports)),
      rows_of reports,
      get_workers-pool fl v p there',
      rows-statuses reports,
    )
