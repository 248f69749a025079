-- ===== src/Witnesses/Pool.antt =====
-- Theorems on the pool of internal/worker at concrete inputs.
use log_generator.Config.Profiles.{get_profile, profile_100k}
use log_generator.Float.Fixed.{millionths}
use log_generator.Pool.Aggregate.{aggregate, lookup, receive_report}
use log_generator.Pool.Cycle.{stop_pool-restarted, stop_pool-start_pool}
use log_generator.Pool.Initialize.{divided_by_zero, initialize, initialized, limited_count}
use log_generator.Pool.Modes.{Enters, initialize-Enters}
use log_generator.Pool.Numbering.{AllFrom, IsUp, IsWorker, initialize-IsWorker}
use log_generator.Pool.Reports.{get_metrics-receive_report}
use log_generator.Pool.Running.{already_started, crashed, done, not_started, start_pool, stop_pool}
use log_generator.Pool.State.{Pool, aggregator_map, get_metrics, initial_map, make_pool}
use log_generator.Pool.Sums.{aggregate-totals}
use log_generator.Prelude.{
  All, [], arith, if◌then◌else◌, length, refl, some, true, ℕ, ◌*◌, ◌+◌, ◌<◌, ◌∷◌, ◌≡◌, ◌≢◌, ◌≤◌,
}
use log_generator.Prelude.Int.{eqb_ℤ, pos, pos_part, rounds, ℤ}
use log_generator.Witnesses.Data.{
  busy_worker, open_network, sample_pool, sample_reading, sample_worker, two_workers,
}
use log_generator.Worker.Eps.{WorkerMetrics, collect_metrics}
use log_generator.Worker.Lifecycle.Cycle.{IsFresh, IsSpent}
use log_generator.Worker.State.{closed_conn, initial_worker}

open_network-IsUp : (j : ℕ) → IsUp (open_network j)
open_network-IsUp j = (refl, refl, refl)

fresh : IsFresh sample_worker
unfolding initial_worker
fresh = record { idle = refl; unstopped = refl; connected = refl }

initialize-IsWorker_example :
    let count = limited_count profile_100k in
    let (q, outcome) = initialize millionths open_network (pos 5) sample_pool in
    (length q.workers ≡ rounds count)
    × (q.worker_count ≡ pos (length q.workers))
    × AllFrom (IsWorker profile_100k count) 0 q.workers
    × (outcome ≡ (if eqb_ℤ count (pos 0) then divided_by_zero else initialized))
unfolding make_pool
initialize-IsWorker_example =
    initialize-IsWorker millionths open_network (pos 5) sample_pool open_network-IsUp refl refl

stop_pool-start_pool_example :
    let v = (start_pool (pos 5) two_workers).0 in
    let (q, outcome) = stop_pool v in
    ((start_pool (pos 5) two_workers).1 ≡ done)
    × ((start_pool (pos 6) v).1 ≡ already_started)
    × (outcome ≡ done)
    × All IsSpent q.workers
    × (length q.workers ≡ 2)
    × ((stop_pool q).1 ≡ not_started)
unfolding make_pool
stop_pool-start_pool_example =
    stop_pool-start_pool (pos 5) (pos 6) two_workers refl (fresh, (fresh, tt))

abbrev spent_pool : Pool ℤ
spent_pool = record sample_pool {
  workers = record sample_worker { stop_closed = true; conn = closed_conn } ∷ [];
}

stop_pool-restarted_example :
    ((start_pool (pos 5) spent_pool).1 ≡ done)
    × ((stop_pool (start_pool (pos 5) spent_pool).0).1 ≡ crashed)
unfolding make_pool initial_worker
stop_pool-restarted_example =
    stop_pool-restarted (pos 5) spent_pool refl
      (record { idle = refl; stopped = refl; disconnected = refl }, tt) (omega arith)

abbrev busy_pool : Pool ℤ
busy_pool = record sample_pool { workers = busy_worker ∷ sample_worker ∷ busy_worker ∷ [] }

aggregate-totals_example :
    let m = get_metrics (aggregate millionths (pos 9) sample_reading busy_pool) in
    (m.active_workers ≡ pos 2)
    × (m.total_eps ≡ pos 800)
    × (m.total_sent ≡ pos 1400)
    × (0 < 2 → pos_part m.average_eps * 2 ≤ 800)
    × (0 < 2 → 800 < (pos_part m.average_eps + 1) * 2)
    × (m.total_errors ≡ pos 0)
unfolding make_pool initial_worker
aggregate-totals_example =
    aggregate-totals millionths (pos 9) sample_reading busy_pool
      ((omega arith, omega arith), ((omega arith, omega arith), ((omega arith, omega arith), tt)))
      (omega arith) (omega arith) (omega arith)

abbrev ticked_pool : Pool ℤ
ticked_pool = aggregate millionths (pos 9) sample_reading busy_pool

abbrev sample_report : WorkerMetrics ℤ
sample_report = collect_metrics millionths (pos 10) 8 (pos 12) busy_worker

get_metrics-receive_report_example :
    let before = get_metrics ticked_pool in
    let after = get_metrics (receive_report sample_report ticked_pool) in
    (ticked_pool.pool_metrics.worker_metrics ≡ aggregator_map
      → lookup sample_report.worker_id after.worker_metrics ≡ some sample_report)
    × (sample_report.worker_id ≢ pos 7
        → lookup (pos 7) after.worker_metrics ≡ lookup (pos 7) before.worker_metrics)
    × (ticked_pool.pool_metrics.worker_metrics ≡ initial_map → after ≡ before)
    × (after ≡ record before { worker_metrics = after.worker_metrics })
get_metrics-receive_report_example = get_metrics-receive_report sample_report (pos 7) ticked_pool

initialize-Enters_example :
    All
      (Enters millionths profile_100k)
      (initialize millionths open_network (pos 5) sample_pool).0.workers
unfolding get_profile make_pool
initialize-Enters_example =
    initialize-Enters millionths open_network (pos 5) sample_pool "100k" open_network-IsUp refl refl
      refl (λ e. cc)
