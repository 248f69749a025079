-- ===== src/Witnesses/Data.antt =====
-- Concrete workers, pools and answers of the world.
use log_generator.Config.Optimizer.{Runtime}
use log_generator.Config.Profiles.{profile_100k}
use log_generator.Float.Fixed.{millionths}
use log_generator.Pool.Aggregate.{Reading}
use log_generator.Pool.State.{Pool, aggregator_map, initial_metrics, make_pool}
use log_generator.Prelude.{[], false, none, true, ℕ, ◌∷◌}
use log_generator.Prelude.Int.{pos, ℤ}
use log_generator.Worker.Batch.{Round}
use log_generator.Worker.Eps.{WorkerMetrics, collect_metrics}
use log_generator.Worker.State.{Network, Worker, initial_worker, open_conn}

abbrev pub sample_worker : Worker ℤ
sample_worker =
    initial_worker millionths (pos 0) (pos 1) (pos 10514) "127.0.0.1" (pos 2) (pos 5000) open_conn

-- A worker that has sent, and was measured a second before the time 2,000,000,000.
abbrev pub busy_worker : Worker ℤ
busy_worker = record sample_worker {
  is_running = true;
  total_sent = pos 700;
  last_total_sent = pos 200;
  last_metric_time = pos 1_000_000_000;
  current_eps = pos 400;
  target_eps = pos 1000;
  adaptive_control = true;
}

abbrev pub sample_round : Round
sample_round = record {
  log = λ i. 60 ∷ i ∷ [];
  write = λ packet. true;
  now = λ i. pos 2_000_000_000;
}

abbrev pub lost_round : Round
lost_round = record {
  log = λ i. 60 ∷ i ∷ [];
  write = λ packet. false;
  now = λ i. pos 2_000_000_000;
}

-- A network that grants everything.
abbrev pub open_network : ℕ → Network
open_network i = record { resolves = true; dials = true; buffers = true }

abbrev pub sample_pool : Pool ℤ
sample_pool = make_pool millionths (pos 0) "127.0.0.1" profile_100k false

abbrev pub two_workers : Pool ℤ
two_workers = record sample_pool { workers = sample_worker ∷ sample_worker ∷ [] }

abbrev pub sample_reading : Reading ℤ
sample_reading = record {
  cpu_percent = none;
  sys_bytes = pos 1_048_576;
  goroutines = pos 12;
  pause_ns = pos 500;
}

abbrev pub sample_runtime : Runtime
sample_runtime = record {
  max_procs = pos 8;
  gc_percent = pos 100;
  memory_limit = pos 1_073_741_824;
}

abbrev pub first_report : WorkerMetrics ℤ
first_report = collect_metrics millionths (pos 10) 8 (pos 12) busy_worker

-- A pool with a tick and two reports behind it.
abbrev pub reported_pool : Pool ℤ
reported_pool = record sample_pool {
  is_running = true;
  pool_metrics = record (initial_metrics millionths (pos 0)) {
    total_sent = pos 900;
    worker_metrics = aggregator_map;
  };
  metrics_map =
      (pos 1, first_report)
      ∷ (pos 2, record first_report { current_eps = pos 0; error_count = pos 3 })
      ∷ [];
}
