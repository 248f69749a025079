-- ===== src/Pool/Aggregate.antt =====
-- The metrics aggregator of a WorkerPool in internal/worker/worker_pool.go: its ticks, the reports
-- that it receives between them, and the history of rates.
use log_generator.Float.{Float64}
use log_generator.Pool.State.{MapRef, Pool, PoolMetrics, SystemMetrics, aggregator_map, get_metrics}
use log_generator.Prelude.{List, Option, [], if◌then◌else◌, length, none, set, some, ◌%◌, ◌+◌, ◌∷◌}
use log_generator.Prelude.Int.{add64, eqb_ℤ, leb_ℤ, ltb_ℤ, mul64, pos, quot, ℤ}
use log_generator.Worker.Eps.{WorkerMetrics, seconds}
use log_generator.Worker.State.{Worker, second, time_sub}

-- What the machine and the Go runtime answer when they are asked.
pub record Reading (F : Type 0) : Type 0 where
  pub cpu_percent : Option F  -- none: an error, or no value
  pub sys_bytes : ℤ
  pub goroutines : ℤ
  pub pause_ns : ℤ

-- The variables of the loop over the workers.
pub record Sums : Type 0 where
  pub active : ℤ
  pub eps : ℤ
  pub sent : ℤ

abbrev pub no_sums : Sums
no_sums = record { active = pos 0; eps = pos 0; sent = pos 0 }

-- A write to a Go map.
unfoldable pub put {ℓ} : {A : Type ℓ} → ℤ → A → List (ℤ × A) → List (ℤ × A)
put k v [] = (k, v) ∷ []
put k v ((l, u) ∷ m) = if eqb_ℤ k l then (k, v) ∷ m else (l, u) ∷ put k v m

unfoldable pub lookup {ℓ} : {A : Type ℓ} → ℤ → List (ℤ × A) → Option A
lookup k [] = none
lookup k ((l, u) ∷ m) = if eqb_ℤ k l then some u else lookup k m

-- The loop over the workers of a tick.
unfoldable pub sum_workers : {F : Type 0} → List (Worker F) → Sums → Sums
sum_workers [] s = s
sum_workers (w ∷ ws) s = sum_workers ws (
    if w.is_running
    then record {
      active = add64 s.active (pos 1);
      eps = add64 s.eps w.current_eps;
      sent = add64 s.sent w.total_sent;
    }
    else s)

-- `if activeWorkers > 0 { averageEPS = totalEPS / int64(activeWorkers) }`
unfoldable pub average_of : Sums → ℤ
average_of s = if ltb_ℤ (pos 0) s.active then quot s.eps s.active else pos 0

module _ {F : Type 0} where
  -- updateEPSHistory
  unfoldable pub update_eps_history : ℤ → ℤ → Pool F → Pool F
  update_eps_history now eps p =
      if leb_ℤ (pos second) (time_sub now p.last_history_time)
      then record p {
        eps_history = set p.eps_history p.history_index eps;
        history_index = (p.history_index + 1) % length p.eps_history;
        last_history_time = now;
      }
      else p

  -- The case of metricsAggregator for a worker's report, which writes to its map.
  unfoldable pub receive_report : WorkerMetrics F → Pool F → Pool F
  receive_report m p = record p { metrics_map = put m.worker_id m p.metrics_map }

module _ {F : Type 0} (fl : Float64 F) where
  -- collectSystemMetrics
  unfoldable pub collect_system_metrics : ℤ → Reading F → Pool F → SystemMetrics F
  collect_system_metrics now reading p =
      let sent = (get_metrics p).total_sent in
      let bytes = mul64 sent (pos 512) in
      let elapsed = seconds fl (time_sub now p.start_time) in
      let kibi = fl.of_int (pos 1024) in
      record {
        cpu_usage_percent = elim reading.cpu_percent [ none ↦ fl.of_int (pos 0) | some c ↦ c ];
        memory_usage_mb = fl.div (fl.div (fl.of_int reading.sys_bytes) kibi) kibi;
        goroutine_count = reading.goroutines;
        gc_pause_ms = fl.div (fl.of_int reading.pause_ns) (fl.of_int (pos 1_000_000));
        network_tx_mbps =
            if fl.lt (fl.of_int (pos 0)) elapsed
            then fl.div (fl.div (fl.div (fl.mul (fl.of_int bytes) (fl.of_int (pos 8))) kibi) kibi)
                elapsed
            else fl.of_int (pos 0);
        network_tx_packets = sent;
        network_rx_packets = pos 0;
        network_tx_bytes = bytes;
        network_rx_bytes = pos 0;
      }

  -- The report of a tick. Neither the errors nor the packet losses are added up.
  unfoldable pub tick_report : ℤ → SystemMetrics F → Sums → PoolMetrics F MapRef
  tick_report now system s = record {
    total_eps = s.eps;
    total_sent = s.sent;
    total_errors = pos 0;
    active_workers = s.active;
    average_eps = average_of s;
    packet_loss_rate = fl.div (fl.of_int (pos 0)) (fl.of_int s.active);
    worker_metrics = aggregator_map;
    system_metrics = system;
    last_update = now;
  }

  -- A tick of metricsAggregator
  unfoldable pub aggregate : ℤ → Reading F → Pool F → Pool F
  aggregate now reading p =
      let s = sum_workers p.workers no_sums in
      record (update_eps_history now s.eps p) {
        pool_metrics = tick_report now (collect_system_metrics now reading p) s;
      }
