-- ===== src/Worker/Eps.antt =====
-- The measurements of internal/worker/udp_worker.go: the smoothed rate, its history, and what a
-- worker reports of itself.
pub mod Ring
pub mod Average
pub mod Keeps
use log_generator.Float.{Float64}
use log_generator.Prelude.{
  List, [], if◌then◌else◌, length, ltb, not, set, ℕ, ◌%◌, ◌&&◌, ◌*◌, ◌++◌, ◌+◌, ◌∷◌,
}
use log_generator.Prelude.Int.{add64, eqb_ℤ, leb_ℤ, ltb_ℤ, pos, quot, rem, sub64, ℤ}
use log_generator.Worker.State.{Worker, millisecond, second, time_sub, zero_time}

-- WorkerMetrics
pub record WorkerMetrics (F : Type 0) : Type 0 where
  pub worker_id : ℤ
  pub port : ℤ
  pub current_eps : ℤ
  pub total_sent : ℤ
  pub error_count : ℤ
  pub packet_loss : F
  pub last_sent_time : ℤ
  pub cpu_usage : F
  pub goroutine_count : ℤ

module _ {F : Type 0} (fl : Float64 F) where
  -- Duration.Seconds
  unfoldable pub seconds : ℤ → F
  seconds d =
      fl.add (fl.of_int (quot d (pos second)))
        (fl.div (fl.of_int (rem d (pos second))) (fl.of_int (pos second)))

  -- 30 % of the new value and 70 % of the old, or the new value where the old is 0
  unfoldable pub smooth : ℤ → F → F
  smooth current instant =
      let factor = fl.decimal (pos 3) 1 in
      if eqb_ℤ current (pos 0)
      then instant
      else fl.add (fl.mul (fl.of_int current) (fl.sub (fl.of_int (pos 1)) factor))
          (fl.mul instant factor)

  -- The rate that updateEPSMetrics stores after `duration` with these totals.
  unfoldable pub next_eps : ℤ → ℤ → ℤ → ℤ → ℤ
  next_eps total last duration current =
      fl.to_int (smooth current (fl.div (fl.of_int (sub64 total last)) (seconds duration)))

  -- Store a rate, and write it to the history.
  unfoldable pub record_eps : ℤ → Worker F → Worker F
  record_eps eps w = record w {
    current_eps = eps;
    eps_counts = set w.eps_counts w.eps_index eps;
    eps_index = (w.eps_index + 1) % length w.eps_counts;
  }

  -- updateEPSMetrics, at the time `now`
  unfoldable pub update_eps_metrics : ℤ → Worker F → Worker F
  update_eps_metrics now w =
      let duration = time_sub now w.last_metric_time in
      if leb_ℤ (pos (100 * millisecond)) duration
      then record (if not (eqb_ℤ w.last_metric_time zero_time) && ltb_ℤ (pos 0) w.last_total_sent
          then record_eps (next_eps w.total_sent w.last_total_sent duration w.current_eps) w
          else record w { current_eps = pos 0 }) {
            last_total_sent = w.total_sent;
            last_metric_time = now;
          }
      else w

  -- collectMetrics and GetMetrics, with what the clock and the runtime answer
  unfoldable pub collect_metrics : ℤ → ℕ → ℤ → Worker F → WorkerMetrics F
  collect_metrics now cpus goroutines w = record {
    worker_id = w.id;
    port = w.port;
    current_eps = w.current_eps;
    total_sent = w.total_sent;
    error_count = w.error_count;
    packet_loss =
        if ltb_ℤ (pos 0) w.total_sent
        then fl.mul (fl.div (fl.of_int w.error_count) (fl.of_int w.total_sent))
            (fl.of_int (pos 100))
        else fl.of_int (pos 0);
    last_sent_time = now;
    cpu_usage = fl.mul (fl.of_int (pos cpus)) (fl.decimal (pos 1) 1);
    goroutine_count = goroutines;
  }

-- A send to a channel in a `select` with a default: dropped if the channel is full.
unfoldable pub offer {ℓ} : {A : Type ℓ} → ℕ → A → List A → List A
offer capacity a queue = if ltb (length queue) capacity then queue ++ a ∷ [] else queue

-- The loop of GetAverageEPS, with its two variables.
unfoldable pub average_loop : List ℤ → ℤ → ℤ → ℤ × ℤ
average_loop [] sum count = (sum, count)
average_loop (eps ∷ rest) sum count =
    let counts = ltb_ℤ (pos 0) eps in
    average_loop rest (if counts then add64 sum eps else sum)
      (if counts then add64 count (pos 1) else count)

-- GetAverageEPS
unfoldable pub get_average_eps : List ℤ → ℤ
get_average_eps eps_counts =
    let (sum, count) = average_loop eps_counts (pos 0) (pos 0) in
    if eqb_ℤ count (pos 0) then pos 0 else quot sum count
