-- ===== src/Worker/Lifecycle.antt =====
-- Start, Stop and the metrics goroutine of a UDPWorker in internal/worker/udp_worker.go.
pub mod Cycle
use log_generator.Float.{Float64}
use log_generator.Prelude.{Bool, List, false, if◌then◌else◌, true, ℕ}
use log_generator.Prelude.Int.{ℤ}
use log_generator.Worker.Eps.{WorkerMetrics, collect_metrics, offer}
use log_generator.Worker.Loops.{send_mode}
use log_generator.Worker.Loops.Stopping.{reaches}
use log_generator.Worker.State.{Worker, closed_conn, nil_conn, open_conn}

pub data WorkerError : Type 0 where
  already_running not_running : WorkerError

-- How a call ends: a panic is a close of a closed channel, and a call hangs that waits for a
-- goroutine which never ends.
pub data Outcome : Type 0 where
  succeeded panicked hung : Outcome
  refused : WorkerError → Outcome

module _ {F : Type 0} where
  -- Start: the send loop and the metrics goroutine run from here on.
  unfoldable pub start : Worker F → Worker F × Outcome
  start w =
      if w.is_running
      then (w, refused already_running)
      else (record w { is_running = true }, succeeded)

  -- cleanup
  unfoldable pub cleanup : Worker F → Worker F
  cleanup w = record w {
    ticker_stopped = true;
    conn = elim w.conn [
      | nil_conn ↦ nil_conn
      | open_conn ↦ closed_conn
      | closed_conn ↦ closed_conn
    ];
  }

  -- close(w.stopChan), the wait for the goroutines, and cleanup
  unfoldable pub close_and_wait : Bool → Worker F → Worker F × Outcome
  close_and_wait cancelled w =
      if w.stop_closed
      then (w, panicked)
      else let v = record w { stop_closed = true } in
        if reaches (send_mode w) (record { cancelled = cancelled; closed = true })
        then (cleanup v, succeeded)
        else (v, hung)

  -- Stop, where the context may be cancelled
  unfoldable pub stop : Bool → Worker F → Worker F × Outcome
  stop cancelled w =
      if w.is_running
      then close_and_wait cancelled (record w { is_running = false })
      else (w, refused not_running)

  -- A tick of metricsCollector: the worker's report is offered to the channel.
  unfoldable pub metrics_tick :
      Float64 F → ℕ → ℤ → ℕ → ℤ → Worker F → List (WorkerMetrics F) → List (WorkerMetrics F)
  metrics_tick fl capacity now cpus goroutines w queue =
      offer capacity (collect_metrics fl now cpus goroutines w) queue
