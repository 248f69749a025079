-- ===== src/Witnesses/Worker.antt =====
-- Theorems on a worker of internal/worker at concrete inputs.
use log_generator.Float.Fixed.{millionths, millionths-IsIeee}
use log_generator.Prelude.{List, [], arith, false, refl, true, ◌∷◌, ◌≡◌, ◌≢◌, ◌⊎◌}
use log_generator.Prelude.Int.{pos, quot, ℤ, ◌*ℤ◌, ◌<ℤ◌, ◌≤ℤ◌}
use log_generator.Witnesses.Data.{busy_worker, sample_worker}
use log_generator.Worker.Batch.{join_batch}
use log_generator.Worker.Batch.Lines.{join_batch-split, split_lines}
use log_generator.Worker.Pid.{IsControlled, pid_round, run_pid_control, run_pid_control_lem}
use log_generator.Worker.State.{Bytes, Worker, closed_conn, initial_worker, time_sub}

abbrev two_logs : List Bytes
two_logs = (60 ∷ 48 ∷ []) ∷ (60 ∷ 49 ∷ 50 ∷ []) ∷ []

join_batch-split_example : split_lines (join_batch two_logs) ≡ two_logs
join_batch-split_example =
    join_batch-split two_logs (λ e. cc)
      (
        (λ e. ground arith, (λ e. ground arith, tt)),
        ((λ e. ground arith, (λ e. ground arith, (λ e. ground arith, tt))), tt),
      )

run_pid_control_lem_example :
    let v = run_pid_control millionths (pos 3_000_000_000) busy_worker in
    ((true ≡ true)
      × (pos 1000 ≢ pos 0)
      × (busy_worker.control_interval ≤ℤ time_sub (pos 3_000_000_000) busy_worker.last_control_time)
      × (v ≡ pid_round millionths (pos 3_000_000_000) busy_worker)
      × IsControlled millionths (pos 1000) v)
    ⊎ ((v ≡ busy_worker)
        × ((true ≡ false)
            ⊎ (pos 1000 ≡ pos 0)
            ⊎ (time_sub (pos 3_000_000_000) busy_worker.last_control_time
                <ℤ busy_worker.control_interval)))
unfolding initial_worker ◌*ℤ◌ quot
run_pid_control_lem_example =
    run_pid_control_lem millionths millionths-IsIeee.lt_irrefl (pos 3_000_000_000) busy_worker refl

abbrev spent_worker : Worker ℤ
spent_worker = record sample_worker { stop_closed = true; conn = closed_conn }
