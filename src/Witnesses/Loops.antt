-- ===== src/Witnesses/Loops.antt =====
-- Theorems on the send loops of internal/worker at concrete inputs.
use Prim.Native.String.{len}
use log_generator.Float.Fixed.{millionths, millionths-IsIeee}
use log_generator.Generator.{Draws, generate_system_log, generate_system_log_unsafe}
use log_generator.Generator.Bounds.{generate_system_log_bounds}
use log_generator.Prelude.{List, [], arith, length, refl, suc, ◌*◌, ◌+◌, ◌-◌, ◌∷◌, ◌≡◌, ◌≤◌}
use log_generator.Prelude.Int.{pos}
use log_generator.Witnesses.Data.{lost_round, sample_round, sample_worker}
use log_generator.Worker.Batch.{Round}
use log_generator.Worker.Batch.Delivery.{packet_of}
use log_generator.Worker.Loops.{at_least_one}
use log_generator.Worker.Loops.Adaptive.{performance_start, scaled_batch}
use log_generator.Worker.Loops.Factor.{performance_run}
use log_generator.Worker.Loops.Packets.{performance_packet-le}
use log_generator.Worker.Loops.Totals.{Counts, fixed_run, fixed_run-Counts, successes}
use log_generator.Worker.State.{initial_worker}

abbrev rounds_of_three : List Round
rounds_of_three = sample_round ∷ lost_round ∷ sample_round ∷ []

fixed_run-Counts_example :
    Counts millionths
      (0 + suc 1 * successes (pos (suc 1)) rounds_of_three)
      (0 + (length rounds_of_three - successes (pos (suc 1)) rounds_of_three))
      (fixed_run millionths (pos (suc 1)) rounds_of_three sample_worker)
unfolding initial_worker
fixed_run-Counts_example =
    fixed_run-Counts millionths 1 0 0 rounds_of_three sample_worker
      (record { connected = refl; total = refl; errors = refl }) (omega arith) (omega arith)

abbrev sample_draws : Draws
sample_draws = record { priority = 3; hostname = 18; service = 9; pid = 9999; message = 14 }

generate_system_log_bounds_example :
    let log = generate_system_log "2025-01-02T03:04:05.678Z" sample_draws in
    (len "2025-01-02T03:04:05.678Z" + 41 ≤ len log)
    × (len log ≤ len "2025-01-02T03:04:05.678Z" + 90)
    × (generate_system_log_unsafe "2025-01-02T03:04:05.678Z" sample_draws ≡ log)
generate_system_log_bounds_example =
    generate_system_log_bounds "2025-01-02T03:04:05.678Z" sample_draws (record {
      priority = omega arith;
      hostname = omega arith;
      service = omega arith;
      pid = omega arith;
      message = omega arith;
    })

performance_packet-le_example :
    let s =
      performance_run millionths
        (pos 266)
        (pos 25_000)
        rounds_of_three
        (sample_worker, performance_start millionths (pos 0)) in
    length
      (packet_of sample_round (at_least_one (pos 1) (scaled_batch millionths (pos 266) s.1.factor)))
    ≤ (2 * 266 + 1) * (114 + 1)
performance_packet-le_example =
    performance_packet-le millionths millionths-IsIeee 266 114 (pos 25_000) (pos 0) rounds_of_three
      sample_round sample_worker (omega arith) (omega arith) (λ j. omega arith)
