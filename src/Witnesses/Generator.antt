-- ===== src/Witnesses/Generator.antt =====
-- Theorems on the packets of generated logs at concrete inputs.
use log_generator.Generator.{generate_system_log, itoa, pid_at}
use log_generator.Generator.Clock.{format_utc}
use log_generator.Generator.Codes.{codes}
use log_generator.Generator.Parse.{drawn}
use log_generator.Generator.Parse.Packets.{Log, bytes_of, read_packet, read_packet-join_batch}
use log_generator.Generator.Parse.Sizes.{packet-fits}
use log_generator.Prelude.{List, [], arith, length, map, refl, some, ◌*◌, ◌∷◌, ◌≡◌, ◌≤◌}
use log_generator.Worker.Batch.{join_batch}

abbrev sample_logs : List Log
sample_logs =
    (
      record { year = 2024; month = 1; day = 2; hour = 13; minute = 4; second = 5; milli = 67 },
      record { priority = 23; hostname = 18; service = 9; pid = 9999; message = 14 },
    )
    ∷ (
      record {
        year = 1999;
        month = 12;
        day = 31;
        hour = 23;
        minute = 59;
        second = 59;
        milli = 999;
      },
      record { priority = 0; hostname = 0; service = 0; pid = 0; message = 0 },
    )
    ∷ []

read_packet-join_batch_example :
    read_packet (join_batch (map bytes_of sample_logs))
    ≡ map (λ l. some (drawn (format_utc l.0) l.1)) sample_logs
read_packet-join_batch_example =
    read_packet-join_batch sample_logs (λ e. cc)
      (
        record {
          priority = omega arith;
          hostname = omega arith;
          service = omega arith;
          pid = omega arith;
          message = omega arith;
        },
        (
          record {
            priority = omega arith;
            hostname = omega arith;
            service = omega arith;
            pid = omega arith;
            message = omega arith;
          },
          tt,
        ),
      )

packet-fits_example :
    let packet = join_batch (map bytes_of sample_logs) in
    (length packet ≤ length sample_logs * 115) × (length sample_logs ≤ 569 → length packet ≤ 65507)
packet-fits_example = packet-fits sample_logs

-- The first log, in full.
first_log :
    codes (
      generate_system_log "2024-01-02T13:04:05.067Z"
        (record { priority = 23; hostname = 18; service = 9; pid = 9999; message = 14 }))
    ≡ codes
        "<39>2024-01-02T13:04:05.067Z lb02 NetworkManager[10999]: pam_unix(sshd:session): session opened for user admin"
unfolding generate_system_log pid_at itoa
first_log = refl
