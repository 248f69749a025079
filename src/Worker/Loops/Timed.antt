-- ===== src/Worker/Loops/Timed.antt =====
-- The loops that keep their own times: sendLoopUltraPerformance in internal/worker/udp_worker.go,
-- which nothing calls, and sendLoopUltra and sendLoopRealtime in udp_worker_ultra.go. Waiting
-- changes no state and is not modelled.
use log_generator.Float.{Float64}
use log_generator.Prelude.{List, Option, if◌then◌else◌, none, some, ◌*◌}
use log_generator.Prelude.Int.{
  add64, eqb_ℤ, leb_ℤ, mul64, negsuc, pos, quot, rem, rounds, sub64, ℤ, ◌+ℤ◌,
}
use log_generator.Worker.Batch.{Round, SendError, count_all, deliver, fill_batch, send_batch}
use log_generator.Worker.Eps.{update_eps_metrics}
use log_generator.Worker.Loops.{Window, target_or, window_sent}
use log_generator.Worker.Loops.Adaptive.{adapt, scaled_batch, ultra_performance_factor}
use log_generator.Worker.State.{Bytes, Worker, millisecond, second}

-- The variables of sendLoopUltraPerformance
pub record Paced (F : Type 0) : Type 0 where
  pub window : Window F
  pub open window use *
  pub batch_number : ℤ
  pub next_send_time : ℤ

-- The variables of sendLoopUltra
pub record Pace : Type 0 where
  pub logs_per_batch : ℤ
  pub next_send_time : ℤ
  pub last_adjust_time : ℤ
  pub sent_in_window : ℤ

-- The two buffers of sendLoopRealtime, the one to send first
pub record Buffers : Type 0 where
  pub current : List Bytes
  pub next : List Bytes

module _ {F : Type 0} (fl : Float64 F) where
  unfoldable pub paced_start : ℤ → Paced F
  paced_start now = record {
    window = record { factor = fl.decimal (pos 10) 1; start = now; sent = pos 0 };
    batch_number = pos 0;
    next_send_time = now;
  }

  -- A pass of sendLoopUltraPerformance that began at `begun`, with batches of `logs` before feedback
  unfoldable pub ultra_performance_pass :
      ℤ → ℤ → ℤ → ℤ → Round → Worker F × Paced F → Worker F × Paced F
  ultra_performance_pass logs target interval begun r (w, p) =
      let n = pos (rounds (scaled_batch fl logs p.factor)) in
      let sent = deliver r n w in
      let counted = count_all n sent in
      let number = add64 p.batch_number (pos 1) in
      (
        if eqb_ℤ (rem number (pos 50)) (pos 0)
            then update_eps_metrics fl (r.now 2) counted
            else counted,
        record {
          window =
              adapt fl (250 * millisecond) (ultra_performance_factor fl target) r
                (window_sent n sent.1 p.window);
          batch_number = number;
          next_send_time = begun +ℤ mul64 number interval;
        },
      )

  -- The logs of a batch of sendLoopUltra, at its start
  unfoldable pub ultra_logs : Worker F → ℤ
  ultra_logs w =
      let target = target_or (pos 25_000) w.target_eps in
      scaled_batch fl (quot (mul64 target (pos 10)) (pos 1000)) (fl.decimal (pos 1064) 3)

  unfoldable pub ultra_start : ℤ → Worker F → Pace
  ultra_start now w = record {
    logs_per_batch = ultra_logs w;
    next_send_time = now;
    last_adjust_time = now;
    sent_in_window = pos 0;
  }

  -- The logs of the next batches: 1 % more or less, if the rate misses the target by 1 %
  unfoldable pub ultra_adjust : ℤ → ℤ → ℤ → ℤ → ℤ
  ultra_adjust target sent elapsed logs =
      let seconds = fl.div (fl.of_int elapsed) (fl.of_int (pos second)) in
      let actual = fl.div (fl.of_int sent) seconds in
      let error = fl.div (fl.sub (fl.of_int target) actual) (fl.of_int target) in
      if fl.lt (fl.decimal (pos 1) 2) error
      then scaled_batch fl logs (fl.decimal (pos 101) 2)
      else if fl.lt error (fl.decimal (negsuc 0) 2)
      then scaled_batch fl logs (fl.decimal (pos 99) 2)
      else logs

  unfoldable pub pace_sent : ℤ → Option SendError → Pace → Pace
  pace_sent n none p = record p { sent_in_window = add64 p.sent_in_window n }
  pace_sent n (some e) p = p

  -- A pass of sendLoopUltra, with one reading of the clock after the wait
  unfoldable pub ultra_pass : ℤ → Round → Worker F × Pace → Worker F × Pace
  ultra_pass target r (w, p) =
      let n = p.logs_per_batch in
      let sent = deliver r n w in
      let q = pace_sent n sent.1 p in
      let elapsed = sub64 (r.now 0) p.last_adjust_time in
      (
        count_all n sent,
        if leb_ℤ (pos (100 * millisecond)) elapsed
            then record {
              logs_per_batch = ultra_adjust target q.sent_in_window elapsed n;
              next_send_time = add64 p.next_send_time (pos (10 * millisecond));
              last_adjust_time = r.now 0;
              sent_in_window = pos 0;
            }
            else record q { next_send_time = add64 p.next_send_time (pos (10 * millisecond)) },
      )

  -- The logs of a batch of sendLoopRealtime
  unfoldable pub realtime_logs : Worker F → ℤ
  realtime_logs w = scaled_batch fl (target_or (pos 25_000) w.target_eps) (fl.decimal (pos 1064) 5)

  -- What fills the buffer: a batch made ahead, or one that is made now
  unfoldable pub realtime_fill : ℤ → Round → Option (List Bytes) → List Bytes
  realtime_fill n r none = fill_batch r.log 0 (rounds n)
  realtime_fill n r (some batch) = batch

  -- A tick of sendLoopRealtime, with what the channel of batches made ahead holds
  unfoldable pub realtime_tick :
      ℤ → Round → Option (List Bytes) → Worker F × Buffers → Worker F × Buffers
  realtime_tick n r ready (w, b) = (
    count_all n (send_batch r.write (record w { batch_buffer = b.current })),
    record { current = realtime_fill n r ready; next = b.current },
  )
