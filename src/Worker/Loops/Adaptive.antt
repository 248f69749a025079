-- ===== src/Worker/Loops/Adaptive.antt =====
-- The loops of internal/worker/udp_worker.go that adapt the size of a batch by feedback:
-- sendLoopMedium, sendLoopPerformance, sendLoopUltraPerformance and sendLoopPrecise_OLD.
use log_generator.Float.{Float64}
use log_generator.Float.Clamp.{high_first, low_first}
use log_generator.Prelude.{if◌then◌else◌, ℕ, ◌*◌}
use log_generator.Prelude.Int.{leb_ℤ, mul64, negsuc, pos, quot, ℤ}
use log_generator.Worker.Batch.{Round, count_all, count_sent, deliver}
use log_generator.Worker.Eps.{update_eps_metrics}
use log_generator.Worker.Loops.{Window, at_least_one, target_or, window_sent}
use log_generator.Worker.State.{Worker, millisecond, time_sub}

module _ {F : Type 0} (fl : Float64 F) where
  -- (actual - target) / target, where `scale` windows make a second
  unfoldable pub error_rate : ℕ → ℤ → ℤ → F
  error_rate scale target sent =
      fl.div (fl.sub (fl.mul (fl.of_int sent) (fl.of_int (pos scale))) (fl.of_int target))
        (fl.of_int target)

  -- factor * (1.0 + adjustment)
  unfoldable pub scaled : F → F → F
  scaled factor adjustment = fl.mul factor (fl.add (fl.decimal (pos 10) 1) adjustment)

  -- sendLoopMedium: 2 % tolerance, steps of at most 0.08, a factor between 0.7 and 1.3
  unfoldable pub medium_factor : ℤ → ℤ → F → F
  medium_factor target sent factor =
      let error = error_rate 5 target sent in
      let adjustment =
        high_first fl (fl.decimal (negsuc 7) 2) (fl.decimal (pos 8) 2)
          (fl.mul (fl.neg error) (fl.decimal (pos 4) 1)) in
      if fl.lt (fl.decimal (pos 2) 2) (fl.abs error)
      then low_first fl (fl.decimal (pos 7) 1) (fl.decimal (pos 13) 1) (scaled factor adjustment)
      else factor

  -- sendLoopPerformance: 1 % tolerance, steps of at most 0.1, a factor between 0.5 and 2.0
  unfoldable pub performance_factor : ℤ → ℤ → F → F
  performance_factor target sent factor =
      let error = error_rate 10 target sent in
      let adjustment =
        high_first fl (fl.decimal (negsuc 0) 1) (fl.decimal (pos 1) 1)
          (fl.mul (fl.neg error) (fl.decimal (pos 5) 1)) in
      if fl.lt (fl.decimal (pos 1) 2) (fl.abs error)
      then high_first fl (fl.decimal (pos 5) 1) (fl.decimal (pos 20) 1) (scaled factor adjustment)
      else factor

  -- sendLoopUltraPerformance: 1 % tolerance, steps of at most 0.05, a factor between 0.8 and 1.2
  unfoldable pub ultra_performance_factor : ℤ → ℤ → F → F
  ultra_performance_factor target sent factor =
      let error = error_rate 4 target sent in
      let adjustment =
        high_first fl (fl.decimal (negsuc 4) 2) (fl.decimal (pos 5) 2)
          (fl.mul (fl.neg error) (fl.decimal (pos 3) 1)) in
      if fl.lt (fl.decimal (pos 1) 2) (fl.abs error)
      then high_first fl (fl.decimal (pos 8) 1) (fl.decimal (pos 12) 1) (scaled factor adjustment)
      else factor

  -- sendLoopPrecise_OLD: 0.5 % tolerance, steps of at most 0.02, a factor between 0.95 and 1.05
  unfoldable pub precise_old_factor : ℤ → ℤ → F → F
  precise_old_factor target sent factor =
      let error = error_rate 20 target sent in
      let adjustment =
        high_first fl (fl.decimal (negsuc 1) 2) (fl.decimal (pos 2) 2)
          (fl.mul (fl.neg error) (fl.decimal (pos 8) 1)) in
      if fl.lt (fl.decimal (pos 5) 3) (fl.abs error)
      then low_first fl (fl.decimal (pos 95) 2) (fl.decimal (pos 105) 2) (scaled factor adjustment)
      else factor

  -- int(float64(logsPerBatch) * factor)
  unfoldable pub scaled_batch : ℤ → F → ℤ
  scaled_batch logs factor = fl.to_int (fl.mul (fl.of_int logs) factor)

  -- After `period` the window adapts its factor and starts anew, with two readings of the clock.
  unfoldable pub adapt : ℕ → (ℤ → F → F) → Round → Window F → Window F
  adapt period next r win =
      if leb_ℤ (pos period) (time_sub (r.now 0) win.start)
      then record { factor = next win.sent win.factor; start = r.now 1; sent = pos 0 }
      else win

  -- The logs of a batch of sendLoopMedium, before feedback
  unfoldable pub medium_logs : Worker F → ℤ
  medium_logs w = at_least_one (pos 1) (quot (target_or (pos 25_000) w.target_eps) (pos 100))

  unfoldable pub medium_start : ℤ → Window F
  medium_start now = record { factor = fl.decimal (pos 10) 1; start = now; sent = pos 0 }

  -- A tick of sendLoopMedium, with the logs and the target set at its start
  unfoldable pub medium_tick : ℤ → ℤ → Round → Worker F × Window F → Worker F × Window F
  medium_tick logs target r (w, win) =
      let n = at_least_one (pos 1) (scaled_batch logs win.factor) in
      let sent = deliver r n w in
      (
        update_eps_metrics fl (r.now 2) (count_sent n sent),
        adapt (200 * millisecond) (medium_factor target) r (window_sent n sent.1 win),
      )

  -- The period of sendLoopPerformance in milliseconds, and the logs of its batch
  unfoldable pub performance_interval : Worker F → ℤ
  performance_interval w = at_least_one (pos 10) (quot w.ticker_interval (pos 1000))

  unfoldable pub performance_logs : Worker F → ℤ
  performance_logs w =
      let target = target_or (pos 25_000) w.target_eps in
      at_least_one (pos 1) (
        fl.to_int (
          fl.mul (fl.div (fl.of_int (mul64 target (performance_interval w))) (fl.of_int (pos 1000)))
            (fl.decimal (pos 1064) 3)))

  unfoldable pub performance_start : ℤ → Window F
  performance_start now = record { factor = fl.decimal (pos 1064) 3; start = now; sent = pos 0 }

  -- A tick of sendLoopPerformance, which measures its rate only after 100 ms
  unfoldable pub performance_tick : ℤ → ℤ → Round → Worker F × Window F → Worker F × Window F
  performance_tick logs target r (w, win) =
      let n = at_least_one (pos 1) (scaled_batch logs win.factor) in
      let sent = deliver r n w in
      let counted = count_sent n sent in
      (
        if leb_ℤ (pos (100 * millisecond)) (time_sub (r.now 2) counted.last_metric_time)
            then update_eps_metrics fl (r.now 3) counted
            else counted,
        adapt (100 * millisecond) (performance_factor target) r (window_sent n sent.1 win),
      )

  -- A pass of sendLoopPrecise_OLD, which nothing calls
  unfoldable pub precise_old_pass : ℤ → Round → Worker F × Window F → Worker F × Window F
  precise_old_pass logs r (w, win) =
      let n = at_least_one (pos 1) (scaled_batch logs win.factor) in
      let sent = deliver r n w in
      (
        update_eps_metrics fl (r.now 2) (count_all n sent),
        adapt (50 * millisecond) (precise_old_factor w.target_eps) r (window_sent n sent.1 win),
      )
