-- ===== src/Worker/Loops/Fixed.antt =====
-- The loops that send batches of one size: the default case of sendLoop, and sendLoopPrecise, in
-- internal/worker/udp_worker.go.
use log_generator.Float.{Float64}
use log_generator.Prelude.{if◌then◌else◌}
use log_generator.Prelude.Int.{eqb_ℤ, mul64, pos, quot, ℤ}
use log_generator.Worker.Batch.{Round, count_all, deliver}
use log_generator.Worker.Eps.{update_eps_metrics}
use log_generator.Worker.Loops.{at_least_one, target_or}
use log_generator.Worker.State.{Worker}

module _ {F : Type 0} (fl : Float64 F) where
  -- A tick of a loop with batches of `n` logs that counts failures.
  unfoldable pub fixed_tick : ℤ → Round → Worker F → Worker F
  fixed_tick n r w = update_eps_metrics fl (r.now 0) (count_all n (deliver r n w))

  -- A tick of the default loop
  unfoldable pub ticker_tick : Round → Worker F → Worker F
  ticker_tick r w = fixed_tick w.batch_size r w

  -- The batch size of sendLoopPrecise
  unfoldable pub precise_batch : Worker F → ℤ
  precise_batch w =
      if eqb_ℤ w.batch_size (pos 0)
      then at_least_one (pos 1) (quot (target_or (pos 25_000) w.target_eps) (pos 100))
      else w.batch_size

  -- The period of its ticker, in milliseconds
  unfoldable pub precise_interval : Worker F → ℤ
  precise_interval w = at_least_one (pos 5) (quot w.ticker_interval (pos 1000))

  -- The rate that sendLoopPrecise announces: its batches in a second times their size.
  unfoldable pub expected_eps : Worker F → ℤ
  expected_eps w = mul64 (quot (pos 1000) (precise_interval w)) (precise_batch w)

  -- A tick of sendLoopPrecise, whose batch size is set at its start.
  unfoldable pub precise_tick : ℤ → Round → Worker F → Worker F
  precise_tick n r w = fixed_tick n r w
