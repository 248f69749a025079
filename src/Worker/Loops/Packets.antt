-- ===== src/Worker/Loops/Packets.antt =====
-- The size of the packets of sendLoopPerformance in internal/worker/udp_worker.go.
use log_generator.Float.{Float64, IsIeee}
use log_generator.Prelude.{All, List, arith, length, suc, zero, ℕ, ◌*◌, ◌+◌, ◌<◌, ◌≤◌}
use log_generator.Prelude.Int.{negsuc, pos, rounds, ℤ, ◌≤ℤ◌}
use log_generator.Worker.Batch.{Round, fill_batch}
use log_generator.Worker.Batch.Delivery.{length-fill_batch, packet_of}
use log_generator.Worker.Batch.Lines.{length-join_batch}
use log_generator.Worker.Loops.{at_least_one}
use log_generator.Worker.Loops.Adaptive.{performance_start, scaled_batch}
use log_generator.Worker.Loops.Factor.{performance_batch-le, performance_run}
use log_generator.Worker.State.{Bytes, Worker}

fill_batch-short :
    (log : ℕ → Bytes) (b i n : ℕ)
    → ((j : ℕ) → length (log j) ≤ b)
    → All (λ l. length l ≤ b) (fill_batch log i n)
unfolding fill_batch
fill_batch-short log b i zero h = tt
fill_batch-short log b i (suc n) h = (h i, fill_batch-short log b (suc i) n h)

rounds-le : (n : ℤ) (m : ℕ) → n ≤ℤ pos m → rounds n ≤ m
rounds-le (pos k) m h = omega arith
rounds-le (negsuc k) m h = omega arith

scaled_up : (x m c : ℕ) → x ≤ m → x * c ≤ m * c
scaled_up x m c h = grind arith

packet_of-le :
    (r : Round) (b m : ℕ) (n : ℤ)
    → ((j : ℕ) → length (r.log j) ≤ b)
    → n ≤ℤ pos m
    → length (packet_of r n) ≤ m * (b + 1)
unfolding packet_of
packet_of-le r b m n h k =
    let batch = fill_batch r.log 0 (rounds n) in
    let le = length-join_batch b batch (fill_batch-short r.log b 0 (rounds n) h) in
    let few : length batch ≤ m =
      omega (arith, length-fill_batch r.log 0 (rounds n), rounds-le n m k) in
    omega (arith, le, scaled_up (length batch) m (b + 1) few)

module _ {F : Type 0} (fl : Float64 F) (ieee : IsIeee fl) where
  -- Whatever the network and the clock did, the next packet of sendLoopPerformance for `n` logs, from
  -- 1 to 10^9, has at most (2 `n` + 1) (`b` + 1) bytes, if no log has more than `b` and floats round
  -- like IEEE 754.
  pub performance_packet-le :
      (n b : ℕ) (target now : ℤ) (rs : List Round) (r : Round) (w : Worker F)
      → 0 < n
      → n ≤ 1_000_000_000
      → ((j : ℕ) → length (r.log j) ≤ b)
      → let s = performance_run fl (pos n) target rs (w, performance_start fl now) in
        length (packet_of r (at_least_one (pos 1) (scaled_batch fl (pos n) s.1.factor)))
        ≤ (2 * n + 1) * (b + 1)
  performance_packet-le n b target now rs r w h k short =
      let le = performance_batch-le fl ieee n target now rs w h k in
      packet_of-le r b (2 * n + 1) _ short le
