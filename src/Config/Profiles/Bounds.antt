-- ===== src/Config/Profiles/Bounds.antt =====
-- Bounds on what internal/config/profiles.go computes from a target rate.
use log_generator.Config.Profiles.{EpsProfile, gib}
use log_generator.Config.Profiles.Custom.{
  base_workers, calculate_custom_profile, calculate_worker_count, capped, custom_timing,
  guaranteed_workers, max_int, min_int,
}
use log_generator.Prelude.{arith, refl, ℕ, ◌*◌, ◌<◌, ◌≡◌, ◌≤◌}
use log_generator.Prelude.Int.{negsuc, pos, quot, ℤ, ◌*ℤ◌, ◌+ℤ◌, ◌<ℤ◌, ◌≤ℤ◌}

base_workers_pos : (target : ℤ) → pos 0 ≤ℤ target → pos 1 ≤ℤ base_workers target
unfolding base_workers quot
base_workers_pos (pos t) h = ground arith
base_workers_pos (negsuc t) h = absurd (omega arith)

guaranteed_workers-ge : (target workers : ℤ) → workers ≤ℤ guaranteed_workers target workers
unfolding guaranteed_workers
guaranteed_workers-ge target workers = ground arith

capped-le_limit : (limit workers : ℤ) → capped limit workers ≤ℤ limit
unfolding capped
capped-le_limit limit workers = ground arith

capped-le : (limit workers : ℤ) → capped limit workers ≤ℤ workers
unfolding capped
capped-le limit workers = ground arith

capped-ge : (low limit workers : ℤ) → low ≤ℤ limit → low ≤ℤ workers → low ≤ℤ capped limit workers
unfolding capped
capped-ge low limit workers h k = ground arith

-- For a target of at least 0 there is at least one worker, at most 200, and at most ten for each
-- processor.
pub calculate_worker_count_bounds :
    (cpus : ℕ) (target : ℤ)
    → 0 < cpus
    → pos 0 ≤ℤ target
    → (pos 1 ≤ℤ calculate_worker_count cpus target)
      × (calculate_worker_count cpus target ≤ℤ pos 200)
      × (calculate_worker_count cpus target ≤ℤ pos (cpus * 10))
unfolding calculate_worker_count
calculate_worker_count_bounds cpus target c h =
    let asked = guaranteed_workers target (base_workers target) in
    let by_cpus = capped (pos (cpus * 10)) asked in
    let enough : pos 1 ≤ℤ asked =
      omega
        (arith, base_workers_pos target h, guaranteed_workers-ge target (base_workers target)) in
    (
      capped-ge (pos 1) (pos 200) by_cpus (omega arith)
          (capped-ge (pos 1) (pos (cpus * 10)) asked (omega arith) enough),
      capped-le_limit (pos 200) by_cpus,
      omega (arith, capped-le (pos 200) by_cpus, capped-le_limit (pos (cpus * 10)) asked),
    )

base_workers_share :
    (t : ℕ) → t ≤ 5_000_000 → pos t <ℤ pos 25_000 *ℤ (base_workers (pos t) +ℤ pos 1)
unfolding base_workers quot ◌*ℤ◌ ◌+ℤ◌
base_workers_share t h = ground arith

-- On a machine with 20 processors or more, a target up to 5,000,000 leaves each worker, counted
-- with one to spare, a share below 25,000.
pub calculate_worker_count_share :
    (cpus t : ℕ)
    → 20 ≤ cpus
    → t ≤ 5_000_000
    → pos t <ℤ pos 25_000 *ℤ (calculate_worker_count cpus (pos t) +ℤ pos 1)
unfolding calculate_worker_count guaranteed_workers capped base_workers quot ◌*ℤ◌ ◌+ℤ◌
calculate_worker_count_share cpus t c h = ground arith

-- What a custom profile promises, whatever the target: the target itself, memory of 2 to 12 GiB,
-- a send buffer of 8,192 to 262,144 KB and a receive buffer of half of it.
pub record IsCustomFor (target : ℤ) (p : EpsProfile) : Type 0 where
  pub target_kept : p.target_eps ≡ target
  pub memory_low : pos (2 * gib) ≤ℤ p.memory_limit
  pub memory_high : p.memory_limit ≤ℤ pos (12 * gib)
  pub send_low : pos 8192 ≤ℤ p.send_buffer_size
  pub send_high : p.send_buffer_size ≤ℤ pos 262144
  pub receive_half : p.receive_buffer_size ≡ quot p.send_buffer_size (pos 2)
  pub batch_low : pos 10 ≤ℤ p.batch_size
  pub batch_high : p.batch_size ≤ℤ pos 200

-- CalculateCustomProfile gives a profile within these limits for every target.
pub calculate_custom_profile-IsCustomFor :
    (cpus : ℕ) (target : ℤ) → IsCustomFor target (calculate_custom_profile cpus target)
unfolding calculate_custom_profile custom_timing min_int max_int ◌*ℤ◌
calculate_custom_profile-IsCustomFor cpus target = record {
  target_kept = refl;
  memory_low = ground arith;
  memory_high = ground arith;
  send_low = ground arith;
  send_high = ground arith;
  receive_half = refl;
  batch_low = ground arith;
  batch_high = ground arith;
}
