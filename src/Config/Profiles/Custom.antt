-- ===== src/Config/Profiles/Custom.antt =====
-- internal/config/profiles.go: how a target rate makes or selects a profile.
use log_generator.Config.Profiles.{
  EpsProfile, custom_for, eps_profiles, find_profile, gib, profile_custom,
}
use log_generator.Float.{Float64}
use log_generator.Prelude.{List, Option, String, [], if◌then◌else◌, none, some, ℕ, ◌&&◌, ◌*◌, ◌∷◌}
use log_generator.Prelude.Int.{eqb_ℤ, leb_ℤ, ltb_ℤ, pos, quot, ℤ, ◌*ℤ◌, ◌+ℤ◌}

unfoldable pub max_int : ℤ → ℤ → ℤ
max_int a b = if ltb_ℤ b a then a else b

unfoldable pub min_int : ℤ → ℤ → ℤ
min_int a b = if ltb_ℤ a b then a else b

unfoldable pub optimal_eps_per_worker : ℤ → ℤ
optimal_eps_per_worker target =
    if leb_ℤ target (pos 100_000)
    then pos 10_000
    else if leb_ℤ target (pos 500_000)
    then pos 20_000
    else pos 25_000

-- The target over the optimal share of one worker, and 1 in place of 0.
unfoldable pub base_workers : ℤ → ℤ
unfolding optimal_eps_per_worker
base_workers target =
    let workers = quot target (optimal_eps_per_worker target) in
    if eqb_ℤ workers (pos 0) then pos 1 else workers

-- The least number of workers that a large target asks for.
unfoldable pub guaranteed_workers : ℤ → ℤ → ℤ
guaranteed_workers target workers =
    if leb_ℤ (pos 4_000_000) target && ltb_ℤ workers (pos 160)
    then pos 160
    else if leb_ℤ (pos 2_000_000) target && ltb_ℤ workers (pos 80)
    then pos 80
    else if leb_ℤ (pos 1_000_000) target && ltb_ℤ workers (pos 40)
    then pos 40
    else workers

-- `if workers > limit { workers = limit }`
unfoldable pub capped : ℤ → ℤ → ℤ
capped limit workers = if ltb_ℤ limit workers then limit else workers

-- calculateWorkerCount, on a machine with `cpus` processors (runtime.NumCPU).
unfoldable pub calculate_worker_count : ℕ → ℤ → ℤ
calculate_worker_count cpus target =
    capped (pos 200) (capped (pos (cpus * 10)) (guaranteed_workers target (base_workers target)))

-- The batch size and the timer that CalculateCustomProfile gives to a target.
unfoldable pub custom_timing : ℤ → ℤ × ℤ
custom_timing target =
    if leb_ℤ target (pos 100_000)
    then (pos 10, pos 100)
    else if leb_ℤ target (pos 500_000)
    then (pos 20, pos 40)
    else if leb_ℤ target (pos 1_000_000)
    then (pos 50, pos 50)
    else if leb_ℤ target (pos 2_000_000)
    then (pos 100, pos 50)
    else (pos 200, pos 50)

-- CalculateCustomProfile
unfoldable pub calculate_custom_profile : ℕ → ℤ → EpsProfile
calculate_custom_profile cpus target =
    let send = min_int (pos 262144) (max_int (pos 8192) (quot target (pos 10))) in
    record profile_custom {
      target_eps = target;
      worker_count = calculate_worker_count cpus target;
      batch_size = (custom_timing target).0;
      ticker_interval = (custom_timing target).1;
      memory_limit =
          min_int (pos 12) (max_int (pos 2) (quot target (pos 500_000) +ℤ pos 1)) *ℤ pos gib;
      send_buffer_size = send;
      receive_buffer_size = quot send (pos 2);
      description = custom_for target;
    }

module _ {F : Type 0} (fl : Float64 F) (cpus : ℕ) where
  -- The profile `p` with the workers in proportion, if the target is below that of `p`.
  unfoldable pub adjust : ℤ → EpsProfile → EpsProfile
  adjust target p =
      if ltb_ℤ target p.target_eps
      then record p {
        worker_count = max_int (pos 1) (
            fl.to_int (
              fl.mul (fl.of_int p.worker_count)
                (fl.div (fl.of_int target) (fl.of_int p.target_eps))));
        target_eps = target;
      }
      else p

  -- The profile for a target above all others.
  unfoldable pub custom_for_eps : ℤ → Option EpsProfile → Option EpsProfile
  custom_for_eps target none = none
  custom_for_eps target (some custom) =
      some
        (record custom { target_eps = target; worker_count = calculate_worker_count cpus target })

  -- The loop of GetProfileForEPS; `none` is the panic at a name that the map lacks.
  unfoldable pub for_eps_loop : ℤ → List String → Option EpsProfile
  unfolding find_profile adjust custom_for_eps
  for_eps_loop target [] = custom_for_eps target (find_profile "custom" eps_profiles)
  for_eps_loop target (name ∷ names) =
      let rest = for_eps_loop target names in
      elim (find_profile name eps_profiles) [
        | none ↦ none
        | some p ↦ if leb_ℤ target p.target_eps then some (adjust target p) else rest
      ]

  -- GetProfileForEPS
  unfoldable pub get_profile_for_eps : ℤ → Option EpsProfile
  unfolding for_eps_loop
  get_profile_for_eps target = for_eps_loop target ("100k" ∷ "500k" ∷ "1m" ∷ "2m" ∷ "4m" ∷ [])
