-- ===== src/Config/Profiles/Selection.antt =====
-- Which profile a name or a target rate selects in internal/config/profiles.go.
use log_generator.Config.Profiles.{
  EpsProfile, get_profile, profile_100k, profile_1m, profile_2m, profile_4m, profile_500k,
  profile_custom,
}
use log_generator.Config.Profiles.Bounds.{calculate_worker_count_bounds}
use log_generator.Config.Profiles.Custom.{adjust, custom_for_eps, get_profile_for_eps, max_int}
use log_generator.Float.{Float64, IsIeee}
use log_generator.Prelude.{
  Holds, Option, String, arith, eq_iff, if_ind, refl, some, ℕ, ◌<◌, ◌≡◌, ◌≢◌,
}
use log_generator.Prelude.Int.{eq_of_parts, leb_ℤ, pos, quot, ℤ, ◌*ℤ◌, ◌<ℤ◌, ◌≤ℤ◌}
use log_generator.Prelude.Result.{ok}

-- A profile that GetProfile returns carries the name that was asked for.
pub get_profile-name : (name : String) (p : EpsProfile) → get_profile name ≡ ok p → p.name ≡ name
unfolding get_profile
get_profile-name name p h = ground (
  arith,
  eq_iff "100k" name,
  eq_iff "500k" name,
  eq_iff "1m" name,
  eq_iff "2m" name,
  eq_iff "4m" name,
  eq_iff "custom" name,
)

-- A pool can be built from the profile: workers within 1 to 200 that share the target evenly, with
-- a share of at most 25,000 each, and a timer of whole milliseconds.
pub record IsBalanced (p : EpsProfile) : Type 0 where
  pub some_worker : pos 1 ≤ℤ p.worker_count
  pub few_workers : p.worker_count ≤ℤ pos 200
  pub even : p.worker_count *ℤ quot p.target_eps p.worker_count ≡ p.target_eps
  pub light : quot p.target_eps p.worker_count ≤ℤ pos 25_000
  pub whole_ms : pos 1000 *ℤ quot p.ticker_interval (pos 1000) ≡ p.ticker_interval

-- Every profile that GetProfile returns, but the one named custom, is balanced.
pub get_profile-IsBalanced :
    (name : String) (p : EpsProfile) → get_profile name ≡ ok p → p.name ≢ "custom" → IsBalanced p
unfolding get_profile quot ◌*ℤ◌
get_profile-IsBalanced name p h c = ground arith

module _ {F : Type 0} (fl : Float64 F) (cpus : ℕ) where
  get_profile_for_eps_cases :
      (P : Option EpsProfile → Type 0) (target : ℤ)
      → (target ≤ℤ pos 100_000 → P (some (adjust fl cpus target profile_100k)))
      → (pos 100_000 <ℤ target
          → target ≤ℤ pos 500_000
          → P (some (adjust fl cpus target profile_500k)))
      → (pos 500_000 <ℤ target
          → target ≤ℤ pos 1_000_000
          → P (some (adjust fl cpus target profile_1m)))
      → (pos 1_000_000 <ℤ target
          → target ≤ℤ pos 2_000_000
          → P (some (adjust fl cpus target profile_2m)))
      → (pos 2_000_000 <ℤ target
          → target ≤ℤ pos 4_000_000
          → P (some (adjust fl cpus target profile_4m)))
      → (pos 4_000_000 <ℤ target → P (custom_for_eps fl cpus target (some profile_custom)))
      → P (get_profile_for_eps fl cpus target)
  unfolding get_profile_for_eps
  get_profile_for_eps_cases P target a b c d e f =
      if_ind P (leb_ℤ target (pos 100_000)) (λ h. a (ground arith))
        λ h1.
          if_ind P (leb_ℤ target (pos 500_000)) (λ h. b (ground arith) (ground arith))
            λ h2.
              if_ind P (leb_ℤ target (pos 1_000_000)) (λ h. c (ground arith) (ground arith))
                λ h3.
                  if_ind P (leb_ℤ target (pos 2_000_000)) (λ h. d (ground arith) (ground arith))
                    λ h4.
                      if_ind P (leb_ℤ target (pos 4_000_000)) (λ h. e (ground arith) (ground arith))
                        λ h5. f (ground arith)

  adjust-target :
      (target : ℤ) (p : EpsProfile)
      → target ≤ℤ p.target_eps
      → (adjust fl cpus target p).target_eps ≡ target
  unfolding adjust
  adjust-target target p h = ground (arith, eq_of_parts p.target_eps target)

  adjust-name : (target : ℤ) (p : EpsProfile) → (adjust fl cpus target p).name ≡ p.name
  unfolding adjust
  adjust-name target p = ground arith

  -- GetProfileForEPS finds a profile for every target, and the profile has that very target.
  pub get_profile_for_eps-target :
      (target : ℤ) → Holds (λ p. p.target_eps ≡ target) (get_profile_for_eps fl cpus target)
  get_profile_for_eps-target target =
      get_profile_for_eps_cases (Holds (λ p. p.target_eps ≡ target)) target
        (λ h. adjust-target target profile_100k h) (λ _ h. adjust-target target profile_500k h)
        (λ _ h. adjust-target target profile_1m h) (λ _ h. adjust-target target profile_2m h)
        (λ _ h. adjust-target target profile_4m h) (λ _. unfold custom_for_eps in refl)

  -- The profile that is listed under the name of `p` suffices for the target, and no listed
  -- profile that suffices has a lower rate.
  abbrev pub IsLeast : ℤ → EpsProfile → Type 0
  IsLeast target p =
      (base q : EpsProfile) (name : String)
      → get_profile p.name ≡ ok base
      → get_profile name ≡ ok q
      → target ≤ℤ q.target_eps
      → (target ≤ℤ base.target_eps) × (base.target_eps ≤ℤ q.target_eps)

  least :
      (target : ℤ) (p : EpsProfile)
      → pos 0 <ℤ target
      → ((base q : EpsProfile) (name : String)
          → get_profile p.name ≡ ok base
          → get_profile name ≡ ok q
          → target ≤ℤ q.target_eps
          → (target ≤ℤ base.target_eps) × (base.target_eps ≤ℤ q.target_eps))
      → IsLeast target (adjust fl cpus target p)
  least target p t h base q name e = h base q name (rw (adjust-name target p) at e)

  -- For a target from 1 to 4,000,000 GetProfileForEPS takes the least listed profile that suffices.
  pub get_profile_for_eps-IsLeast :
      (target : ℤ)
      → pos 0 <ℤ target
      → target ≤ℤ pos 4_000_000
      → Holds (IsLeast target) (get_profile_for_eps fl cpus target)
  unfolding get_profile
  get_profile_for_eps-IsLeast target t h =
      get_profile_for_eps_cases (Holds (IsLeast target)) target
        (λ a. least target profile_100k t (λ base q name e k l. ground arith))
        (λ a b. least target profile_500k t (λ base q name e k l. ground arith))
        (λ a b. least target profile_1m t (λ base q name e k l. ground arith))
        (λ a b. least target profile_2m t (λ base q name e k l. ground arith))
        (λ a b. least target profile_4m t (λ base q name e k l. ground arith))
        (λ a. absurd (omega arith))

  module _ (ieee : IsIeee fl) where
    adjust-workers :
        (target : ℤ) (p : EpsProfile)
        → pos 0 ≤ℤ target
        → target ≤ℤ p.target_eps
        → pos 1 ≤ℤ p.worker_count
        → p.worker_count ≤ℤ pos 200
        → p.target_eps ≤ℤ pos 4_000_000
        → (pos 1 ≤ℤ (adjust fl cpus target p).worker_count)
          × ((adjust fl cpus target p).worker_count ≤ℤ p.worker_count)
    unfolding adjust max_int
    adjust-workers target p t h low high k =
        ground (arith, ieee.scale_le p.worker_count target p.target_eps)

    -- With IEEE rounding and a processor, a target of at least 0 gets 1 to 200 workers.
    pub get_profile_for_eps-workers :
        (target : ℤ)
        → 0 < cpus
        → pos 0 ≤ℤ target
        → Holds
            (λ p. (pos 1 ≤ℤ p.worker_count) × (p.worker_count ≤ℤ pos 200))
            (get_profile_for_eps fl cpus target)
    get_profile_for_eps-workers target c t =
        get_profile_for_eps_cases
          (Holds (λ p. (pos 1 ≤ℤ p.worker_count) × (p.worker_count ≤ℤ pos 200))) target
          (λ h. omega (arith, adjust-workers target profile_100k t h))
          (λ _ h. omega (arith, adjust-workers target profile_500k t h))
          (λ _ h. omega (arith, adjust-workers target profile_1m t h))
          (λ _ h. omega (arith, adjust-workers target profile_2m t h))
          (λ _ h. omega (arith, adjust-workers target profile_4m t h))
          (λ _.
            unfold custom_for_eps in omega (arith, calculate_worker_count_bounds cpus target c t))
