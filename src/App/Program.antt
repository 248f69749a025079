-- ===== src/App/Program.antt =====
-- The program of cmd/main.go from its flags to its exit.
use log_generator.App.{
  App, AppConfig, Construction, assemble, check_flags, crashed_in_make, made, new_log_generator,
  profile_of, unknown,
}
use log_generator.App.Cycle.{app_events-IsAppUp}
use log_generator.App.Live.{IsAppUp, IsMade, new_log_generator-IsMade}
use log_generator.App.Main.{
  after_construction, after_start, exit_after_stop, exits, panics, run_main,
}
use log_generator.App.Running.{
  AppEvent, AppOutcome, app_done, app_events, app_hung, app_idle, app_panicked, app_running,
  dashboard_refuses, no_workers, pool_refuses, start_app,
}
use log_generator.App.Starting.{start_app-IsAppUp}
use log_generator.App.Stopping.{stop_app-IsEnded}
use log_generator.Config.Optimizer.{Runtime}
use log_generator.Config.Profiles.{EpsProfile, ProfileError}
use log_generator.Config.Profiles.Custom.{
  base_workers, calculate_custom_profile, calculate_worker_count, capped, guaranteed_workers,
  optimal_eps_per_worker,
}
use log_generator.Float.{Float64}
use log_generator.Pool.Numbering.{IsUp}
use log_generator.Pool.State.{apply_profile, new_worker_pool_with_profile}
use log_generator.Prelude.{
  List, Option, String, ap, arith, if_ind, inl, inr, none, refl, some, str_eq, suc, true, ℕ, ◌&&◌,
  ◌*◌, ◌-◌, ◌/◌, ◌∙◌, ◌≡◌, ◌≤◌, ◌⊎◌,
}
use log_generator.Prelude.Int.{eqb_ℤ, ltb_ℤ, negsuc, pos, quot, ℤ, ◌≤ℤ◌}
use log_generator.Prelude.Result.{err, ok}
use log_generator.Worker.State.{Network}

optimal-negative : (n : ℕ) → optimal_eps_per_worker (negsuc n) ≡ pos 10_000
unfolding optimal_eps_per_worker
optimal-negative n = ground arith

quot-negative : (n j : ℕ) → suc n / 10_000 ≡ suc j → quot (negsuc n) (pos 10_000) ≡ negsuc j
unfolding quot
quot-negative n j h = rw h refl

base_workers-negative : (n j : ℕ) → suc n / 10_000 ≡ suc j → base_workers (negsuc n) ≡ negsuc j
unfolding base_workers
base_workers-negative n j h = rw (optimal-negative n, quot-negative n j h) (ground arith)

guaranteed-negative : (n j : ℕ) → guaranteed_workers (negsuc n) (negsuc j) ≡ negsuc j
unfolding guaranteed_workers
guaranteed-negative n j = ground arith

capped-negative : (l j : ℕ) → capped (pos l) (negsuc j) ≡ negsuc j
unfolding capped
capped-negative l j = ground arith

negative_count :
    (cpus n : ℕ) → 9999 ≤ n → ltb_ℤ (calculate_worker_count cpus (negsuc n)) (pos 0) ≡ true
unfolding calculate_worker_count
negative_count cpus n h =
    let j = suc n / 10_000 - 1 in
    rw
      (
        base_workers-negative n j (omega arith),
        guaranteed-negative n j,
        capped-negative (cpus * 10) j,
        capped-negative 200 j,
      )
      (ground arith)

check_flags-cases : (c : AppConfig) → (check_flags c ≡ none) ⊎ (check_flags c ≡ some c)
unfolding check_flags
check_flags-cases c =
    if_ind (λ (o : Option AppConfig). (o ≡ none) ⊎ (o ≡ some c))
      (str_eq c.profile "custom" && eqb_ℤ c.target_eps (pos 0)) (λ _. inl refl) (λ _. inr refl)

check_flags-zero :
    (c : AppConfig) → c.profile ≡ "custom" → c.target_eps ≡ pos 0 → check_flags c ≡ none
unfolding check_flags
check_flags-zero c custom none_set = simp (custom, none_set) refl

check_flags-negative : (c : AppConfig) (n : ℕ) → c.target_eps ≡ negsuc n → check_flags c ≡ some c
unfolding check_flags
check_flags-negative c n e = simp e (ground arith)

profile_of-custom :
    (cpus : ℕ) (c : AppConfig)
    → c.profile ≡ "custom"
    → profile_of cpus c ≡ ok (calculate_custom_profile cpus c.target_eps)
unfolding profile_of
profile_of-custom cpus c custom = simp custom refl

custom_count :
    (cpus : ℕ) (t : ℤ)
    → (calculate_custom_profile cpus t).worker_count ≡ calculate_worker_count cpus t
unfolding calculate_custom_profile
custom_count cpus t = refl

negative_pool :
    {F : Type 0} (fl : Float64 F) (now : ℤ) (host : String) (p : EpsProfile) (rt : Runtime)
    → ltb_ℤ p.worker_count (pos 0) ≡ true
    → new_worker_pool_with_profile fl now host p rt ≡ (none, apply_profile p rt)
unfolding new_worker_pool_with_profile
negative_pool fl now host p rt few = rw (new_worker_pool_with_profile, few) refl

module _ {F : Type 0} (H M : Type 0) (fl : Float64 F) where
  after_start-exits :
      (es : List (AppEvent F M)) (r : App F H M × AppOutcome)
      → IsAppUp r.0
      → r.1 ≡ app_done
      → after_start fl es r ≡ exits 0
  unfolding after_start exit_after_stop
  after_start-exits es (a, app_done) h e =
      let (_, end, _) = stop_app-IsEnded (app_events fl es a) (app_events-IsAppUp fl es a h) in
      rw (after_start, end) refl
  after_start-exits es (a, app_running) h e = cc
  after_start-exits es (a, app_idle) h e = cc
  after_start-exits es (a, app_panicked) h e = cc
  after_start-exits es (a, app_hung) h e = cc
  after_start-exits es (a, pool_refuses) h e = cc
  after_start-exits es (a, dashboard_refuses) h e = cc
  after_start-exits es (a, no_workers o) h e = cc

  after_construction-exits :
      (net : ℕ → Network) (now : ℤ) (p : EpsProfile) (es : List (AppEvent F M))
      (n : Construction F H M)
      → IsMade p n
      → ((j : ℕ) → IsUp (net j))
      → pos 1 ≤ℤ p.worker_count
      → after_construction fl net now es n ≡ exits 0
  unfolding after_construction
  after_construction-exits net now p es (made a) h up some_worker =
      let (u, e, _, _) = start_app-IsAppUp fl net now p now a h up some_worker in
      after_start-exits es (start_app fl net now a) u e
  after_construction-exits net now p es (unknown e) h up some_worker = elim h [ ]
  after_construction-exits net now p es crashed_in_make h up some_worker = elim h [ ]

  -- On a network that grants what the workers ask for, the program ends with the code 0, whatever
  -- passes of the send loops, ticks, reports and web socket events come between its start and its stop,
  -- in whatever order, if its flags pass and name a profile with a worker.
  pub run_main-exits :
      (cpus : ℕ) (net : ℕ → Network) (now : ℤ) (c : AppConfig) (rt : Runtime) (p : EpsProfile)
      (es : List (AppEvent F M))
      → check_flags c ≡ some c
      → profile_of cpus c ≡ ok p
      → pos 1 ≤ℤ p.worker_count
      → ((j : ℕ) → IsUp (net j))
      → run_main H M fl cpus net now c rt es ≡ exits 0
  unfolding run_main
  run_main-exits cpus net now c rt p es f e some_worker up =
      rw (run_main, f)
        (after_construction-exits net now p es (new_log_generator fl cpus now c rt)
          (new_log_generator-IsMade H M fl cpus now c p rt e some_worker) up some_worker)

  negative_made :
      (cpus : ℕ) (now : ℤ) (c : AppConfig) (rt : Runtime)
      → c.profile ≡ "custom"
      → (n : ℕ) → 9999 ≤ n
      → c.target_eps ≡ negsuc n
      → new_log_generator {H = H} {M = M} fl cpus now c rt ≡ crashed_in_make
  unfolding new_log_generator assemble
  negative_made cpus now c rt custom n h e =
      let p = calculate_custom_profile cpus c.target_eps in
      let few : ltb_ℤ p.worker_count (pos 0) ≡ true =
        ap (λ t. ltb_ℤ t (pos 0))
          (custom_count cpus c.target_eps ∙ ap (calculate_worker_count cpus) e)
        ∙ negative_count cpus n h in
      rw
        (
          new_log_generator,
          profile_of-custom cpus c custom,
          negative_pool fl now c.target_host p rt few,
        )
        refl

  -- Where the flags do not make an application, the program ends at once, whatever the network grants:
  -- with the code 1 if the rate of a custom profile is 0 or the profile is not known, but with a panic
  -- if the rate of a custom profile is -10,000 or less.
  pub run_main-rejects :
      (cpus : ℕ) (net : ℕ → Network) (now : ℤ) (c : AppConfig) (rt : Runtime)
      (es : List (AppEvent F M))
      → let exit = run_main H M fl cpus net now c rt es in
        (c.profile ≡ "custom" → c.target_eps ≡ pos 0 → exit ≡ exits 1)
        × ((e : ProfileError) → profile_of cpus c ≡ err e → exit ≡ exits 1)
        × (c.profile ≡ "custom" → (n : ℕ) → 9999 ≤ n → c.target_eps ≡ negsuc n → exit ≡ panics)
  unfolding run_main after_construction new_log_generator
  run_main-rejects cpus net now c rt es = (
    λ custom none_set. rw (run_main, check_flags-zero c custom none_set) refl,
    λ e q. elim (check_flags-cases c) [
      | inl f ↦ rw (run_main, f) refl
      | inr f ↦ rw (run_main, f, new_log_generator, q) refl
    ],
    λ custom n h e.
        rw (run_main, check_flags-negative c n e, negative_made cpus now c rt custom n h e) refl,
  )
