-- ===== src/App/Measuring.antt =====
-- The collector and the settings of the Go runtime from the construction of the application of
-- cmd/main.go to the end of its Start.
use log_generator.App.{
  App, AppConfig, Construction, assemble, crashed_in_make, made, new_log_generator, profile_of,
  unknown,
}
use log_generator.App.Running.{
  after_initialize, after_open, after_pool_start, open_dashboard, start_optimization,
}
use log_generator.Config.Optimizer.{
  MemoryOptimizer, Runtime, default_optimization_config, new_memory_optimizer,
}
use log_generator.Config.Profiles.{EpsProfile, ProfileError}
use log_generator.Float.{Float64}
use log_generator.Metrics.{new_metrics_collector}
use log_generator.Monitor.Dashboard.{
  Dashboard, DashboardOutcome, dashboard_done, dashboard_idle, dashboard_panicked,
  dashboard_running, start_dashboard,
}
use log_generator.Pool.Initialize.{
  InitOutcome, divided_by_zero, initialized, pool_running, worker_failed,
}
use log_generator.Pool.Running.{
  PoolOutcome, already_started, crashed, done, not_started, start_pool, stuck,
}
use log_generator.Pool.State.{Pool, new_worker_pool_with_profile}
use log_generator.Prelude.{Option, false, if◌then◌else◌, none, refl, some, ℕ, ◌≡◌}
use log_generator.Prelude.Int.{ℤ}
use log_generator.Prelude.Result.{Result, err, ok}

-- The same collector and settings, and it runs or does not.
abbrev pub IsSame : {F H M : Type 0} → App F H M → App F H M → Type 0
IsSame a b = (b.collector ≡ a.collector) × (b.runtime ≡ a.runtime) × (b.is_running ≡ a.is_running)

module _ {F H M : Type 0} where
  -- After the start of the optimizer and the collector, Start changes none of these.
  open_dashboard-IsSame :
      (o : Option (Dashboard M)) (a : App F H M) → IsSame a (open_dashboard o a).0
  unfolding open_dashboard
  open_dashboard-IsSame none a = (refl, refl, refl)
  open_dashboard-IsSame (some d) a = opened (start_dashboard d)
    where
      opened : (r : Dashboard M × DashboardOutcome) → IsSame a (after_open r a).0
      opened (e, dashboard_done) = unfold after_open in (refl, refl, refl)
      opened (e, dashboard_running) = unfold after_open in (refl, refl, refl)
      opened (e, dashboard_idle) = unfold after_open in (refl, refl, refl)
      opened (e, dashboard_panicked) = unfold after_open in (refl, refl, refl)

  after_pool_start-IsSame : (o : PoolOutcome) (a : App F H M) → IsSame a (after_pool_start o a).0
  unfolding after_pool_start
  after_pool_start-IsSame done a = open_dashboard-IsSame a.dashboard a
  after_pool_start-IsSame already_started a = (refl, refl, refl)
  after_pool_start-IsSame not_started a = (refl, refl, refl)
  after_pool_start-IsSame crashed a = (refl, refl, refl)
  after_pool_start-IsSame stuck a = (refl, refl, refl)

  pub after_initialize-IsSame :
      (now : ℤ) (o : InitOutcome) (a : App F H M) → IsSame a (after_initialize now o a).0
  unfolding after_initialize
  after_initialize-IsSame now initialized a =
      let (q, outcome) = start_pool now a.pool in
      after_pool_start-IsSame outcome (record a { pool = q })
  after_initialize-IsSame now pool_running a = (refl, refl, refl)
  after_initialize-IsSame now divided_by_zero a = (refl, refl, refl)
  after_initialize-IsSame now (worker_failed i e) a = (refl, refl, refl)

  pub optimization-collector :
      (o : Option MemoryOptimizer) (a : App F H M)
      → (start_optimization o a).collector ≡ a.collector
  unfolding start_optimization
  optimization-collector none a = refl
  optimization-collector (some o) a = refl

-- An application that was made does not run, and has a new collector, and a new optimizer with the
-- default configuration if the flags ask for it.
abbrev pub HasNew : {F H M : Type 0} → Float64 F → ℕ → ℤ → AppConfig → Construction F H M → Type 0
HasNew fl cpus now c (made a) =
    (a.is_running ≡ false)
    × (a.collector ≡ new_metrics_collector fl now)
    × (a.optimizer ≡ (
        if c.enable_optimization
        then some (new_memory_optimizer cpus (some (default_optimization_config cpus)))
        else none))
HasNew fl cpus now c (unknown e) = Unit {0}
HasNew fl cpus now c crashed_in_make = Unit {0}

module _ {F : Type 0} (H M : Type 0) (fl : Float64 F) where
  assemble-HasNew :
      (cpus : ℕ) (now : ℤ) (c : AppConfig) (p : EpsProfile) (r : Option (Pool F) × Runtime)
      → HasNew {H = H} {M = M} fl cpus now c (assemble fl cpus now c p r)
  unfolding assemble
  assemble-HasNew cpus now c p (none, rt) = tt
  assemble-HasNew cpus now c p (some q, rt) = (refl, refl, refl)

  pub new_log_generator-HasNew :
      (cpus : ℕ) (now : ℤ) (c : AppConfig) (rt : Runtime)
      → HasNew {H = H} {M = M} fl cpus now c (new_log_generator fl cpus now c rt)
  unfolding new_log_generator
  new_log_generator-HasNew cpus now c rt = by_profile (profile_of cpus c)
    where
      by_profile :
          (r : Result ProfileError EpsProfile)
          → let n : Construction F H M = elim r [
            | err e ↦ unknown e
            | ok p ↦
                assemble fl cpus now c p (new_worker_pool_with_profile fl now c.target_host p rt)
          ] in
            HasNew fl cpus now c n
      by_profile (err e) = tt
      by_profile (ok p) =
          assemble-HasNew cpus now c p (new_worker_pool_with_profile fl now c.target_host p rt)
