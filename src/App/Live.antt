-- ===== src/App/Live.antt =====
-- The application of cmd/main.go from its construction to where it runs.
use log_generator.App.{
  App, AppConfig, Construction, assemble, crashed_in_make, made, new_log_generator, profile_of,
  unknown,
}
use log_generator.Config.Optimizer.{MemoryOptimizer, Runtime, new_memory_optimizer}
use log_generator.Config.Profiles.{EpsProfile}
use log_generator.Float.{Float64}
use log_generator.Metrics.{new_metrics_collector}
use log_generator.Metrics.Lifecycle.{IsCollector}
use log_generator.Monitor.Dashboard.{Dashboard, new_dashboard, set_dashboard_profile}
use log_generator.Monitor.Invariant.{IsStoppable}
use log_generator.Monitor.Starting.{new_pool-made}
use log_generator.Pool.Live.{IsLivePool}
use log_generator.Pool.State.{apply_profile, make_pool}
use log_generator.Prelude.{Option, [], false, if_ind, none, refl, some, true, ℕ, ◌≡◌}
use log_generator.Prelude.Int.{pos, ℤ, ◌≤ℤ◌}
use log_generator.Prelude.Result.{ok}

-- A dashboard that can be started, or stopped, if there is one.
abbrev pub IsUnopened : {M : Type 0} → Option (Dashboard M) → Type 0
IsUnopened none = Unit {0}
IsUnopened (some d) = (d.is_running ≡ false) × (d.stop_closed ≡ false)

abbrev pub IsOpen : {M : Type 0} → Option (Dashboard M) → Type 0
IsOpen none = Unit {0}
IsOpen (some d) = (d.is_running ≡ true) × (d.stop_closed ≡ false)

-- An optimizer that was never stopped.
abbrev pub IsUnstopped : Option MemoryOptimizer → Type 0
IsUnstopped none = Unit {0}
IsUnstopped (some o) = o.stop_closed ≡ false

-- An application that can be started with the workers of a profile.
pub record IsStartable {F H M : Type 0} (p : EpsProfile) (a : App F H M) : Type 0 where
  pub idle : a.is_running ≡ false
  pub profile : a.pool.profile ≡ p
  pub idle_pool : a.pool.is_running ≡ false
  pub no_workers_yet : a.pool.workers ≡ []
  pub collector : IsCollector a.collector
  pub dashboard : IsUnopened a.dashboard
  pub optimizer : IsUnstopped a.optimizer

-- An application that runs, and that Stop can stop.
pub record IsAppUp {F H M : Type 0} (a : App F H M) : Type 0 where
  pub running : a.is_running ≡ true
  pub pool : IsLivePool a.pool
  pub collector : IsCollector a.collector
  pub collects : a.collector.is_collecting ≡ true
  pub dashboard : IsOpen a.dashboard
  pub optimizer : IsStoppable a.optimizer

-- The construction succeeds, with an application that can be started.
abbrev pub IsMade : {F H M : Type 0} → EpsProfile → Construction F H M → Type 0
IsMade p (made a) = IsStartable p a
IsMade p (unknown e) = ⊥
IsMade p crashed_in_make = ⊥

module _ {F : Type 0} (H M : Type 0) (fl : Float64 F) where
  pub assemble-IsMade :
      (cpus : ℕ) (now : ℤ) (c : AppConfig) (p : EpsProfile) (rt : Runtime)
      → IsMade p (
          assemble {H = H} {M = M} fl cpus now c p
            (some (make_pool fl now c.target_host p false), rt))
  unfolding assemble make_pool new_metrics_collector set_dashboard_profile new_dashboard
      new_memory_optimizer
  assemble-IsMade cpus now c p rt = record {
    idle = refl;
    profile = refl;
    idle_pool = refl;
    no_workers_yet = refl;
    collector = record { one_loop = refl; unclosed = λ _. refl };
    dashboard = if_ind IsUnopened c.enable_dashboard (λ _. (refl, refl)) (λ _. tt);
    optimizer = if_ind IsUnstopped c.enable_optimization (λ _. refl) (λ _. tt);
  }

  pub new_log_generator-IsMade :
      (cpus : ℕ) (now : ℤ) (c : AppConfig) (p : EpsProfile) (rt : Runtime)
      → profile_of cpus c ≡ ok p
      → pos 1 ≤ℤ p.worker_count
      → let n : Construction F H M = new_log_generator fl cpus now c rt in IsMade p n
  unfolding new_log_generator
  new_log_generator-IsMade cpus now c p rt e h =
      rw (new_log_generator, e, new_pool-made fl now c.target_host p rt h)
        (assemble-IsMade cpus now c p (apply_profile p rt))
