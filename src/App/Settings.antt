-- ===== src/App/Settings.antt =====
-- The settings of the Go runtime that the application of cmd/main.go ends up with.
use mathlib.Core.Path.{subst}
use log_generator.App.{App, AppConfig, made, new_log_generator}
use log_generator.App.Measuring.{HasNew, after_initialize-IsSame, new_log_generator-HasNew}
use log_generator.App.Running.{begin, start_app, start_optimization, start_workers_of}
use log_generator.Config.Optimizer.{
  MemoryOptimizer, Runtime, default_optimization_config, initialize_optimizer, new_memory_optimizer,
}
use log_generator.Float.{Float64}
use log_generator.Pool.Initialize.{initialize}
use log_generator.Prelude.{false, refl, some, true, ℕ, ◌∙◌, ◌≡◌}
use log_generator.Prelude.Int.{mul64, pos, wrap64, ℤ, ◌*ℤ◌}
use log_generator.Worker.State.{Network}

module _ {F H M : Type 0} (fl : Float64 F) where
  start_app-runtime_lem :
      (net : ℕ → Network) (now : ℤ) (a : App F H M)
      → a.is_running ≡ false
      → (start_app fl net now a).0.runtime ≡ (begin now a).runtime
  unfolding start_app start_workers_of
  start_app-runtime_lem net now a off =
      let b = begin now a in
      let r = initialize fl net now b.pool in
      simp off (after_initialize-IsSame now r.1 (record b { pool = r.0 })).1

  begin-runtime :
      (now : ℤ) (a : App F H M) (o : MemoryOptimizer)
      → a.optimizer ≡ some o
      → (begin now a).runtime ≡ initialize_optimizer o a.runtime
  unfolding begin start_optimization
  begin-runtime now a o e = rw (begin, e) refl

  -- With the optimizer on, as it is without a flag, Start ends with a memory limit of 12 GiB and a
  -- garbage collection at 200 per cent, whatever the profile says, whether Start succeeds or fails; so
  -- the limits that the profile set at the construction are gone.
  pub start_app-runtime :
      (cpus : ℕ) (net : ℕ → Network) (now : ℤ) (c : AppConfig) (rt : Runtime) (a : App F H M)
      → new_log_generator fl cpus now c rt ≡ made a
      → c.enable_optimization ≡ true
      → let s = (start_app fl net now a).0.runtime in
        (s.memory_limit ≡ pos 12_884_901_888) × (s.gc_percent ≡ pos 200)
  unfolding initialize_optimizer new_memory_optimizer default_optimization_config mul64 wrap64 ◌*ℤ◌
  start_app-runtime cpus net now c rt a e on =
      let (idle, _, o) =
        subst (HasNew fl cpus now c) e (new_log_generator-HasNew H M fl cpus now c rt) in
      let optimizer = new_memory_optimizer cpus (some (default_optimization_config cpus)) in
      let there : a.optimizer ≡ some optimizer = o ∙ rw on refl in
      rw (start_app-runtime_lem net now a idle, begin-runtime now a optimizer there) (refl, refl)
