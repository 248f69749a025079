-- ===== src/Monitor/Invariant.antt =====
-- What the handlers of internal/monitor/control_server.go keep true of the server.
use log_generator.Config.Optimizer.{
  MemoryOptimizer, Runtime, new_memory_optimizer, start_optimizer, start_optimizer-active,
}
use log_generator.Config.Profiles.{EpsProfile, ProfileError}
use log_generator.Float.{Float64}
use log_generator.Metrics.{Collector}
use log_generator.Metrics.Collect.{set_collector_target}
use log_generator.Metrics.Lifecycle.{IsCollector, start-IsCollector}
use log_generator.Monitor.Control.{
  Control, GeneratorConfig, InitResult, apply_to_config, chosen_profile, generator_ready,
  named_profile, optimizer_of,
}
use log_generator.Monitor.Handlers.{
  build_pool, finish_init, initialize_generator, initialize_with, prepare,
}
use log_generator.Pool.Fresh.{initialize-IsFresh}
use log_generator.Pool.Initialize.{
  InitOutcome, divided_by_zero, initialize, initialized, pool_running, worker_failed,
}
use log_generator.Pool.Live.{IsIdlePool, IsLivePool}
use log_generator.Pool.State.{Pool, make_pool, new_worker_pool_with_profile}
use log_generator.Prelude.{
  Holds, Option, String, false, if_ind, none, refl, some, true, ℕ, ◌∙◌, ◌≡◌,
}
use log_generator.Prelude.Int.{ltb_ℤ, pos, ℤ}
use log_generator.Prelude.Result.{Result, err, ok}
use log_generator.Worker.State.{Network}

-- An optimizer that the next Stop can stop.
abbrev pub IsStoppable : Option MemoryOptimizer → Type 0
IsStoppable none = Unit {0}
IsStoppable (some o) = (o.is_active ≡ true) × (o.stop_closed ≡ false)

-- The invariant: a generator that runs has a pool that runs, with workers that can be stopped, the
-- collector is in order, and an optimizer that is there can be stopped.
pub record IsControl {F H : Type 0} (cs : Control F H) : Type 0 where
  pub live : cs.is_running ≡ true → Holds IsLivePool cs.worker_pool
  pub collecting : IsCollector cs.collector
  pub stoppable : IsStoppable cs.optimizer

-- What initializeGenerator leaves: a generator that does not run, with a pool to start if it is ready.
pub record IsPrepared {F H : Type 0} (r : Control F H × InitResult) : Type 0 where
  pub idle : r.0.is_running ≡ false
  pub in_order : IsCollector r.0.collector
  pub optional : IsStoppable r.0.optimizer
  pub startable : r.1 ≡ generator_ready → Holds IsIdlePool r.0.worker_pool

optimizer-IsStoppable :
    (cpus : ℕ) (c : GeneratorConfig) → IsStoppable (some (start_optimizer (optimizer_of cpus c)))
unfolding optimizer_of new_memory_optimizer
optimizer-IsStoppable cpus c = start_optimizer-active (optimizer_of cpus c)

abbrev IfSome : {A : Type 0} → (A → Type 0) → Option A → Type 0
IfSome P none = Unit {0}
IfSome P (some a) = P a

new_pool-IsIdle :
    {F : Type 0} (fl : Float64 F) (now : ℤ) (host : String) (profile : EpsProfile) (rt : Runtime)
    → IfSome IsIdlePool (new_worker_pool_with_profile fl now host profile rt).0
unfolding new_worker_pool_with_profile make_pool
new_pool-IsIdle fl now host profile rt =
    if_ind (IfSome IsIdlePool) (ltb_ℤ profile.worker_count (pos 0)) (λ _. tt) (λ _. (refl, tt))

module _ {F H : Type 0} where
  -- The state between the parts of initializeGenerator.
  record IsBetween (cs : Control F H) : Type 0 where
    idle : cs.is_running ≡ false
    in_order : IsCollector cs.collector
    optional : IsStoppable cs.optimizer

  prepare-IsBetween :
      (cpus : ℕ) (p : EpsProfile) (cs : Control F H) → IsBetween cs → IsBetween (prepare cpus p cs)
  unfolding prepare
  prepare-IsBetween cpus p cs h =
      if_ind IsBetween (apply_to_config p cs.config).enable_optimization
        (λ on. record {
          idle = h.idle;
          in_order = h.in_order;
          optional = optimizer-IsStoppable cpus (apply_to_config p cs.config);
        })
        (λ off. record { idle = h.idle; in_order = h.in_order; optional = h.optional })

  finish_init-IsPrepared :
      (o : InitOutcome) (cs : Control F H)
      → IsBetween cs
      → Holds IsIdlePool cs.worker_pool
      → IsPrepared (finish_init o cs)
  unfolding finish_init
  finish_init-IsPrepared initialized cs h k = record {
    idle = h.idle;
    in_order = (start-IsCollector cs.collector h.in_order).0;
    optional = h.optional;
    startable = λ _. k;
  }
  finish_init-IsPrepared pool_running cs h k = record {
    idle = h.idle;
    in_order = h.in_order;
    optional = h.optional;
    startable = λ e. cc;
  }
  finish_init-IsPrepared divided_by_zero cs h k = record {
    idle = h.idle;
    in_order = h.in_order;
    optional = h.optional;
    startable = λ e. cc;
  }
  finish_init-IsPrepared (worker_failed i f) cs h k = record {
    idle = h.idle;
    in_order = h.in_order;
    optional = h.optional;
    startable = λ e. cc;
  }

  retargeted : (t : ℤ) (c : Collector F H) → IsCollector c → IsCollector (set_collector_target t c)
  unfolding set_collector_target
  retargeted t c h = record { one_loop = h.one_loop; unclosed = h.unclosed }

  module _ (fl : Float64 F) (cpus : ℕ) (net : ℕ → Network) (now : ℤ) where
    build_pool-IsPrepared :
        (o : Option (Pool F)) (rt : Runtime) (cs : Control F H)
        → IsBetween cs
        → IfSome IsIdlePool o
        → IsPrepared (build_pool fl net now (o, rt) cs)
    unfolding build_pool
    build_pool-IsPrepared none rt cs h k = record {
      idle = h.idle;
      in_order = h.in_order;
      optional = h.optional;
      startable = λ e. cc;
    }
    build_pool-IsPrepared (some p) rt cs h k =
        let (idle, fresh) = k in
        let (kept, same) = initialize-IsFresh fl net now p fresh in
        finish_init-IsPrepared (initialize fl net now p).1 _
          (record {
            idle = h.idle;
            in_order = retargeted cs.config.target_eps cs.collector h.in_order;
            optional = h.optional;
          })
          (same ∙ idle, kept)

    initialize_with-IsPrepared :
        (r : Result ProfileError EpsProfile) (cs : Control F H)
        → IsBetween cs
        → IsPrepared (initialize_with fl cpus net now r cs)
    unfolding initialize_with
    initialize_with-IsPrepared (err e) cs h = record {
      idle = h.idle;
      in_order = h.in_order;
      optional = h.optional;
      startable = λ e. cc;
    }
    initialize_with-IsPrepared (ok p) cs h =
        let v = prepare cpus p cs in
        let made = new_worker_pool_with_profile fl now v.config.target_host p v.runtime in
        build_pool-IsPrepared made.0 made.1 v (prepare-IsBetween cpus p cs h)
          (new_pool-IsIdle fl now v.config.target_host p v.runtime)

    pub initialize_generator-IsPrepared :
        (cs : Control F H)
        → IsControl cs
        → cs.is_running ≡ false
        → IsPrepared (initialize_generator fl cpus net now cs)
    unfolding initialize_generator
    initialize_generator-IsPrepared cs h idle =
        initialize_with-IsPrepared (chosen_profile cpus (named_profile cs.config)) _
          (record { idle = idle; in_order = h.collecting; optional = h.stoppable })
