-- ===== src/Monitor/Handlers.antt =====
-- The handlers of the control server in internal/monitor/control_server.go that change its state, and
-- the functions that build, start and stop the generator for them.
use log_generator.Config.Optimizer.{
  MemoryOptimizer, Runtime, initialize_optimizer, start_optimizer, stop_optimizer,
}
use log_generator.Config.Profiles.{EpsProfile, ProfileError}
use log_generator.Float.{Float64}
use log_generator.Metrics.Collect.{set_collector_target}
use log_generator.Metrics.Lifecycle.{start_collector, stop_collector}
use log_generator.Monitor.Control.{
  Control, GeneratorConfig, InitResult, Reply, StartRequest, StopResult, apply_request,
  apply_to_config, chosen_profile, config_is, generator_idle, generator_ready, generator_running,
  generator_stopped, handler_hung, handler_panicked, init_failed, invalid, make_panicked,
  named_profile, no_profile, optimizer_of, parse_failed, pool_failed, pool_refused, restarted,
  saved, start_failed, started, stop_failed, stop_hung, stop_panicked, stopped, validate_config,
}
use log_generator.Pool.Initialize.{
  InitOutcome, divided_by_zero, initialize, initialized, pool_running, worker_failed,
}
use log_generator.Pool.Running.{
  PoolOutcome, already_started, crashed, done, not_started, start_pool, stop_pool, stuck,
}
use log_generator.Pool.State.{Pool, new_worker_pool_with_profile}
use log_generator.Prelude.{Bool, Option, false, if◌then◌else◌, none, some, true, ℕ}
use log_generator.Prelude.Int.{ℤ}
use log_generator.Prelude.Result.{Result, err, ok}
use log_generator.Worker.State.{Network}

-- What initializeGenerator does last, by how Initialize of the pool ended.
unfoldable pub finish_init : {F H : Type 0} → InitOutcome → Control F H → Control F H × InitResult
finish_init initialized cs =
    (record cs { collector = start_collector cs.collector }, generator_ready)
finish_init pool_running cs = (cs, pool_failed pool_running)
finish_init divided_by_zero cs = (cs, pool_failed divided_by_zero)
finish_init (worker_failed i e) cs = (cs, pool_failed (worker_failed i e))

-- A division by zero and a make of a negative size are panics of the handler.
unfoldable pub init_reply : InitResult → Reply
init_reply generator_ready = started
init_reply make_panicked = handler_panicked
init_reply (no_profile e) = init_failed (no_profile e)
init_reply (pool_failed initialized) = init_failed (pool_failed initialized)
init_reply (pool_failed divided_by_zero) = handler_panicked
init_reply (pool_failed pool_running) = init_failed (pool_failed pool_running)
init_reply (pool_failed (worker_failed i e)) = init_failed (pool_failed (worker_failed i e))

unfoldable pub stop_result : PoolOutcome → StopResult
stop_result done = generator_stopped
stop_result already_started = pool_refused
stop_result not_started = pool_refused
stop_result crashed = stop_panicked
stop_result stuck = stop_hung

module _ {F H : Type 0} where
  -- The part of initializeGenerator up to the pool: the configuration and the optimizer.
  unfoldable pub prepare : ℕ → EpsProfile → Control F H → Control F H
  prepare cpus p cs =
      let c = apply_to_config p cs.config in
      let o = optimizer_of cpus c in
      if c.enable_optimization
      then record cs {
        config = c;
        optimizer = some (start_optimizer o);
        runtime = initialize_optimizer o cs.runtime;
      }
      else record cs { config = c }

  -- The part of initializeGenerator from the pool on. `none` is the panic of make.
  unfoldable pub build_pool :
      Float64 F
      → (ℕ → Network)
      → ℤ
      → Option (Pool F) × Runtime
      → Control F H
      → Control F H × InitResult
  build_pool fl net now (none, rt) cs = (record cs { runtime = rt }, make_panicked)
  build_pool fl net now (some pool, rt) cs =
      let (q, outcome) = initialize fl net now pool in
      finish_init outcome (record cs {
        runtime = rt;
        worker_pool = some q;
        collector = set_collector_target cs.config.target_eps cs.collector;
      })

  -- initializeGenerator with a profile, or with the error of GetProfile
  unfoldable pub initialize_with :
      Float64 F
      → ℕ
      → (ℕ → Network)
      → ℤ
      → Result ProfileError EpsProfile
      → Control F H
      → Control F H × InitResult
  initialize_with fl cpus net now (err e) cs = (cs, no_profile e)
  initialize_with fl cpus net now (ok p) cs =
      let v = prepare cpus p cs in
      build_pool fl net now (new_worker_pool_with_profile fl now v.config.target_host p v.runtime) v

  -- initializeGenerator
  unfoldable pub initialize_generator :
      Float64 F → ℕ → (ℕ → Network) → ℤ → Control F H → Control F H × InitResult
  initialize_generator fl cpus net now cs =
      let c = named_profile cs.config in
      initialize_with fl cpus net now (chosen_profile cpus c) (record cs { config = c })

  -- startGenerator: refused without a pool, or by the pool
  unfoldable pub start_generator : ℤ → Option (Pool F) → Control F H → Control F H × Bool
  start_generator now none cs = (cs, false)
  start_generator now (some p) cs =
      let (q, outcome) = start_pool now p in
      (
        record cs { worker_pool = some q },
        elim outcome [
          | done ↦ true
          | already_started ↦ false
          | not_started ↦ false
          | crashed ↦ false
          | stuck ↦ false
        ],
      )

  -- initializeGenerator and startGenerator, as handleStart and handleRestart call them
  unfoldable pub after_init : ℤ → Control F H × InitResult → Reply → Control F H × Reply
  after_init now (cs, generator_ready) reply =
      let (v, is_started) = start_generator now cs.worker_pool cs in
      if is_started then (record v { is_running = true }, reply) else (v, start_failed)
  after_init now (cs, make_panicked) reply = (cs, init_reply make_panicked)
  after_init now (cs, no_profile e) reply = (cs, init_reply (no_profile e))
  after_init now (cs, pool_failed o) reply = (cs, init_reply (pool_failed o))

  -- handleStart, with the request that a POST carries, if it can be read
  unfoldable pub handle_start :
      Float64 F → ℕ → (ℕ → Network) → ℤ → Option StartRequest → Control F H → Control F H × Reply
  handle_start fl cpus net now request cs =
      let v = record cs {
        config = elim request [ none ↦ cs.config | some r ↦ apply_request r cs.config ];
      } in
      if cs.is_running
      then (cs, generator_running)
      else after_init now (initialize_generator fl cpus net now v) started

  -- The rest of stopGenerator after the pool has stopped.
  unfoldable pub stop_rest : Option (MemoryOptimizer) → Control F H → Control F H × Bool
  stop_rest none cs = (record cs { collector = stop_collector cs.collector }, true)
  stop_rest (some o) cs =
      let v = record cs { collector = stop_collector cs.collector } in
      elim (stop_optimizer o) [ none ↦ (v, false) | some p ↦ (record v { optimizer = none }, true) ]

  -- The rest of stopGenerator, by how the pool's Stop ended.
  unfoldable pub stop_after_pool : StopResult → Control F H → Control F H × StopResult
  stop_after_pool stop_panicked cs = (cs, stop_panicked)
  stop_after_pool stop_hung cs = (cs, stop_hung)
  stop_after_pool generator_stopped cs =
      let (v, fine) = stop_rest cs.optimizer (record cs { worker_pool = none }) in
      (v, if fine then generator_stopped else stop_panicked)
  stop_after_pool pool_refused cs =
      let (v, fine) = stop_rest cs.optimizer (record cs { worker_pool = none }) in
      (v, if fine then pool_refused else stop_panicked)

  -- stopGenerator
  unfoldable pub stop_generator : Option (Pool F) → Control F H → Control F H × StopResult
  stop_generator none cs = stop_after_pool generator_stopped cs
  stop_generator (some p) cs =
      let (q, outcome) = stop_pool p in
      stop_after_pool (stop_result outcome) (record cs { worker_pool = some q })

  -- handleStop
  unfoldable pub stop_reply : Control F H × StopResult → Control F H × Reply
  stop_reply (cs, generator_stopped) = (record cs { is_running = false }, stopped)
  stop_reply (cs, pool_refused) = (cs, stop_failed)
  stop_reply (cs, stop_panicked) = (cs, handler_panicked)
  stop_reply (cs, stop_hung) = (cs, handler_hung)

  unfoldable pub handle_stop : Control F H → Control F H × Reply
  handle_stop cs =
      if cs.is_running then stop_reply (stop_generator cs.worker_pool cs) else (cs, generator_idle)

  -- handleRestart after its stop: an error of it is dropped, a panic is not.
  unfoldable pub restart_after :
      Float64 F → ℕ → (ℕ → Network) → ℤ → Control F H × StopResult → Control F H × Reply
  restart_after fl cpus net now (cs, stop_panicked) = (cs, handler_panicked)
  restart_after fl cpus net now (cs, stop_hung) = (cs, handler_hung)
  restart_after fl cpus net now (cs, generator_stopped) =
      after_init now (initialize_generator fl cpus net now (record cs { is_running = false }))
        restarted
  restart_after fl cpus net now (cs, pool_refused) =
      after_init now (initialize_generator fl cpus net now (record cs { is_running = false }))
        restarted

  -- handleRestart
  unfoldable pub handle_restart :
      Float64 F → ℕ → (ℕ → Network) → ℤ → Control F H → Control F H × Reply
  handle_restart fl cpus net now cs =
      if cs.is_running
      then restart_after fl cpus net now (stop_generator cs.worker_pool cs)
      else after_init now (initialize_generator fl cpus net now cs) restarted

  -- handleConfig of a GET, and of a POST or PUT with what its body holds
  unfoldable pub get_config : Control F H → Control F H × Reply
  get_config cs = (cs, config_is cs.config)

  unfoldable pub put_config : Option GeneratorConfig → Control F H → Control F H × Reply
  put_config none cs = (cs, parse_failed)
  put_config (some c) cs = elim (validate_config c) [
    | err e ↦ (cs, invalid e)
    | ok d ↦ (record cs { config = d }, saved)
  ]

  -- Stop of the server, before its HTTP server is closed: a failure of stopGenerator is dropped, and
  -- a panic or an endless wait is not survived.
  unfoldable pub stop_server : Control F H → Control F H × StopResult
  stop_server cs =
      let (v, result) = stop_generator cs.worker_pool cs in
      if cs.is_running then (record v { is_running = false }, result) else (cs, generator_stopped)
