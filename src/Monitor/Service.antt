-- ===== src/Monitor/Service.antt =====
-- The control server of internal/monitor/control_server.go over its life: what its handlers answer,
-- and what any sequence of requests leaves.
use log_generator.Config.Optimizer.{MemoryOptimizer, stop_optimizer-active}
use log_generator.Metrics.Lifecycle.{stop_collector}
use log_generator.Monitor.Control.{
  Control, InitResult, Reply, generator_ready, generator_stopped, handler_hung, make_panicked,
  no_profile, pool_failed, start_failed, stop_failed,
}
use log_generator.Monitor.Handlers.{
  after_init, init_reply, start_generator, stop_after_pool, stop_generator, stop_rest, stop_result,
}
use log_generator.Monitor.Invariant.{IsControl, IsPrepared, IsStoppable}
use log_generator.Pool.Initialize.{divided_by_zero, initialized, pool_running, worker_failed}
use log_generator.Pool.Live.{IsIdlePool, IsLivePool, start_pool-IsLivePool, stop_pool-live}
use log_generator.Pool.State.{Pool}
use log_generator.Prelude.{Holds, Option, false, none, refl, some, true, ◌≡◌}
use log_generator.Prelude.Int.{ℤ}
use log_generator.Worker.Batch.Delivery.{answer}

-- Not a Stop that fails or waits for ever, nor a Start that a ready pool refuses.
abbrev pub IsFine : Reply → Type 0
IsFine handler_hung = ⊥
IsFine stop_failed = ⊥
IsFine start_failed = ⊥
IsFine r = Unit {0}

init_reply-IsFine : (r : InitResult) → IsFine (init_reply r)
unfolding init_reply
init_reply-IsFine generator_ready = tt
init_reply-IsFine make_panicked = tt
init_reply-IsFine (no_profile e) = tt
init_reply-IsFine (pool_failed initialized) = tt
init_reply-IsFine (pool_failed divided_by_zero) = tt
init_reply-IsFine (pool_failed pool_running) = tt
init_reply-IsFine (pool_failed (worker_failed i e)) = tt

module _ {F H : Type 0} where
  -- A state that keeps the invariant, with a reply that is fine.
  pub record IsServed (r : Control F H × Reply) : Type 0 where
    pub kept : IsControl r.0
    pub fine : IsFine r.1

  pub start_generator-live :
      (now : ℤ) (o : Option (Pool F)) (cs : Control F H)
      → Holds IsIdlePool o
      → let (v, is_started) = start_generator now o cs in
        (is_started ≡ true)
        × Holds IsLivePool v.worker_pool
        × (v.collector ≡ cs.collector)
        × (v.optimizer ≡ cs.optimizer)
  unfolding start_generator
  start_generator-live now none cs h = elim h [ ]
  start_generator-live now (some p) cs h =
      let (live, e) = start_pool-IsLivePool now p h in
      (rw (start_generator, e) refl, live, refl, refl)

  idle_control : (cs : Control F H) (i : InitResult) → IsPrepared (cs, i) → IsControl cs
  idle_control cs i h = record {
    live = λ on. absurd (let f : ⊥ = cc in f);
    collecting = h.in_order;
    stoppable = h.optional;
  }

  pub after_init-ready :
      (now : ℤ) (cs : Control F H) (reply : Reply)
      → IsPrepared (cs, generator_ready)
      → let (v, answer) = after_init now (cs, generator_ready) reply in
        IsControl v × (answer ≡ reply) × (v.is_running ≡ true)
  unfolding after_init
  after_init-ready now cs reply h =
      let (on, live, c, o) = start_generator-live now cs.worker_pool cs (h.startable refl) in
      simp on (
        record { live = λ _. live; collecting = rw c h.in_order; stoppable = rw o h.optional },
        refl,
        refl,
      )

  pub after_init-IsServed :
      (now : ℤ) (r : Control F H × InitResult) (reply : Reply)
      → IsPrepared r
      → IsFine reply
      → IsServed (after_init now r reply)
  unfolding after_init
  after_init-IsServed now (cs, generator_ready) reply h f =
      let (k, e, on) = after_init-ready now cs reply h in record { kept = k; fine = rw e f }
  after_init-IsServed now (cs, make_panicked) reply h f = record {
    kept = idle_control cs make_panicked h;
    fine = init_reply-IsFine make_panicked;
  }
  after_init-IsServed now (cs, no_profile e) reply h f = record {
    kept = idle_control cs (no_profile e) h;
    fine = init_reply-IsFine (no_profile e);
  }
  after_init-IsServed now (cs, pool_failed o) reply h f = record {
    kept = idle_control cs (pool_failed o) h;
    fine = init_reply-IsFine (pool_failed o);
  }

  -- What a stop leaves of a state.
  pub record IsOff (cs v : Control F H) : Type 0 where
    pub no_pool : v.worker_pool ≡ none
    pub no_optimizer : v.optimizer ≡ none
    pub collector_stopped : v.collector ≡ stop_collector cs.collector
    pub config_kept : v.config ≡ cs.config

  stop_rest-IsOff :
      (o : Option MemoryOptimizer) (cs : Control F H)
      → IsStoppable o
      → cs.optimizer ≡ o
      → cs.worker_pool ≡ none
      → let (v, is_fine) = stop_rest o cs in IsOff cs v × (is_fine ≡ true)
  unfolding stop_rest
  stop_rest-IsOff none cs h e n =
      (record { no_pool = n; no_optimizer = e; collector_stopped = refl; config_kept = refl }, refl)
  stop_rest-IsOff (some o) cs h e n =
      rw (stop_rest, stop_optimizer-active o h.0 h.1)
        (
          record { no_pool = n; no_optimizer = refl; collector_stopped = refl; config_kept = refl },
          refl,
        )

  pub stop_generator-IsOff :
      (o : Option (Pool F)) (cs : Control F H)
      → IsControl cs
      → Holds IsLivePool o
      → let (v, result) = stop_generator o cs in IsOff cs v × (result ≡ generator_stopped)
  unfolding stop_generator stop_after_pool stop_result
  stop_generator-IsOff none cs h k = elim k [ ]
  stop_generator-IsOff (some p) cs h k =
      let stopped_pool = record cs { worker_pool = none } in
      let (off, fine) = stop_rest-IsOff cs.optimizer stopped_pool h.stoppable refl refl in
      rw (stop_generator, stop_pool-live p k)
        (
          record {
            no_pool = off.no_pool;
            no_optimizer = off.no_optimizer;
            collector_stopped = off.collector_stopped;
            config_kept = off.config_kept;
          },
          rw fine refl,
        )

  -- What handleStop answers, and what it leaves.
  pub record IsStopped (cs v : Control F H) : Type 0 where
    pub not_running : v.is_running ≡ false
    pub no_pool : v.worker_pool ≡ none
    pub no_optimizer : v.optimizer ≡ none
    pub not_collecting : v.collector.is_collecting ≡ false
    pub same_config : v.config ≡ cs.config
