-- ===== src/Monitor/Starting.antt =====
-- When handleStart of internal/monitor/control_server.go starts the generator.
use log_generator.Config.Optimizer.{Runtime}
use log_generator.Config.Profiles.{EpsProfile}
use log_generator.Float.{Float64}
use log_generator.Metrics.Collect.{set_collector_target}
use log_generator.Metrics.Lifecycle.{IsCollector, start-IsCollector}
use log_generator.Monitor.Control.{
  Control, GeneratorConfig, InitResult, Reply, StartRequest, apply_request, apply_to_config,
  chosen_profile, generator_ready, make_panicked, named_profile, no_profile, pool_failed, started,
}
use log_generator.Monitor.Handlers.{
  after_init, build_pool, finish_init, handle_start, initialize_generator, initialize_with, prepare,
  start_generator,
}
use log_generator.Monitor.Invariant.{IsControl, IsPrepared, initialize_generator-IsPrepared}
use log_generator.Monitor.Requests.{reconfigured}
use log_generator.Monitor.Service.{start_generator-live}
use log_generator.Pool.Initialize.{
  InitOutcome, divided_by_zero, initialize, initialized, limited_count, pool_running, worker_failed,
}
use log_generator.Pool.Live.{IsIdlePool}
use log_generator.Pool.Numbering.{IsUp, initialize-IsWorker}
use log_generator.Pool.Running.{start_pool, start_workers}
use log_generator.Pool.State.{Pool, apply_profile, make_pool, new_worker_pool_with_profile}
use log_generator.Prelude.{
  Holds, List, Option, String, [], ap, arith, false, if_ind, length, none, refl, some, suc, true, ℕ,
  ◌∙◌, ◌∷◌, ◌≡◌,
}
use log_generator.Prelude.Int.{eqb_ℤ, ltb_ℤ, pos, rounds, ℤ, ◌≤ℤ◌}
use log_generator.Prelude.Result.{ok}
use log_generator.Worker.Batch.Delivery.{answer}
use log_generator.Worker.State.{Network, Worker}

pub length-start_workers :
    {F : Type 0} (ws : List (Worker F)) → length (start_workers ws) ≡ length ws
unfolding start_workers
length-start_workers [] = refl
length-start_workers (w ∷ ws) = ap suc (length-start_workers ws)

pub some_count :
    (p : EpsProfile) → pos 1 ≤ℤ p.worker_count → eqb_ℤ (limited_count p) (pos 0) ≡ false
unfolding limited_count
some_count p h = ground arith

pub new_pool-made :
    {F : Type 0} (fl : Float64 F) (now : ℤ) (host : String) (p : EpsProfile) (rt : Runtime)
    → pos 1 ≤ℤ p.worker_count
    → new_worker_pool_with_profile fl now host p rt
      ≡ (some (make_pool fl now host p false), apply_profile p rt)
unfolding new_worker_pool_with_profile
new_pool-made fl now host p rt h =
    let e : ltb_ℤ p.worker_count (pos 0) ≡ false = ground arith in rw e refl

-- The configuration that handleStart uses for a request.
abbrev pub requested : Option StartRequest → GeneratorConfig → GeneratorConfig
requested none c = named_profile c
requested (some r) c = named_profile (apply_request r c)

module _ {F H : Type 0} where
  -- A generator with this many workers that is to be started.
  record IsReady (n : ℕ) (r : Control F H × InitResult) : Type 0 where
    ready : r.1 ≡ generator_ready
    sized : Holds (λ (q : Pool F). length q.workers ≡ n) r.0.worker_pool
    collects : r.0.collector.is_collecting ≡ true

  -- A generator that runs with this many workers.
  pub record IsUpWith (n : ℕ) (v : Control F H) : Type 0 where
    pub running : v.is_running ≡ true
    pub workers : Holds (λ (q : Pool F). length q.workers ≡ n) v.worker_pool
    pub measuring : v.collector.is_collecting ≡ true

  start_generator-sized :
      (now : ℤ) (n : ℕ) (o : Option (Pool F)) (cs : Control F H)
      → Holds IsIdlePool o
      → Holds (λ (q : Pool F). length q.workers ≡ n) o
      → Holds (λ (q : Pool F). length q.workers ≡ n) (start_generator now o cs).0.worker_pool
  unfolding start_generator start_pool
  start_generator-sized now n none cs h k = elim h [ ]
  start_generator-sized now n (some p) cs h k = rw h.0 (length-start_workers p.workers ∙ k)

  after_init-IsUpWith :
      (now : ℤ) (n : ℕ) (r : Control F H × InitResult) (reply : Reply)
      → IsPrepared r
      → IsReady n r
      → let (v, answer) = after_init now r reply in (answer ≡ reply) × IsUpWith n v
  unfolding after_init
  after_init-IsUpWith now n (cs, generator_ready) reply h k =
      let idle = h.startable refl in
      let (on, live, c, o) = start_generator-live now cs.worker_pool cs idle in
      simp on (
        refl,
        record {
          running = refl;
          workers = start_generator-sized now n cs.worker_pool cs idle k.sized;
          measuring = rw c k.collects;
        },
      )
  after_init-IsUpWith now n (cs, make_panicked) reply h k = absurd (let f : ⊥ = cc k.ready in f)
  after_init-IsUpWith now n (cs, no_profile e) reply h k = absurd (let f : ⊥ = cc k.ready in f)
  after_init-IsUpWith now n (cs, pool_failed o) reply h k = absurd (let f : ⊥ = cc k.ready in f)

  module _ (fl : Float64 F) (cpus : ℕ) (net : ℕ → Network) (now : ℤ) where
    finish_init-IsReady :
        (n : ℕ) (o : InitOutcome) (cs : Control F H)
        → o ≡ initialized
        → IsCollector cs.collector
        → Holds (λ (q : Pool F). length q.workers ≡ n) cs.worker_pool
        → IsReady n (finish_init o cs)
    unfolding finish_init
    finish_init-IsReady n initialized cs e c h = record {
      ready = refl;
      sized = h;
      collects = (start-IsCollector cs.collector c).1;
    }
    finish_init-IsReady n pool_running cs e c h = absurd (let f : ⊥ = cc in f)
    finish_init-IsReady n divided_by_zero cs e c h = absurd (let f : ⊥ = cc in f)
    finish_init-IsReady n (worker_failed i x) cs e c h = absurd (let f : ⊥ = cc in f)

    build_pool-IsReady :
        (host : String) (p : EpsProfile) (rt : Runtime) (cs : Control F H)
        → pos 1 ≤ℤ p.worker_count
        → ((j : ℕ) → IsUp (net j))
        → IsCollector cs.collector
        → IsReady
            (rounds (limited_count p))
            (build_pool fl net now (some (make_pool fl now host p false), rt) cs)
    unfolding build_pool set_collector_target make_pool
    build_pool-IsReady host p rt cs h up c =
        let pool = make_pool fl now host p false in
        let (n, _, _, outcome) = initialize-IsWorker fl net now pool up refl refl in
        finish_init-IsReady (rounds (limited_count p)) (initialize fl net now pool).1 _
          (rw (some_count p h) at outcome) (record { one_loop = c.one_loop; unclosed = c.unclosed })
          n

    initialize_with-IsReady :
        (p : EpsProfile) (cs : Control F H)
        → pos 1 ≤ℤ p.worker_count
        → ((j : ℕ) → IsUp (net j))
        → IsCollector (prepare cpus p cs).collector
        → IsReady (rounds (limited_count p)) (initialize_with fl cpus net now (ok p) cs)
    unfolding initialize_with
    initialize_with-IsReady p cs h up c =
        let v = prepare cpus p cs in
        rw (new_pool-made fl now v.config.target_host p v.runtime h)
          (build_pool-IsReady v.config.target_host p (apply_profile p v.runtime) v h up c)

    prepare-collector :
        (p : EpsProfile) (cs : Control F H) → (prepare cpus p cs).collector ≡ cs.collector
    unfolding prepare
    prepare-collector p cs =
        if_ind (λ (v : Control F H). v.collector ≡ cs.collector)
          (apply_to_config p cs.config).enable_optimization (λ _. refl) (λ _. refl)

    generator-IsReady :
        (cs : Control F H) (p : EpsProfile)
        → IsCollector cs.collector
        → ((j : ℕ) → IsUp (net j))
        → chosen_profile cpus (named_profile cs.config) ≡ ok p
        → pos 1 ≤ℤ p.worker_count
        → IsReady (rounds (limited_count p)) (initialize_generator fl cpus net now cs)
    unfolding initialize_generator
    generator-IsReady cs p c up e h =
        let v = record cs { config = named_profile cs.config } in
        rw e (initialize_with-IsReady p v h up (rw (prepare-collector p v) c))

    restarted-IsUpWith :
        (c : GeneratorConfig) (cs : Control F H) (p : EpsProfile)
        → IsControl cs
        → cs.is_running ≡ false
        → ((j : ℕ) → IsUp (net j))
        → chosen_profile cpus (named_profile c) ≡ ok p
        → pos 1 ≤ℤ p.worker_count
        → let r = initialize_generator fl cpus net now (record cs { config = c }) in
          let (v, answer) = after_init now r started in
          (answer ≡ started) × IsUpWith (rounds (limited_count p)) v
    restarted-IsUpWith c cs p h idle up e some_worker =
        let v = record cs { config = c } in
        after_init-IsUpWith now (rounds (limited_count p)) (initialize_generator fl cpus net now v)
          started (initialize_generator-IsPrepared fl cpus net now v (reconfigured c cs h) idle)
          (generator-IsReady v p h.collecting up e some_worker)

    -- On a network that grants the workers what they ask for, handleStart starts a generator that
    -- does not run, if the profile of the configuration with the request in it is known and has a
    -- worker: it answers so, and leaves a pool with the profile's workers, at most 200, and a
    -- collector that collects.
    pub handle_start-IsUpWith :
        (request : Option StartRequest) (cs : Control F H) (p : EpsProfile)
        → IsControl cs
        → cs.is_running ≡ false
        → ((j : ℕ) → IsUp (net j))
        → chosen_profile cpus (requested request cs.config) ≡ ok p
        → pos 1 ≤ℤ p.worker_count
        → let (v, answer) = handle_start fl cpus net now request cs in
          (answer ≡ started) × IsUpWith (rounds (limited_count p)) v
    unfolding handle_start
    handle_start-IsUpWith request cs p h idle up e some_worker =
        if_ind
          (λ (q : Control F H × Reply). (q.1 ≡ started) × IsUpWith (rounds (limited_count p)) q.0)
          cs.is_running (λ on. absurd (let f : ⊥ = cc in f)) (λ _. by_request request e)
      where
        by_request :
            (request : Option StartRequest)
            → chosen_profile cpus (requested request cs.config) ≡ ok p
            → let c : GeneratorConfig = elim request [
              | none ↦ cs.config
              | some r ↦ apply_request r cs.config
            ] in
              let r = initialize_generator fl cpus net now (record cs { config = c }) in
              let (v, answer) = after_init now r started in
              (answer ≡ started) × IsUpWith (rounds (limited_count p)) v
        by_request none e = restarted-IsUpWith cs.config cs p h idle up e some_worker
        by_request (some r) e =
            restarted-IsUpWith (apply_request r cs.config) cs p h idle up e some_worker
