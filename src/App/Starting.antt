-- ===== src/App/Starting.antt =====
-- Start of the application of cmd/main.go on a network that grants what the workers ask for.
use log_generator.App.{App}
use log_generator.App.Live.{IsAppUp, IsStartable, IsUnopened, IsUnstopped}
use log_generator.App.Running.{
  after_initialize, after_open, after_pool_start, app_done, app_running, begin, open_dashboard,
  start_app, start_optimization, start_workers_of,
}
use log_generator.Config.Optimizer.{MemoryOptimizer, start_optimizer-active}
use log_generator.Config.Profiles.{EpsProfile}
use log_generator.Float.{Float64}
use log_generator.Metrics.Lifecycle.{IsCollector, start-IsCollector}
use log_generator.Monitor.Dashboard.{Dashboard, dashboard_done, start_dashboard}
use log_generator.Monitor.Invariant.{IsStoppable}
use log_generator.Monitor.Starting.{length-start_workers, some_count}
use log_generator.Pool.Fresh.{initialize-IsFresh}
use log_generator.Pool.Initialize.{
  InitOutcome, divided_by_zero, initialize, initialized, limited_count, pool_running, worker_failed,
}
use log_generator.Pool.Live.{IsIdlePool, IsLivePool, start_pool-IsLivePool}
use log_generator.Pool.Numbering.{IsUp, initialize-IsWorker}
use log_generator.Pool.Running.{start_pool}
use log_generator.Pool.State.{Pool}
use log_generator.Prelude.{
  Bool, Option, [], ap, false, if◌then◌else◌, length, none, refl, some, true, ℕ, ◌+◌, ◌∙◌, ◌≡◌,
}
use log_generator.Prelude.Int.{pos, rounds, ℤ, ◌≤ℤ◌}
use log_generator.Worker.State.{Network}

length-start_pool :
    {F : Type 0} (now : ℤ) (q : Pool F)
    → q.is_running ≡ false
    → length (start_pool now q).0.workers ≡ length q.workers
unfolding start_pool
length-start_pool now q idle = simp idle (length-start_workers q.workers)

module _ {M : Type 0} where
  start_dashboard-idle :
      (d : Dashboard M)
      → d.is_running ≡ false
      → start_dashboard d
        ≡ (record d { serving = true; tasks = d.tasks + 2; is_running = true }, dashboard_done)
  unfolding start_dashboard
  start_dashboard-idle d off = simp off refl

module _ {F H M : Type 0} where
  start_optimization-kept :
      (o : Option MemoryOptimizer) (a : App F H M)
      → a.optimizer ≡ o
      → IsUnstopped o
      → let b = start_optimization o a in
        (b.pool ≡ a.pool)
        × (b.collector ≡ a.collector)
        × (b.dashboard ≡ a.dashboard)
        × (b.is_running ≡ a.is_running)
        × IsStoppable b.optimizer
  unfolding start_optimization
  start_optimization-kept none a e h = (refl, refl, refl, refl, rw e tt)
  start_optimization-kept (some o) a e h =
      let (on, unclosed) = start_optimizer-active o in (refl, refl, refl, refl, (on, unclosed ∙ h))

  -- An application between the start of its collector and that of its workers.
  record IsBegun (p : EpsProfile) (a : App F H M) : Type 0 where
    running : a.is_running ≡ true
    profile : a.pool.profile ≡ p
    idle_pool : a.pool.is_running ≡ false
    no_workers_yet : a.pool.workers ≡ []
    collector : IsCollector a.collector
    collects : a.collector.is_collecting ≡ true
    dashboard : IsUnopened a.dashboard
    optimizer : IsStoppable a.optimizer

  begin-IsBegun :
      (now : ℤ) (p : EpsProfile) (a : App F H M) → IsStartable p a → IsBegun p (begin now a)
  unfolding begin
  begin-IsBegun now p a h =
      let b = record a { start_time = now; is_running = true } in
      let (pool, collector, dashboard, running, stoppable) =
        start_optimization-kept a.optimizer b refl h.optimizer in
      let (k, on) =
        start-IsCollector (start_optimization a.optimizer b).collector (rw collector h.collector) in
      record {
        running = running;
        profile = ap (λ q. q.profile) pool ∙ h.profile;
        idle_pool = ap (λ q. q.is_running) pool ∙ h.idle_pool;
        no_workers_yet = ap (λ q. q.workers) pool ∙ h.no_workers_yet;
        collector = k;
        collects = on;
        dashboard = rw dashboard h.dashboard;
        optimizer = stoppable;
      }

  open_dashboard-IsAppUp :
      (o : Option (Dashboard M)) (a : App F H M)
      → a.dashboard ≡ o
      → IsUnopened o
      → a.is_running ≡ true
      → IsLivePool a.pool
      → IsCollector a.collector
      → a.collector.is_collecting ≡ true
      → IsStoppable a.optimizer
      → let (b, outcome) = open_dashboard o a in
        IsAppUp b × (outcome ≡ app_done) × (b.pool ≡ a.pool)
  unfolding open_dashboard after_open
  open_dashboard-IsAppUp none a e d on live c collects o = (
    record {
      running = on;
      pool = live;
      collector = c;
      collects = collects;
      dashboard = rw e tt;
      optimizer = o;
    },
    refl,
    refl,
  )
  open_dashboard-IsAppUp (some x) a e d on live c collects o =
      rw (open_dashboard, start_dashboard-idle x d.0)
        (
          record {
            running = on;
            pool = live;
            collector = c;
            collects = collects;
            dashboard = (refl, d.1);
            optimizer = o;
          },
          refl,
          refl,
        )

  -- The rest of Start, of an application whose workers have been made.
  start_ready :
      (now : ℤ) (outcome : InitOutcome) (a : App F H M)
      → outcome ≡ initialized
      → IsIdlePool a.pool
      → a.is_running ≡ true
      → IsCollector a.collector
      → a.collector.is_collecting ≡ true
      → IsUnopened a.dashboard
      → IsStoppable a.optimizer
      → let (b, end) = after_initialize now outcome a in
        IsAppUp b × (end ≡ app_done) × (b.pool ≡ (start_pool now a.pool).0)
  unfolding after_initialize after_pool_start
  start_ready now pool_running a e idle on c collects d o = absurd (let f : ⊥ = cc in f)
  start_ready now divided_by_zero a e idle on c collects d o = absurd (let f : ⊥ = cc in f)
  start_ready now (worker_failed i x) a e idle on c collects d o = absurd (let f : ⊥ = cc in f)
  start_ready now initialized a e idle on c collects d o =
      let (live, f) = start_pool-IsLivePool now a.pool idle in
      let q = (start_pool now a.pool).0 in
      rw (after_initialize, f)
        (open_dashboard-IsAppUp a.dashboard (record a { pool = q }) refl d on live c collects o)

  module _ (fl : Float64 F) (net : ℕ → Network) (now : ℤ) (p : EpsProfile) where
    begun_up :
        (a : App F H M)
        → IsBegun p a
        → ((j : ℕ) → IsUp (net j))
        → pos 1 ≤ℤ p.worker_count
        → let (b, end) = start_workers_of fl net now a in
          IsAppUp b × (end ≡ app_done) × (length b.pool.workers ≡ rounds (limited_count p))
    unfolding start_workers_of
    begun_up a h up some_worker =
        let q = (initialize fl net now a.pool).0 in
        let (n, _, _, o) = initialize-IsWorker fl net now a.pool up h.idle_pool h.no_workers_yet in
        let (fresh, still) = initialize-IsFresh fl net now a.pool (rw h.no_workers_yet tt) in
        let nonzero = some_count a.pool.profile (rw h.profile some_worker) in
        let ready = o ∙ ap (λ (b : Bool). if b then divided_by_zero else initialized) nonzero in
        let (u, e, same) =
          start_ready now (initialize fl net now a.pool).1 (record a { pool = q }) ready
            (still ∙ h.idle_pool, fresh) h.running h.collector h.collects h.dashboard h.optimizer in
        (
          u,
          e,
          ap (λ (x : Pool F). length x.workers) same
              ∙ length-start_pool now q (still ∙ h.idle_pool)
              ∙ n
              ∙ ap (λ x. rounds (limited_count x)) h.profile,
        )

    -- On a network that grants what the workers ask for, Start of an application that was just made
    -- for a profile with a worker succeeds: it runs, with the profile's workers, at most 200, all of
    -- them running, a collector that collects, and where the flags ask for them a dashboard and an
    -- optimizer that run. A second Start is refused.
    pub start_app-IsAppUp :
        (later : ℤ) (a : App F H M)
        → IsStartable p a
        → ((j : ℕ) → IsUp (net j))
        → pos 1 ≤ℤ p.worker_count
        → let (b, end) = start_app fl net now a in
          IsAppUp b
          × (end ≡ app_done)
          × (length b.pool.workers ≡ rounds (limited_count p))
          × ((start_app fl net later b).1 ≡ app_running)
    unfolding start_app
    start_app-IsAppUp later a h up some_worker =
        let (u, e, l) = begun_up (begin now a) (begin-IsBegun now p a h) up some_worker in
        simp (h.idle, u.running) (u, e, l, refl)
