-- ===== src/Witnesses/App.antt =====
-- Theorems on the application of cmd/main.go at concrete inputs.
use log_generator.App.{
  App, AppConfig, assemble, check_flags, default_flags, made, new_log_generator, profile_of,
}
use log_generator.App.Live.{IsAppUp, IsStartable}
use log_generator.App.Main.{exits, panics, run_main}
use log_generator.App.Program.{run_main-exits, run_main-rejects}
use log_generator.App.Readings.{final_report-target}
use log_generator.App.Refusing.{start_app-refuses}
use log_generator.App.Report.{achieved, final_report, grade_of}
use log_generator.App.Running.{
  AppEvent, app_done, app_event, app_events, app_idle, app_running, measures, sockets, start_app,
  stop_app, updates, works,
}
use log_generator.App.Settings.{start_app-runtime}
use log_generator.App.Starting.{start_app-IsAppUp}
use log_generator.App.Stopping.{IsEnded, stop_app-IsEnded}
use log_generator.App.Totals.{final_report-total}
use log_generator.Config.Optimizer.{default_optimization_config, new_memory_optimizer}
use log_generator.Config.Profiles.{ProfileError, get_profile, profile_100k}
use log_generator.Float.{float_zero}
use log_generator.Float.Fixed.{millionths}
use log_generator.Metrics.{new_metrics_collector}
use log_generator.Monitor.Dashboard.{new_dashboard, set_dashboard_profile}
use log_generator.Monitor.Hub.{connects}
use log_generator.Monitor.Update.{rated}
use log_generator.Pool.Initialize.{limited_count}
use log_generator.Pool.Numbering.{IsUp}
use log_generator.Pool.State.{
  apply_profile, deref, get_metrics, make_pool, new_worker_pool_with_profile,
}
use log_generator.Prelude.{List, [], arith, false, length, refl, some, true, ℕ, ◌∷◌, ◌≡◌, ◌≤◌}
use log_generator.Prelude.Int.{negsuc, pos, rounds, total, ℤ, ◌≤ℤ◌}
use log_generator.Prelude.Result.{err}
use log_generator.Witnesses.Data.{open_network, reported_pool, sample_round, sample_runtime}
use log_generator.Worker.Eps.{collect_metrics}
use log_generator.Worker.Loops.Passes.{precise_pass}
use log_generator.Worker.State.{Network, initial_worker, zero_time}

-- The flags `-profile 100k`.
abbrev sample_flags : AppConfig
sample_flags = record default_flags { profile = "100k" }

-- A custom profile with a negative rate, and one without a rate.
abbrev negative_flags : AppConfig
negative_flags = record default_flags { profile = "custom"; target_eps = negsuc 19_999 }

network-IsUp : (j : ℕ) → IsUp (open_network j)
network-IsUp j = (refl, refl, refl)

-- A pass of the second worker, two ticks of the program and a client of the dashboard.
abbrev some_events : List (AppEvent ℤ ℕ)
some_events =
    works 1 (precise_pass (pos 100) sample_round)
    ∷ updates
    ∷ sockets (connects 1)
    ∷ measures (pos 1_000_000_000)
    ∷ updates
    ∷ []

abbrev sample_app : App ℤ ℕ ℕ
sample_app = record {
  config = sample_flags;
  pool = make_pool millionths (pos 0) "127.0.0.1" profile_100k false;
  collector = new_metrics_collector millionths (pos 0);
  dashboard =
      some (
        set_dashboard_profile profile_100k.name profile_100k.target_eps (new_dashboard (pos 8080)));
  optimizer = some (new_memory_optimizer 8 (some (default_optimization_config 8)));
  cancelled = false;
  start_time = zero_time;
  is_running = false;
  runtime = apply_profile profile_100k sample_runtime;
}

sample_made :
    new_log_generator {H = ℕ} {M = ℕ} millionths 8 (pos 0) sample_flags sample_runtime
    ≡ made sample_app
unfolding new_log_generator profile_of get_profile default_flags new_worker_pool_with_profile
    assemble
sample_made = refl

sample-IsStartable : IsStartable profile_100k sample_app
unfolding make_pool new_metrics_collector set_dashboard_profile new_dashboard new_memory_optimizer
sample-IsStartable = record {
  idle = refl;
  profile = refl;
  idle_pool = refl;
  no_workers_yet = refl;
  collector = record { one_loop = refl; unclosed = λ _. refl };
  dashboard = (refl, refl);
  optimizer = refl;
}

abbrev up_app : App ℤ ℕ ℕ
up_app = (start_app millionths open_network (pos 0) sample_app).0

run_main-exits_example :
    run_main ℕ ℕ millionths 8 open_network (pos 0) sample_flags sample_runtime some_events ≡ exits 0
unfolding check_flags profile_of default_flags get_profile
run_main-exits_example =
    run_main-exits ℕ ℕ millionths 8 open_network (pos 0) sample_flags sample_runtime profile_100k
      some_events refl refl (omega arith) network-IsUp

run_main-rejects_example :
    let exit =
      run_main ℕ ℕ millionths 8 open_network (pos 0) negative_flags sample_runtime some_events in
    (negative_flags.profile ≡ "custom" → negative_flags.target_eps ≡ pos 0 → exit ≡ exits 1)
    × ((e : ProfileError) → profile_of 8 negative_flags ≡ err e → exit ≡ exits 1)
    × (negative_flags.profile ≡ "custom"
        → (n : ℕ) → 9999 ≤ n
        → negative_flags.target_eps ≡ negsuc n
        → exit ≡ panics)
run_main-rejects_example =
    run_main-rejects ℕ ℕ millionths 8 open_network (pos 0) negative_flags sample_runtime some_events

start_app-IsAppUp_example :
    let (b, end) = start_app millionths open_network (pos 0) sample_app in
    IsAppUp b
    × (end ≡ app_done)
    × (length b.pool.workers ≡ rounds (limited_count profile_100k))
    × ((start_app millionths open_network (pos 7) b).1 ≡ app_running)
start_app-IsAppUp_example =
    start_app-IsAppUp millionths open_network (pos 0) profile_100k (pos 7) sample_app
      sample-IsStartable network-IsUp (omega arith)

up-IsAppUp : IsAppUp up_app
up-IsAppUp =
    (start_app-IsAppUp millionths open_network (pos 0) profile_100k (pos 7) sample_app
      sample-IsStartable network-IsUp (omega arith)).0

stop_app-IsEnded_example :
    let (b, end) = stop_app up_app in
    IsEnded up_app b × (end ≡ app_done) × ((stop_app b).1 ≡ app_idle)
stop_app-IsEnded_example = stop_app-IsEnded up_app up-IsAppUp

final_report-target_example :
    let b = app_events millionths some_events up_app in
    let r = final_report millionths (pos 2_000_000_000) b in
    (r.achievement ≡ achieved millionths r.current_eps (pos 4_000_000))
    × (r.grade ≡ grade_of millionths (achieved millionths r.current_eps (pos 4_000_000)))
    × (b.collector.current_metrics.cpu_usage_percent ≡ float_zero millionths)
    × (b.collector.current_metrics.memory_usage_mb ≡ float_zero millionths)
final_report-target_example =
    final_report-target millionths 8 open_network (pos 0) (pos 2_000_000_000) sample_flags
      sample_runtime sample_app some_events sample_made

start_app-runtime_example :
    let s = (start_app millionths open_network (pos 0) sample_app).0.runtime in
    (s.memory_limit ≡ pos 12_884_901_888) × (s.gc_percent ≡ pos 200)
unfolding default_flags
start_app-runtime_example =
    start_app-runtime millionths 8 open_network (pos 0) sample_flags sample_runtime sample_app
      sample_made refl

-- An application whose second worker has a rate of 0.
abbrev reported_app : App ℤ ℕ ℕ
reported_app = record sample_app { pool = reported_pool }

final_report-total_example :
    let reports = (get_metrics reported_pool).worker_metrics in
    let r = final_report millionths (pos 9) (app_event millionths updates reported_app) in
    (r.total_sent ≡ pos (total (λ r. r.1.total_sent) (rated reports)))
    × (r.active_workers ≡ pos (length (rated reports)))
    × (r.total_sent ≤ℤ pos (total (λ r. r.1.total_sent) reports))
unfolding get_metrics deref collect_metrics initial_worker
final_report-total_example =
    final_report-total millionths (pos 9) reported_app
      ((omega arith, omega arith), ((omega arith, omega arith), tt)) (omega arith) (omega arith)
      (omega arith)

-- A network where no host has an address
abbrev no_network : ℕ → Network
no_network i = record { resolves = false; dials = false; buffers = false }

start_app-refuses_example :
    let b = (start_app millionths no_network (pos 0) sample_app).0 in
    (b.is_running ≡ true) × (start_app millionths open_network (pos 1) b ≡ (b, app_running))
start_app-refuses_example =
    start_app-refuses millionths no_network open_network (pos 0) (pos 1) sample_app
