-- ===== src/Witnesses/Monitor.antt =====
-- Theorems on the control server of internal/monitor at concrete inputs.
use log_generator.Config.Profiles.{EpsProfile, get_profile, profile_1m}
use log_generator.Float.Fixed.{millionths}
use log_generator.Metrics.{new_metrics_collector}
use log_generator.Monitor.Control.{
  Control, GeneratorConfig, StartRequest, apply_request, check_ranges, chosen_profile,
  default_config, generator_idle, named_profile, new_control_server, started, stopped,
  validate_config,
}
use log_generator.Monitor.Handlers.{handle_restart, handle_start, handle_stop}
use log_generator.Monitor.Invariant.{IsControl}
use log_generator.Monitor.Launch.{Action, Launch, act_all, finished}
use log_generator.Monitor.Launch.Race.{LaunchesNone, early, late, start-races}
use log_generator.Monitor.Machine.{serve_all-IsTold, told_all}
use log_generator.Monitor.Requests.{
  get_request, handle_stop-IsStopped, restart_request, serve, serve_all, start_request,
  stop_request,
}
use log_generator.Monitor.Restarting.{handle_restart-eq, renamed}
use log_generator.Monitor.Sequences.{serve-IsServed, serve_all-IsFine}
use log_generator.Monitor.Service.{IsFine, IsStopped}
use log_generator.Monitor.Starting.{IsUpWith, handle_start-IsUpWith}
use log_generator.Monitor.Status.{
  WorkerRow, get_collected, get_status, get_status-update_tick, get_workers,
}
use log_generator.Monitor.Update.{update_tick}
use log_generator.Monitor.Validation.{IsSound, validate_config-IsSound}
use log_generator.Pool.Initialize.{limited_count}
use log_generator.Pool.Numbering.{IsUp}
use log_generator.Pool.State.{deref, get_metrics, make_pool}
use log_generator.Prelude.{
  All, List, [], arith, false, if◌then◌else◌, keep_if, length, map, none, refl, some, true, ℕ, ◌∷◌,
  ◌≡◌, ◌≢◌,
}
use log_generator.Prelude.Int.{pos, rounds, ℤ, ◌≤ℤ◌}
use log_generator.Prelude.Result.{ok}
use log_generator.Witnesses.Data.{open_network, reported_pool, sample_pool, sample_runtime}
use log_generator.Worker.Batch.Delivery.{answer}
use log_generator.Worker.Eps.{collect_metrics}
use log_generator.Worker.State.{initial_worker}

abbrev sample_server : Control ℤ ℕ
sample_server = new_control_server millionths (pos 0) sample_runtime

server-IsControl : IsControl sample_server
unfolding new_control_server new_metrics_collector
server-IsControl = record {
  live = λ e. cc;
  collecting = record { one_loop = refl; unclosed = λ _. refl };
  stoppable = tt;
}

network-IsUp : (j : ℕ) → IsUp (open_network j)
network-IsUp j = (refl, refl, refl)

serve_all-IsFine_example :
    let rs = start_request (pos 1) none ∷ restart_request (pos 2) ∷ stop_request ∷ [] in
    let server : Control ℤ ℕ = new_control_server millionths (pos 0) sample_runtime in
    let (v, answers) = serve_all millionths 8 open_network rs server in
    All IsFine answers × ((handle_stop v).1 ≡ (if v.is_running then stopped else generator_idle))
serve_all-IsFine_example =
    serve_all-IsFine ℕ millionths 8 open_network (pos 0) sample_runtime
      (start_request (pos 1) none ∷ restart_request (pos 2) ∷ stop_request ∷ [])

-- The server after a start.
abbrev started_server : Control ℤ ℕ
started_server = (serve millionths 8 open_network (start_request (pos 1) none) sample_server).0

handle_stop-IsStopped_example :
    let (v, answer) = handle_stop started_server in
    IsControl v
    × (answer ≡ (if started_server.is_running then stopped else generator_idle))
    × (started_server.is_running ≡ true → IsStopped started_server v)
    × (started_server.is_running ≡ false → v ≡ started_server)
handle_stop-IsStopped_example =
    handle_stop-IsStopped started_server
      (serve-IsServed millionths 8 open_network (start_request (pos 1) none) sample_server
        server-IsControl).kept

abbrev start_of_1m : StartRequest
start_of_1m = record { profile = "1m"; target_host = ""; target_eps = pos 0 }

handle_start-IsUpWith_example :
    let (v, answer) =
      handle_start millionths 8 open_network (pos 1) (some start_of_1m) sample_server in
    (answer ≡ started) × IsUpWith (rounds (limited_count profile_1m)) v
unfolding new_control_server default_config apply_request named_profile chosen_profile get_profile
handle_start-IsUpWith_example =
    handle_start-IsUpWith millionths 8 open_network (pos 1) (some start_of_1m) sample_server
      profile_1m server-IsControl refl network-IsUp refl (omega arith)

abbrev custom_config : GeneratorConfig
custom_config = record default_config {
  profile = "custom";
  target_eps = pos 60_000;
  worker_count = pos 3;
  memory_limit_gb = pos 4;
}

validate_config-IsSound_example :
    IsSound custom_config
    × ((p : EpsProfile)
        → get_profile custom_config.profile ≡ ok p
        → custom_config.profile ≢ "custom"
        → (pos 60_000 ≡ p.target_eps) × (pos 3 ≡ p.worker_count))
    × (custom_config.profile ≡ "custom"
        → (custom_config ≡ custom_config) × (pos 1 ≤ℤ pos 4) × (pos 4 ≤ℤ pos 64))
unfolding validate_config check_ranges default_config
validate_config-IsSound_example = validate_config-IsSound custom_config custom_config refl

abbrev running_server : Control ℤ ℕ
running_server = record sample_server {
  worker_pool = some (record sample_pool { is_running = true });
  is_running = true;
}

running_server-IsControl : IsControl running_server
unfolding new_control_server new_metrics_collector make_pool
running_server-IsControl = record {
  live = λ e. (refl, tt);
  collecting = record { one_loop = refl; unclosed = λ _. refl };
  stoppable = tt;
}

abbrev reported_server : Control ℤ ℕ
reported_server = record sample_server { worker_pool = some reported_pool; is_running = true }

serve_all-IsTold_example :
    let rs =
      start_request (pos 1) none ∷ restart_request (pos 2) ∷ get_request ∷ stop_request ∷ [] in
    let (v, answers) = serve_all millionths 8 open_network rs sample_server in
    v.is_running ≡ told_all answers sample_server.is_running
serve_all-IsTold_example =
    serve_all-IsTold millionths 8 open_network
      (start_request (pos 1) none ∷ restart_request (pos 2) ∷ get_request ∷ stop_request ∷ [])
      sample_server server-IsControl

handle_restart-eq_example :
    let (v, answer) =
      handle_start millionths 8 open_network (pos 2) none (handle_stop running_server).0 in
    handle_restart millionths 8 open_network (pos 2) running_server ≡ (v, renamed answer)
handle_restart-eq_example =
    handle_restart-eq millionths 8 open_network (pos 2) running_server running_server-IsControl

get_status-update_tick_example :
    let v = update_tick millionths reported_server in
    let statuses = (get_status millionths (pos 5) (pos 6) v).worker_statuses in
    ((get_collected v).active_workers ≡ pos (length (keep_if (λ s. s.1) statuses)))
    × ((get_collected v).total_workers ≡ pos (length statuses))
    × (rows : List (ℤ × WorkerRow)) × (get_workers v ≡ some rows)
    × (map (λ r. (r.0, r.1.active)) rows ≡ statuses)
unfolding get_metrics deref collect_metrics initial_worker
get_status-update_tick_example =
    get_status-update_tick millionths (pos 5) (pos 6) reported_server reported_pool refl
      ((omega arith, omega arith), ((omega arith, omega arith), tt)) (omega arith) (omega arith)
      (omega arith)

-- A server between two runs, with the ended loop of the first.
abbrev between : Launch
between = record { is_running = false; starting = false; loops = finished ∷ []; updates = 4 }

start-races_example :
    ((v : Launch) × (act_all (early between) between ≡ some v)
      × (v.is_running ≡ true)
      × ((acts : List Action)
          → LaunchesNone acts
          → (t : Launch) → act_all acts v ≡ some t
          → t.updates ≡ 4))
    × ((w : Launch) × (act_all (late between) between ≡ some w)
        × (w.is_running ≡ true)
        × (w.updates ≡ 5))
start-races_example = start-races between refl refl (refl, tt)
