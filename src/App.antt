-- ===== src/App.antt =====
-- cmd/main.go: the command line application. It owns a pool, a collector, and as its flags say a
-- dashboard and an optimizer of the Go runtime. Here are its flags, its state and its construction.
pub mod Running
pub mod Main
pub mod Live
pub mod Starting
pub mod Cycle
pub mod Stopping
pub mod Program
pub mod Report
pub mod Measuring
pub mod Readings
pub mod Settings
pub mod Totals
pub mod Refusing
use log_generator.Config.Optimizer.{
  MemoryOptimizer, Runtime, default_optimization_config, new_memory_optimizer,
}
use log_generator.Config.Profiles.{EpsProfile, ProfileError, get_profile}
use log_generator.Config.Profiles.Custom.{calculate_custom_profile}
use log_generator.Float.{Float64}
use log_generator.Metrics.{Collector, new_metrics_collector}
use log_generator.Monitor.Dashboard.{Dashboard, new_dashboard, set_dashboard_profile}
use log_generator.Pool.State.{Pool, new_worker_pool_with_profile}
use log_generator.Prelude.{
  Bool, Option, String, false, if◌then◌else◌, none, some, str_eq, true, ℕ, ◌&&◌,
}
use log_generator.Prelude.Int.{eqb_ℤ, pos, ℤ}
use log_generator.Prelude.Result.{Result, err, ok}
use log_generator.Worker.State.{zero_time}

-- AppConfig
pub record AppConfig : Type 0 where
  pub target_host : String
  pub dashboard_port : ℤ
  pub test_duration_min : ℤ
  pub enable_dashboard : Bool
  pub enable_optimization : Bool
  pub log_level : String
  pub profile : String
  pub target_eps : ℤ

-- What parseFlags fills in for the flags that are not given.
unfoldable pub default_flags : AppConfig
default_flags = record {
  target_host = "127.0.0.1";
  dashboard_port = pos 8080;
  test_duration_min = pos 0;
  enable_dashboard = true;
  enable_optimization = true;
  log_level = "info";
  profile = "4m";
  target_eps = pos 0;
}

-- The last test of parseFlags; `none` is an exit with the code 1.
unfoldable pub check_flags : AppConfig → Option AppConfig
check_flags c = if str_eq c.profile "custom" && eqb_ℤ c.target_eps (pos 0) then none else some c

-- LogGenerator, with the settings of the Go runtime. `M` is a message of the dashboard.
pub record App (F H M : Type 0) : Type 0 where
  pub config : AppConfig
  pub pool : Pool F
  pub collector : Collector F H
  pub dashboard : Option (Dashboard M)
  pub optimizer : Option MemoryOptimizer
  pub cancelled : Bool  -- ctx
  pub start_time : ℤ
  pub is_running : Bool
  pub runtime : Runtime

-- What NewLogGenerator returns, or the panic of make at a negative number of workers.
pub data Construction (F H M : Type 0) : Type 0 where
  made : App F H M → Construction F H M
  unknown : ProfileError → Construction F H M
  crashed_in_make : Construction F H M

-- The profile that NewLogGenerator uses.
unfoldable pub profile_of : ℕ → AppConfig → Result ProfileError EpsProfile
profile_of cpus c =
    if str_eq c.profile "custom"
    then ok (calculate_custom_profile cpus c.target_eps)
    else get_profile c.profile

module _ {F H M : Type 0} where
  -- NewLogGenerator from the pool on
  unfoldable pub assemble :
      Float64 F → ℕ → ℤ → AppConfig → EpsProfile → Option (Pool F) × Runtime → Construction F H M
  assemble fl cpus now c p (none, rt) = crashed_in_make
  assemble fl cpus now c p (some pool, rt) = made (record {
    config = c;
    pool = pool;
    collector = new_metrics_collector fl now;
    dashboard =
        if c.enable_dashboard
        then some (set_dashboard_profile p.name p.target_eps (new_dashboard c.dashboard_port))
        else none;
    optimizer =
        if c.enable_optimization
        then some (new_memory_optimizer cpus (some (default_optimization_config cpus)))
        else none;
    cancelled = false;
    start_time = zero_time;
    is_running = false;
    runtime = rt;
  })

  -- NewLogGenerator
  unfoldable pub new_log_generator : Float64 F → ℕ → ℤ → AppConfig → Runtime → Construction F H M
  new_log_generator fl cpus now c rt = elim (profile_of cpus c) [
    | err e ↦ unknown e
    | ok p ↦ assemble fl cpus now c p (new_worker_pool_with_profile fl now c.target_host p rt)
  ]
