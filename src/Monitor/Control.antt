-- ===== src/Monitor/Control.antt =====
-- The state of the control server in internal/monitor/control_server.go, and its handlers. A handler
-- runs under the server's mutex, so that each is one step; HTTP and JSON are not modelled. A handler
-- that panics leaves the state as it is at that point, and net/http goes on.
use log_generator.Config.Optimizer.{
  MemoryOptimizer, Runtime, default_optimization_config, new_memory_optimizer,
}
use log_generator.Config.Profiles.{EpsProfile, ProfileError, get_profile, gib}
use log_generator.Config.Profiles.Custom.{calculate_custom_profile}
use log_generator.Float.{Float64}
use log_generator.Metrics.{Collector, new_metrics_collector}
use log_generator.Pool.Initialize.{InitOutcome}
use log_generator.Pool.State.{Pool}
use log_generator.Prelude.{
  Bool, List, Option, String, [], false, if◌then◌else◌, none, not, some, str_eq, true, ℕ, ◌&&◌,
  ◌||◌, ◌∷◌,
}
use log_generator.Prelude.Int.{leb_ℤ, ltb_ℤ, mul64, pos, quot, ℤ}
use log_generator.Prelude.Result.{Result, err, ok}

-- GeneratorConfig
pub record GeneratorConfig : Type 0 where
  pub target_host : String
  pub profile : String
  pub target_eps : ℤ
  pub duration : ℤ
  pub enable_dashboard : Bool
  pub enable_optimization : Bool
  pub worker_count : ℤ
  pub batch_size : ℤ
  pub send_interval : ℤ
  pub memory_limit_gb : ℤ
  pub gc_percent : ℤ
  pub log_formats : List String
  pub hostname_prefix : String
  pub service_types : List String

-- getDefaultConfig
unfoldable pub default_config : GeneratorConfig
default_config = record {
  target_host = "127.0.0.1";
  profile = "4m";
  target_eps = pos 4_000_000;
  duration = pos 0;
  enable_dashboard = true;
  enable_optimization = true;
  worker_count = pos 40;
  batch_size = pos 200;
  send_interval = pos 50;
  memory_limit_gb = pos 12;
  gc_percent = pos 200;
  log_formats = "syslog" ∷ "apache" ∷ "nginx" ∷ [];
  hostname_prefix = "server";
  service_types = "systemd" ∷ "kernel" ∷ "sshd" ∷ "nginx" ∷ "apache" ∷ [];
}

pub data ConfigError : Type 0 where
  bad_target bad_workers bad_memory : ConfigError

-- The checks of validateConfig for a configuration without a known profile.
unfoldable pub check_ranges : GeneratorConfig → Result ConfigError GeneratorConfig
check_ranges c =
    if leb_ℤ c.target_eps (pos 0) || ltb_ℤ (pos 10_000_000) c.target_eps
    then err bad_target
    else if leb_ℤ c.worker_count (pos 0) || ltb_ℤ (pos 200) c.worker_count
    then err bad_workers
    else if leb_ℤ c.memory_limit_gb (pos 0) || ltb_ℤ (pos 64) c.memory_limit_gb
    then err bad_memory
    else ok c

-- validateConfig; the configuration it was given may be changed.
unfoldable pub validate_config : GeneratorConfig → Result ConfigError GeneratorConfig
validate_config c =
    if not (str_eq c.profile "") && not (str_eq c.profile "custom")
    then elim (get_profile c.profile) [
      | ok p ↦ ok (record c { target_eps = p.target_eps; worker_count = p.worker_count })
      | err e ↦ check_ranges c
    ]
    else check_ranges c

-- ControlServer, with the settings of the Go runtime
pub record Control (F H : Type 0) : Type 0 where
  pub collector : Collector F H
  pub worker_pool : Option (Pool F)
  pub optimizer : Option MemoryOptimizer
  pub is_running : Bool
  pub config : GeneratorConfig
  pub runtime : Runtime

-- How initializeGenerator ends.
pub data InitResult : Type 0 where
  generator_ready make_panicked : InitResult
  no_profile : ProfileError → InitResult
  pool_failed : InitOutcome → InitResult

-- How stopGenerator ends.
pub data StopResult : Type 0 where
  generator_stopped pool_refused stop_panicked stop_hung : StopResult

-- What a handler answers, or the panic or endless wait in it.
pub data Reply : Type 0 where
  started stopped restarted saved generator_running generator_idle : Reply
  parse_failed handler_panicked handler_hung stop_failed start_failed : Reply
  invalid : ConfigError → Reply
  init_failed : InitResult → Reply
  config_is : GeneratorConfig → Reply

-- What handleStart reads from the body of a POST.
pub record StartRequest : Type 0 where
  pub profile : String
  pub target_host : String
  pub target_eps : ℤ

unfoldable pub apply_request : StartRequest → GeneratorConfig → GeneratorConfig
apply_request r c = record c {
  profile = if str_eq r.profile "" then c.profile else r.profile;
  target_host = if str_eq r.target_host "" then c.target_host else r.target_host;
  target_eps = if ltb_ℤ (pos 0) r.target_eps then r.target_eps else c.target_eps;
}

-- The profile that initializeGenerator uses, on a machine with `cpus` processors.
unfoldable pub chosen_profile : ℕ → GeneratorConfig → Result ProfileError EpsProfile
chosen_profile cpus c =
    if str_eq c.profile "custom"
    then ok (calculate_custom_profile cpus c.target_eps)
    else get_profile c.profile

-- The settings of the profile in the configuration.
unfoldable pub apply_to_config : EpsProfile → GeneratorConfig → GeneratorConfig
apply_to_config p c = record c {
  target_eps = p.target_eps;
  worker_count = p.worker_count;
  batch_size = p.batch_size;
  send_interval = p.ticker_interval;
  memory_limit_gb = quot p.memory_limit (pos gib);
  gc_percent = p.gogc;
}

-- `if Profile == "" { Profile = "4m" }`
unfoldable pub named_profile : GeneratorConfig → GeneratorConfig
named_profile c = record c { profile = if str_eq c.profile "" then "4m" else c.profile }

-- The optimizer that initializeGenerator makes of the configuration, before its Start.
unfoldable pub optimizer_of : ℕ → GeneratorConfig → MemoryOptimizer
optimizer_of cpus c = new_memory_optimizer cpus (
    some (record (default_optimization_config cpus) {
      memory_limit_mb = mul64 c.memory_limit_gb (pos 1024);
      gc_target_percent = c.gc_percent;
    }))

module _ {F H : Type 0} (fl : Float64 F) where
  -- NewControlServer
  unfoldable pub new_control_server : ℤ → Runtime → Control F H
  new_control_server now rt = record {
    collector = new_metrics_collector fl now;
    worker_pool = none;
    optimizer = none;
    is_running = false;
    config = default_config;
    runtime = rt;
  }
