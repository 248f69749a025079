-- ===== src/Pool/State.antt =====
-- The state of a WorkerPool in internal/worker/worker_pool.go, and its construction. The channels
-- and goroutines of a pool are in Pool/Running and Pool/Aggregate.
use log_generator.Config.Optimizer.{Runtime}
use log_generator.Config.Profiles.{EpsProfile, profile_4m}
use log_generator.Float.{Float64}
use log_generator.Prelude.{
  Bool, List, Option, String, [], false, if◌then◌else◌, none, replicate, some, true, ℕ,
}
use log_generator.Prelude.Int.{ltb_ℤ, pos, ℤ}
use log_generator.Worker.Eps.{WorkerMetrics}
use log_generator.Worker.State.{Worker, zero_time}

abbrev pub first_port : ℤ
first_port = pos 10514

abbrev pub max_workers : ℤ
max_workers = pos 200

-- SystemMetrics
pub record SystemMetrics (F : Type 0) : Type 0 where
  pub cpu_usage_percent : F
  pub memory_usage_mb : F
  pub goroutine_count : ℤ
  pub gc_pause_ms : F
  pub network_tx_mbps : F
  pub network_tx_packets : ℤ
  pub network_rx_packets : ℤ
  pub network_tx_bytes : ℤ
  pub network_rx_bytes : ℤ

-- The map of the workers' reports by their id.
abbrev pub MetricsMap : Type 0 → Type 0
MetricsMap F = List (ℤ × WorkerMetrics F)

-- A reference to a map: the one of the constructor, which stays empty, or the aggregator's.
pub data MapRef : Type 0 where
  initial_map aggregator_map : MapRef

-- WorkerPoolMetrics
pub record PoolMetrics (F M : Type 0) : Type 0 where
  pub total_eps : ℤ
  pub total_sent : ℤ
  pub total_errors : ℤ
  pub active_workers : ℤ
  pub average_eps : ℤ
  pub packet_loss_rate : F
  pub worker_metrics : M
  pub system_metrics : SystemMetrics F
  pub last_update : ℤ

-- WorkerPool
pub record Pool (F : Type 0) : Type 0 where
  pub workers : List (Worker F)
  pub worker_count : ℤ
  pub target_host : String
  pub profile : EpsProfile
  pub pool_metrics : PoolMetrics F MapRef  -- as stored, with a reference
  pub metrics_map : MetricsMap F  -- the aggregator's map
  pub is_running : Bool
  pub start_time : ℤ
  pub cancelled : Bool  -- ctx
  pub eps_history : List ℤ
  pub history_index : ℕ
  pub last_history_time : ℤ
  pub auto_tuning : Bool
  pub target_eps : ℤ
  pub tuning_enabled : Bool

-- `if GOGC > 0 { SetGCPercent }; if MemoryLimit > 0 { SetMemoryLimit }`
unfoldable pub apply_profile : EpsProfile → Runtime → Runtime
apply_profile p rt = record rt {
  gc_percent = if ltb_ℤ (pos 0) p.gogc then p.gogc else rt.gc_percent;
  memory_limit = if ltb_ℤ (pos 0) p.memory_limit then p.memory_limit else rt.memory_limit;
}

module _ {F : Type 0} (fl : Float64 F) where
  abbrev zero : F
  zero = fl.of_int (pos 0)

  unfoldable pub no_system_metrics : SystemMetrics F
  no_system_metrics = record {
    cpu_usage_percent = zero;
    memory_usage_mb = zero;
    goroutine_count = pos 0;
    gc_pause_ms = zero;
    network_tx_mbps = zero;
    network_tx_packets = pos 0;
    network_rx_packets = pos 0;
    network_tx_bytes = pos 0;
    network_rx_bytes = pos 0;
  }

  unfoldable pub initial_metrics : ℤ → PoolMetrics F MapRef
  initial_metrics now = record {
    total_eps = pos 0;
    total_sent = pos 0;
    total_errors = pos 0;
    active_workers = pos 0;
    average_eps = pos 0;
    packet_loss_rate = zero;
    worker_metrics = initial_map;
    system_metrics = no_system_metrics;
    last_update = now;
  }

  -- The pool that both constructors make.
  unfoldable pub make_pool : ℤ → String → EpsProfile → Bool → Pool F
  make_pool now host profile auto = record {
    workers = [];
    worker_count = pos 0;
    target_host = host;
    profile = profile;
    pool_metrics = initial_metrics now;
    metrics_map = [];
    is_running = false;
    start_time = zero_time;
    cancelled = false;
    eps_history = replicate 300 (pos 0);
    history_index = 0;
    last_history_time = zero_time;
    auto_tuning = auto;
    target_eps = profile.target_eps;
    tuning_enabled = false;
  }

  -- NewWorkerPool, with the profile that EPSProfiles holds under "4m"
  unfoldable pub new_worker_pool : ℤ → String → Pool F
  new_worker_pool now host = make_pool now host profile_4m true

  -- NewWorkerPoolWithProfile. `none` is the panic of make at a negative worker count.
  unfoldable pub new_worker_pool_with_profile :
      ℤ → String → EpsProfile → Runtime → Option (Pool F) × Runtime
  new_worker_pool_with_profile now host profile rt = (
    if ltb_ℤ profile.worker_count (pos 0) then none else some (make_pool now host profile false),
    apply_profile profile rt,
  )

module _ {F : Type 0} where
  -- SetProfile: refused while the pool runs
  unfoldable pub set_profile : EpsProfile → Pool F → Runtime → Option (Pool F × Runtime)
  set_profile profile p rt =
      if p.is_running
      then none
      else some (
        record p { profile = profile; target_eps = profile.target_eps },
        apply_profile profile rt,
      )

  -- EnableAutoTuning
  unfoldable pub enable_auto_tuning : Bool → Pool F → Pool F
  enable_auto_tuning enabled p = record p { tuning_enabled = enabled }

  -- What the reference of a stored report points at.
  unfoldable pub deref : MapRef → MetricsMap F → MetricsMap F
  deref initial_map shared = []
  deref aggregator_map shared = shared

  -- GetMetrics: a copy of the stored report and of the map that it refers to
  unfoldable pub get_metrics : Pool F → PoolMetrics F (MetricsMap F)
  get_metrics p = record {
    total_eps = p.pool_metrics.total_eps;
    total_sent = p.pool_metrics.total_sent;
    total_errors = p.pool_metrics.total_errors;
    active_workers = p.pool_metrics.active_workers;
    average_eps = p.pool_metrics.average_eps;
    packet_loss_rate = p.pool_metrics.packet_loss_rate;
    worker_metrics = deref p.pool_metrics.worker_metrics p.metrics_map;
    system_metrics = p.pool_metrics.system_metrics;
    last_update = p.pool_metrics.last_update;
  }
