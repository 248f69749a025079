-- ===== src/Config/Optimizer.antt =====
-- internal/config/optimization.go: the settings of the Go runtime, and the optimizer that collects
-- garbage while the generator runs.
use log_generator.Float.{Float64}
use log_generator.Prelude.{
  Bool, List, Option, [], false, if_ind, if◌then◌else◌, none, not, refl, some, true, ℕ, ◌&&◌, ◌++◌,
  ◌+◌, ◌∙◌, ◌∷◌, ◌≡◌,
}
use log_generator.Prelude.Int.{add64, ltb_ℤ, mul64, negsuc, pos, ℤ}

-- The settings of the Go runtime that the program changes.
pub record Runtime : Type 0 where
  pub max_procs : ℤ
  pub gc_percent : ℤ
  pub memory_limit : ℤ

-- OptimizationConfig
pub record OptimizationConfig : Type 0 where
  pub max_memory_mb : ℤ
  pub gc_target_percent : ℤ
  pub memory_limit_mb : ℤ
  pub max_procs : ℤ
  pub enable_profiling : Bool
  pub cpu_affinity : Bool
  pub gc_force_interval : ℤ
  pub disable_gc : Bool
  pub socket_buffer_size : ℤ
  pub batch_size : ℤ
  pub enable_runtime_stats : Bool

-- DefaultOptimizationConfig, on a machine with `cpus` processors
unfoldable pub default_optimization_config : ℕ → OptimizationConfig
default_optimization_config cpus = record {
  max_memory_mb = pos 12_288;
  gc_target_percent = pos 200;
  memory_limit_mb = pos 12_288;
  max_procs = pos cpus;
  enable_profiling = false;
  cpu_affinity = true;
  gc_force_interval = pos 30_000_000_000;
  disable_gc = false;
  socket_buffer_size = pos 2_097_152;
  batch_size = pos 1000;
  enable_runtime_stats = true;
}

-- MemoryOptimizer; `tasks` counts the goroutines of wg.
pub record MemoryOptimizer : Type 0 where
  pub settings : OptimizationConfig
  pub is_active : Bool
  pub stop_closed : Bool
  pub tasks : ℕ
  pub gc_count : ℤ

-- NewMemoryOptimizer
unfoldable pub new_memory_optimizer : ℕ → Option OptimizationConfig → MemoryOptimizer
new_memory_optimizer cpus config = record {
  settings = elim config [ none ↦ default_optimization_config cpus | some c ↦ c ];
  is_active = false;
  stop_closed = false;
  tasks = 0;
  gc_count = pos 0;
}

-- Initialize of the optimizer: GOMAXPROCS, SetGCPercent and SetMemoryLimit
unfoldable pub initialize_optimizer : MemoryOptimizer → Runtime → Runtime
initialize_optimizer o rt =
    let c = o.settings in
    record {
      max_procs = if ltb_ℤ (pos 0) c.max_procs then c.max_procs else rt.max_procs;
      gc_percent = if c.disable_gc then negsuc 0 else c.gc_target_percent;
      memory_limit =
          if ltb_ℤ (pos 0) c.memory_limit_mb
          then mul64 (mul64 c.memory_limit_mb (pos 1024)) (pos 1024)
          else rt.memory_limit;
    }

-- Start: up to two goroutines
unfoldable pub start_optimizer : MemoryOptimizer → MemoryOptimizer
start_optimizer o =
    let c = o.settings in
    let forcer = if ltb_ℤ (pos 0) c.gc_force_interval && not c.disable_gc then 1 else 0 in
    let monitor = if c.enable_runtime_stats then 1 else 0 in
    if o.is_active then o else record o { is_active = true; tasks = o.tasks + forcer + monitor }

-- Stop; `none` is the panic of a close of the closed channel.
unfoldable pub stop_optimizer : MemoryOptimizer → Option MemoryOptimizer
stop_optimizer o =
    if o.is_active
    then (if o.stop_closed
        then none
        else some (record o { is_active = false; stop_closed = true; tasks = 0 }))
    else some o

-- What checkMemoryPressure asks of the runtime.
pub data MemoryAction : Type 0 where
  run_gc free_os_memory sleep_10_ms : MemoryAction

-- checkMemoryPressure: the pressure, and its actions in order
unfoldable pub check_memory_pressure :
    {F : Type 0} → Float64 F → ℤ → MemoryOptimizer → F × List MemoryAction
check_memory_pressure fl alloc o =
    let kibi = fl.of_int (pos 1024) in
    let pressure =
      fl.div (fl.div (fl.div (fl.of_int alloc) kibi) kibi) (fl.of_int o.settings.max_memory_mb) in
    (
      pressure,
      (if fl.lt (fl.decimal (pos 9) 1) pressure then run_gc ∷ free_os_memory ∷ [] else [])
          ++ (if fl.lt (fl.decimal (pos 95) 2) pressure
              then run_gc ∷ sleep_10_ms ∷ run_gc ∷ sleep_10_ms ∷ run_gc ∷ sleep_10_ms
                ∷ free_os_memory ∷ []
              else []),
    )

-- A tick of gcForcer, whose collection took `duration`, with what it asks of the runtime
unfoldable pub force_gc : ℤ → MemoryOptimizer → MemoryOptimizer × List MemoryAction
force_gc duration o = (
  record o { gc_count = add64 o.gc_count (pos 1) },
  run_gc ∷ free_os_memory ∷ (if ltb_ℤ (pos 100_000_000) duration then run_gc ∷ [] else []),
)

pub start_optimizer-active :
    (o : MemoryOptimizer)
    → ((start_optimizer o).is_active ≡ true) × ((start_optimizer o).stop_closed ≡ o.stop_closed)
unfolding start_optimizer
start_optimizer-active o =
    if_ind (λ (v : MemoryOptimizer). (v.is_active ≡ true) × (v.stop_closed ≡ o.stop_closed))
      o.is_active (λ on. (on, refl)) (λ off. (refl, refl))

pub stop_optimizer-active :
    (v : MemoryOptimizer)
    → v.is_active ≡ true
    → v.stop_closed ≡ false
    → stop_optimizer v ≡ some (record v { is_active = false; stop_closed = true; tasks = 0 })
unfolding stop_optimizer
stop_optimizer-active v on unclosed = simp (on, unclosed)

-- An optimizer that was never stopped can be stopped once, and its goroutines have ended then; a
-- second Stop changes nothing. If it is started again, it is active, and the next Stop panics.
pub stop_optimizer-start :
    (o : MemoryOptimizer)
    → o.stop_closed ≡ false
    → let v = start_optimizer o in
      (s : MemoryOptimizer) × (stop_optimizer v ≡ some s)
      × (s.is_active ≡ false)
      × (s.tasks ≡ 0)
      × (stop_optimizer s ≡ some s)
      × ((start_optimizer s).is_active ≡ true)
      × (stop_optimizer (start_optimizer s) ≡ none)
unfolding start_optimizer stop_optimizer
stop_optimizer-start o h =
    let v = start_optimizer o in
    let (on, unclosed) = start_optimizer-active o in
    (
      record v { is_active = false; stop_closed = true; tasks = 0 },
      stop_optimizer-active v on (unclosed ∙ h),
      refl,
      refl,
      refl,
      refl,
      refl,
    )
