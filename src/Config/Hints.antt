-- ===== src/Config/Hints.antt =====
-- internal/config/optimization.go: AnalyzePerformance, which tells what slows the program down.
use log_generator.Float.{Float64}
use log_generator.Prelude.{Bool, List, String, [], if◌then◌else◌, ◌++◌, ◌∷◌}
use log_generator.Prelude.Int.{ltb_ℤ, pos, ℤ}

-- What AnalyzePerformance reads of the Go runtime
pub record MemStats (F : Type 0) : Type 0 where
  pub alloc : ℤ
  pub gc_cpu_fraction : F

-- PerformanceHints
pub record PerformanceHints : Type 0 where
  pub enabled_optimizations : List String
  pub recommendations : List String
  pub current_bottlenecks : List String

-- A bottleneck with its recommendation, if there is one
unfoldable pub add_hint : Bool → String → String → PerformanceHints → PerformanceHints
add_hint found bottleneck advice h =
    if found
    then record h {
      recommendations = h.recommendations ++ advice ∷ [];
      current_bottlenecks = h.current_bottlenecks ++ bottleneck ∷ [];
    }
    else h

module _ {F : Type 0} (fl : Float64 F) where
  -- AnalyzePerformance, with the number of goroutines
  unfoldable pub analyze_performance : MemStats F → ℤ → PerformanceHints
  analyze_performance m goroutines =
      let kibi = fl.of_int (pos 1024) in
      let used = fl.div (fl.div (fl.of_int m.alloc) kibi) kibi in
      let none_yet : PerformanceHints = record {
        enabled_optimizations = [];
        recommendations = [];
        current_bottlenecks = [];
      } in
      add_hint (ltb_ℤ (pos 10_000) goroutines) "High goroutine count: potential goroutine leak"
        "Review goroutine lifecycle management"
        (add_hint (fl.lt (fl.of_int (pos 8192)) used)
          "High memory usage: consider memory pool optimization"
          "Implement more aggressive memory pooling"
          (add_hint (fl.lt (fl.decimal (pos 5) 2) m.gc_cpu_fraction)
            "High GC CPU usage: consider increasing GC target percent"
            "Set GOGC=200 or higher to reduce GC frequency" none_yet))
