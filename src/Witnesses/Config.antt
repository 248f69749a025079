-- ===== src/Witnesses/Config.antt =====
-- Theorems on internal/config at concrete inputs.
use log_generator.Config.Optimizer.{
  MemoryOptimizer, new_memory_optimizer, start_optimizer, stop_optimizer, stop_optimizer-start,
}
use log_generator.Config.Profiles.Custom.{get_profile_for_eps}
use log_generator.Config.Profiles.Selection.{IsLeast, get_profile_for_eps-IsLeast}
use log_generator.Float.Fixed.{millionths}
use log_generator.Prelude.{Holds, arith, false, none, refl, some, true, ◌≡◌}
use log_generator.Prelude.Int.{pos}

get_profile_for_eps-IsLeast_example :
    Holds (IsLeast millionths 8 (pos 300_000)) (get_profile_for_eps millionths 8 (pos 300_000))
get_profile_for_eps-IsLeast_example =
    get_profile_for_eps-IsLeast millionths 8 (pos 300_000) (omega arith) (omega arith)

abbrev sample_optimizer : MemoryOptimizer
sample_optimizer = new_memory_optimizer 8 none

stop_optimizer-start_example :
    let v = start_optimizer sample_optimizer in
    (s : MemoryOptimizer) × (stop_optimizer v ≡ some s)
    × (s.is_active ≡ false)
    × (s.tasks ≡ 0)
    × (stop_optimizer s ≡ some s)
    × ((start_optimizer s).is_active ≡ true)
    × (stop_optimizer (start_optimizer s) ≡ none)
unfolding new_memory_optimizer
stop_optimizer-start_example = stop_optimizer-start sample_optimizer refl
