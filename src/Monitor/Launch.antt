-- ===== src/Monitor/Launch.antt =====
-- The goroutines of metricsUpdateLoop in internal/monitor/control_server.go. startGenerator launches
-- one before the handler sets isRunning; each runs while isRunning, which it tests without the lock
-- before each wait of a second. The handlers hold the lock; the loops go on in between.
pub mod Race
pub mod Piling
use mathlib.Core.Option.{map as map_option}
use log_generator.Prelude.{
  Bool, List, Option, [], false, if◌then◌else◌, none, not, some, suc, true, zero, ℕ, ◌&&◌, ◌++◌,
  ◌+◌, ◌||◌, ◌∷◌,
}

-- Where a loop is: before a test of isRunning, in a wait for its ticker, or ended.
pub data Phase : Type 0 where
  testing waiting finished : Phase

-- isRunning, whether a handler is between the launch and the setting of it, the loops, the oldest
-- first, and how often the collector was brought in step with the pool.
pub record Launch : Type 0 where
  pub is_running : Bool
  pub starting : Bool
  pub loops : List Phase
  pub updates : ℕ

-- What can happen next: a handler launches a loop, sets isRunning, or stops the generator and resets
-- it; the loop of an index makes its test, or gets its tick.
pub data Action : Type 0 where
  launches turns_on turns_off : Action
  tests fires : ℕ → Action

-- The test of the loop at an index, if it is before one
unfoldable pub test_at : Bool → ℕ → List Phase → Option (List Phase)
test_at on i [] = none
test_at on zero (testing ∷ ps) = some ((if on then waiting else finished) ∷ ps)
test_at on zero (waiting ∷ ps) = none
test_at on zero (finished ∷ ps) = none
test_at on (suc i) (p ∷ ps) = map_option (λ qs. p ∷ qs) (test_at on i ps)

-- The tick of the loop at an index, if it waits for one
unfoldable pub tick_at : ℕ → List Phase → Option (List Phase)
tick_at i [] = none
tick_at zero (waiting ∷ ps) = some (testing ∷ ps)
tick_at zero (testing ∷ ps) = none
tick_at zero (finished ∷ ps) = none
tick_at (suc i) (p ∷ ps) = map_option (λ qs. p ∷ qs) (tick_at i ps)

-- One step, if it can be taken
unfoldable pub act : Action → Launch → Option Launch
act launches s =
    if s.is_running || s.starting
    then none
    else some (record s { starting = true; loops = s.loops ++ testing ∷ [] })
act turns_on s =
    if s.starting then some (record s { starting = false; is_running = true }) else none
act turns_off s =
    if s.is_running && not s.starting then some (record s { is_running = false }) else none
act (tests i) s = map_option (λ ps. record s { loops = ps }) (test_at s.is_running i s.loops)
act (fires i) s =
    map_option (λ ps. record s { loops = ps; updates = s.updates + 1 }) (tick_at i s.loops)

-- Steps in order, if each can be taken
unfoldable pub act_all : List Action → Launch → Option Launch
act_all [] s = some s
act_all (a ∷ acts) s = elim (act a s) [ none ↦ none | some t ↦ act_all acts t ]
