-- ===== src/Monitor/Launch/Piling.antt =====
-- How many loops of metricsUpdateLoop in internal/monitor/control_server.go can wait at a time.
use log_generator.Monitor.Launch.{Action, Launch, launches, tests, turns_off, turns_on}
use log_generator.Prelude.{List, [], suc, zero, ℕ, ◌∷◌}

-- `n` times a start, with the test of its loop after it, and a stop within the second that the loop
-- waits; the first loop has the index `k`.
abbrev pub quick_cycles : ℕ → ℕ → List Action
quick_cycles zero k = []
quick_cycles (suc n) k = launches ∷ turns_on ∷ tests k ∷ turns_off ∷ quick_cycles n (suc k)
