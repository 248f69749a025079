-- ===== src/App/Main.antt =====
-- main of cmd/main.go: the program from its flags to its exit.
use log_generator.App.{
  App, AppConfig, Construction, check_flags, crashed_in_make, made, new_log_generator, unknown,
}
use log_generator.App.Running.{
  AppEvent, AppOutcome, app_done, app_events, app_hung, app_idle, app_panicked, app_running,
  dashboard_refuses, no_workers, pool_refuses, start_app, stop_app,
}
use log_generator.Config.Optimizer.{Runtime}
use log_generator.Float.{Float64}
use log_generator.Prelude.{List, none, some, ℕ}
use log_generator.Prelude.Int.{ℤ}
use log_generator.Worker.State.{Network}

-- How the program ends, or that it does not.
pub data Exit : Type 0 where
  exits : ℕ → Exit
  panics hangs : Exit

-- After Stop: an error of it is only printed.
unfoldable pub exit_after_stop : AppOutcome → Exit
exit_after_stop app_done = exits 0
exit_after_stop app_running = exits 0
exit_after_stop app_idle = exits 0
exit_after_stop app_panicked = panics
exit_after_stop app_hung = hangs
exit_after_stop pool_refuses = exits 0
exit_after_stop dashboard_refuses = exits 0
exit_after_stop (no_workers o) = exits 0

module _ {F H M : Type 0} (fl : Float64 F) where
  -- After Start: an error ends the program. Otherwise it waits for a signal or the end of the test,
  -- and the events are what goes on meanwhile.
  unfoldable pub after_start : List (AppEvent F M) → App F H M × AppOutcome → Exit
  after_start es (a, app_done) = exit_after_stop (stop_app (app_events fl es a)).1
  after_start es (a, app_running) = exits 1
  after_start es (a, app_idle) = exits 1
  after_start es (a, app_panicked) = panics
  after_start es (a, app_hung) = hangs
  after_start es (a, pool_refuses) = exits 1
  after_start es (a, dashboard_refuses) = exits 1
  after_start es (a, no_workers o) = exits 1

  unfoldable pub after_construction :
      (ℕ → Network) → ℤ → List (AppEvent F M) → Construction F H M → Exit
  after_construction net now es (made a) = after_start es (start_app fl net now a)
  after_construction net now es (unknown e) = exits 1
  after_construction net now es crashed_in_make = panics

module _ {F : Type 0} (H M : Type 0) (fl : Float64 F) where
  -- main, with what the flags set
  unfoldable pub run_main : ℕ → (ℕ → Network) → ℤ → AppConfig → Runtime → List (AppEvent F M) → Exit
  run_main cpus net now flags rt es = elim (check_flags flags) [
    | none ↦ exits 1
    | some c ↦
        let construction : Construction F H M = new_log_generator fl cpus now c rt in
        after_construction fl net now es construction
  ]
