-- ===== src/Witnesses/Web.antt =====
-- The web application of cmd/web_main.go at a concrete input.
use log_generator.App.Main.{exits}
use log_generator.Float.Fixed.{millionths}
use log_generator.Monitor.Requests.{restart_request, start_request}
use log_generator.Prelude.{List, [], none, ℕ, ◌∷◌, ◌≡◌}
use log_generator.Prelude.Int.{pos, ℤ}
use log_generator.Web.{WebEvent, asks, collects, pool_works, relays, run_web}
use log_generator.Web.Program.{run_web-exits}
use log_generator.Witnesses.Data.{open_network, sample_round, sample_runtime}
use log_generator.Worker.Loops.Passes.{precise_pass}

-- A start, a pass of a worker, a tick, a restart and another start.
abbrev web_day : List (WebEvent ℤ)
web_day =
    asks (start_request (pos 1) none)
    ∷ pool_works 0 (precise_pass (pos 100) sample_round)
    ∷ relays
    ∷ collects (pos 1_000_000_000)
    ∷ asks (restart_request (pos 2))
    ∷ asks (start_request (pos 3) none)
    ∷ []

run_web-exits_example : run_web ℕ millionths 8 open_network (pos 0) sample_runtime web_day ≡ exits 0
run_web-exits_example = run_web-exits ℕ millionths 8 open_network (pos 0) sample_runtime web_day
