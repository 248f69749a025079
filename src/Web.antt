-- ===== src/Web.antt =====
-- cmd/web_main.go: the program that serves the control server until a signal comes, and then stops it.
-- Start of the server does not fail. What the server does meanwhile is a list of events.
pub mod Program
use log_generator.App.Main.{Exit, exits, hangs, panics}
use log_generator.Config.Optimizer.{Runtime}
use log_generator.Float.{Float64}
use log_generator.Metrics.Collect.{collect_tick}
use log_generator.Monitor.Control.{
  Control, StopResult, generator_stopped, new_control_server, pool_refused, stop_hung,
  stop_panicked,
}
use log_generator.Monitor.Handlers.{stop_server}
use log_generator.Monitor.Requests.{Request, serve}
use log_generator.Monitor.Update.{update_tick}
use log_generator.Pool.Aggregate.{Reading, aggregate, receive_report}
use log_generator.Pool.State.{Pool}
use log_generator.Pool.Working.{work}
use log_generator.Prelude.{List, [], none, some, ℕ, ◌∷◌}
use log_generator.Prelude.Int.{ℤ}
use log_generator.Worker.Eps.{WorkerMetrics}
use log_generator.Worker.Loops.Passes.{Pass}
use log_generator.Worker.State.{Network}

-- What goes on between Start and Stop.
pub data WebEvent (F : Type 0) : Type 0 where
  -- a request is served
  asks : Request → WebEvent F
  -- a tick of metricsUpdateLoop, and of the collector
  relays : WebEvent F
  collects : ℤ → WebEvent F
  -- a worker of the pool makes a pass, the aggregator ticks or receives a report
  pool_works : ℕ → Pass F → WebEvent F
  pool_aggregates : ℤ → Reading F → WebEvent F
  pool_reports : WorkerMetrics F → WebEvent F

module _ {F H : Type 0} where
  -- Something goes on in the pool, if there is one.
  unfoldable pub in_pool : (Pool F → Pool F) → Control F H → Control F H
  in_pool f cs = record cs {
    worker_pool = elim cs.worker_pool [ none ↦ none | some p ↦ some (f p) ];
  }

module _ {F H : Type 0} (fl : Float64 F) (cpus : ℕ) (net : ℕ → Network) where
  unfoldable pub web_event : WebEvent F → Control F H → Control F H
  web_event (asks r) cs = (serve fl cpus net r cs).0
  web_event relays cs = update_tick fl cs
  web_event (collects now) cs = record cs { collector = (collect_tick fl now cs.collector).0 }
  web_event (pool_works i p) cs = in_pool (work fl i p) cs
  web_event (pool_aggregates now reading) cs = in_pool (aggregate fl now reading) cs
  web_event (pool_reports m) cs = in_pool (receive_report m) cs

  unfoldable pub web_events : List (WebEvent F) → Control F H → Control F H
  web_events [] cs = cs
  web_events (e ∷ es) cs = web_events es (web_event e cs)

-- How the program ends after Stop: an error of stopGenerator is dropped.
unfoldable pub exit_after_server : StopResult → Exit
exit_after_server generator_stopped = exits 0
exit_after_server pool_refused = exits 0
exit_after_server stop_panicked = panics
exit_after_server stop_hung = hangs

module _ {F : Type 0} (H : Type 0) (fl : Float64 F) where
  -- main of the web application
  unfoldable pub run_web : ℕ → (ℕ → Network) → ℤ → Runtime → List (WebEvent F) → Exit
  run_web cpus net now rt es =
      let server : Control F H = new_control_server fl now rt in
      exit_after_server (stop_server (web_events fl cpus net es server)).1
