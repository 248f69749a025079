-- ===== src/App/Cycle.antt =====
-- The application of cmd/main.go from Start to Stop, and the program as a whole.
use log_generator.App.{App}
use log_generator.App.Live.{IsAppUp, IsOpen}
use log_generator.App.Running.{
  AppEvent, aggregates, app_event, app_events, measures, reports, sockets, update_app, updates,
  works,
}
use log_generator.Float.{Float64}
use log_generator.Metrics.Keeping.{collect-IsCollector, update-IsCollector}
use log_generator.Monitor.Dashboard.{Dashboard, dashboard_event}
use log_generator.Monitor.Hub.{Event}
use log_generator.Monitor.Update.{metrics_of}
use log_generator.Pool.Aggregate.{receive_report}
use log_generator.Pool.State.{get_metrics}
use log_generator.Pool.Working.{aggregate-IsLivePool, work-IsLivePool}
use log_generator.Prelude.{List, Option, [], none, some, ◌∙◌, ◌∷◌}

sockets-IsOpen :
    {M : Type 0} (e : Event M) (o : Option (Dashboard M))
    → IsOpen o
    → let o' : Option (Dashboard M) = elim o [
      | none ↦ none
      | some d ↦ some (dashboard_event e d)
    ] in
      IsOpen o'
unfolding dashboard_event
sockets-IsOpen e none h = h
sockets-IsOpen e (some d) h = h

module _ {F H M : Type 0} (fl : Float64 F) where
  app_event-IsAppUp : (e : AppEvent F M) (a : App F H M) → IsAppUp a → IsAppUp (app_event fl e a)
  unfolding app_event update_app receive_report
  app_event-IsAppUp (works i p) a h = record {
    running = h.running;
    pool = work-IsLivePool fl i p a.pool h.pool;
    collector = h.collector;
    collects = h.collects;
    dashboard = h.dashboard;
    optimizer = h.optimizer;
  }
  app_event-IsAppUp updates a h =
      let (c, on) =
        update-IsCollector fl (metrics_of (get_metrics a.pool).worker_metrics) a.collector
          h.collector in
      record {
        running = h.running;
        pool = h.pool;
        collector = c;
        collects = on ∙ h.collects;
        dashboard = h.dashboard;
        optimizer = h.optimizer;
      }
  app_event-IsAppUp (measures now) a h =
      let (c, on) = collect-IsCollector fl now a.collector h.collector in
      record {
        running = h.running;
        pool = h.pool;
        collector = c;
        collects = on ∙ h.collects;
        dashboard = h.dashboard;
        optimizer = h.optimizer;
      }
  app_event-IsAppUp (aggregates now r) a h = record {
    running = h.running;
    pool = aggregate-IsLivePool fl now r a.pool h.pool;
    collector = h.collector;
    collects = h.collects;
    dashboard = h.dashboard;
    optimizer = h.optimizer;
  }
  app_event-IsAppUp (reports m) a h = record {
    running = h.running;
    pool = h.pool;
    collector = h.collector;
    collects = h.collects;
    dashboard = h.dashboard;
    optimizer = h.optimizer;
  }
  app_event-IsAppUp (sockets e) a h = record {
    running = h.running;
    pool = h.pool;
    collector = h.collector;
    collects = h.collects;
    dashboard = sockets-IsOpen e a.dashboard h.dashboard;
    optimizer = h.optimizer;
  }

  pub app_events-IsAppUp :
      (es : List (AppEvent F M)) (a : App F H M) → IsAppUp a → IsAppUp (app_events fl es a)
  app_events-IsAppUp [] a h = h
  app_events-IsAppUp (e ∷ es) a h =
      app_events-IsAppUp es (app_event fl e a) (app_event-IsAppUp e a h)
