-- ===== src/Web/Program.antt =====
-- The program of cmd/web_main.go from its start to its exit.
use log_generator.App.Main.{exits}
use log_generator.Config.Optimizer.{Runtime}
use log_generator.Float.{Float64}
use log_generator.Metrics.{Collector}
use log_generator.Metrics.Collect.{collect_tick, update_system_metrics, update_worker_metrics}
use log_generator.Metrics.Keeping.{collect-IsCollector, update-IsCollector}
use log_generator.Metrics.Lifecycle.{IsCollector}
use log_generator.Monitor.Control.{Control, generator_stopped, new_control_server}
use log_generator.Monitor.Handlers.{stop_server}
use log_generator.Monitor.Invariant.{IsControl}
use log_generator.Monitor.Requests.{stop_server-IsStopped}
use log_generator.Monitor.Sequences.{new_server-IsControl, serve-IsServed}
use log_generator.Monitor.Update.{metrics_of, throughput, update_collector, update_tick}
use log_generator.Pool.Aggregate.{aggregate, receive_report}
use log_generator.Pool.Live.{IsLivePool}
use log_generator.Pool.State.{Pool, get_metrics}
use log_generator.Pool.Working.{aggregate-IsLivePool, work, work-IsLivePool}
use log_generator.Prelude.{
  Bool-cases, Holds, List, Option, [], inl, inr, none, refl, some, ℕ, ◌∷◌, ◌≡◌,
}
use log_generator.Prelude.Int.{mul64, pos, ℤ}
use log_generator.Web.{
  WebEvent, asks, collects, exit_after_server, in_pool, pool_aggregates, pool_reports, pool_works,
  relays, run_web, web_event, web_events,
}
use log_generator.Worker.State.{Network}

module _ {F H : Type 0} where
  in_pool-IsControl :
      (f : Pool F → Pool F) (cs : Control F H)
      → ((p : Pool F) → IsLivePool p → IsLivePool (f p))
      → IsControl cs
      → IsControl (in_pool f cs)
  unfolding in_pool
  in_pool-IsControl f cs keep h = record {
    live = λ on. inside cs.worker_pool (h.live on);
    collecting = h.collecting;
    stoppable = h.stoppable;
  }
    where
      inside :
          (o : Option (Pool F))
          → Holds IsLivePool o
          → let o' : Option (Pool F) = elim o [ none ↦ none | some p ↦ some (f p) ] in
            Holds IsLivePool o'
      inside none h = h
      inside (some p) h = keep p h

  recollected :
      (cs : Control F H) (c : Collector F H)
      → IsControl cs
      → IsCollector c
      → IsControl (record cs { collector = c })
  recollected cs c h k = record { live = h.live; collecting = k; stoppable = h.stoppable }

  system-IsCollector :
      (cpu memory mbps : F) (tp rp tb rb : ℤ) (c : Collector F H)
      → IsCollector c
      → IsCollector (update_system_metrics cpu memory mbps tp rp tb rb c)
  unfolding update_system_metrics
  system-IsCollector cpu memory mbps tp rp tb rb c h = record {
    one_loop = h.one_loop;
    unclosed = h.unclosed;
  }

module _ {F H : Type 0} (fl : Float64 F) where
  update_tick-IsControl : (cs : Control F H) → IsControl cs → IsControl (update_tick fl cs)
  unfolding update_tick update_collector
  update_tick-IsControl cs h = by_pool cs.worker_pool
    where
      by_pool :
          (o : Option (Pool F))
          → let v : Control F H = elim o [
            | none ↦ cs
            | some p ↦ record cs { collector = update_collector fl (get_metrics p) cs.collector }
          ] in
            IsControl v
      by_pool none = h
      by_pool (some p) =
          let m = get_metrics p in
          let ws = metrics_of m.worker_metrics in
          recollected cs (update_collector fl m cs.collector) h (
            system-IsCollector m.system_metrics.cpu_usage_percent m.system_metrics.memory_usage_mb
              (throughput fl m.total_eps) m.total_sent m.system_metrics.network_rx_packets
              (mul64 m.total_sent (pos 512)) m.system_metrics.network_rx_bytes
              (update_worker_metrics fl ws cs.collector)
              (update-IsCollector fl ws cs.collector h.collecting).0)

  module _ (cpus : ℕ) (net : ℕ → Network) where
    web_event-IsControl :
        (e : WebEvent F) (cs : Control F H) → IsControl cs → IsControl (web_event fl cpus net e cs)
    unfolding web_event receive_report
    web_event-IsControl (asks r) cs h = (serve-IsServed fl cpus net r cs h).kept
    web_event-IsControl relays cs h = update_tick-IsControl cs h
    web_event-IsControl (collects now) cs h =
        recollected cs (collect_tick fl now cs.collector).0 h
          (collect-IsCollector fl now cs.collector h.collecting).0
    web_event-IsControl (pool_works i p) cs h =
        in_pool-IsControl (work fl i p) cs (work-IsLivePool fl i p) h
    web_event-IsControl (pool_aggregates now r) cs h =
        in_pool-IsControl (aggregate fl now r) cs (aggregate-IsLivePool fl now r) h
    web_event-IsControl (pool_reports m) cs h = in_pool-IsControl (receive_report m) cs (λ p l. l) h

    web_events-IsControl :
        (es : List (WebEvent F)) (cs : Control F H)
        → IsControl cs
        → IsControl (web_events fl cpus net es cs)
    unfolding web_events
    web_events-IsControl [] cs h = h
    web_events-IsControl (e ∷ es) cs h =
        web_events-IsControl es (web_event fl cpus net e cs) (web_event-IsControl e cs h)

stop_server-stops :
    {F H : Type 0} (cs : Control F H) → IsControl cs → (stop_server cs).1 ≡ generator_stopped
stop_server-stops cs h = elim (Bool-cases cs.is_running) [
  | inl on ↦ (stop_server-IsStopped cs h on).1
  | inr off ↦ unfold stop_server in rw off refl
]

-- The web application ends with the code 0 at the signal, whatever requests it served before, in any
-- order with the ticks and the passes of the workers, and whatever the network granted.
pub run_web-exits :
    {F : Type 0} (H : Type 0) (fl : Float64 F) (cpus : ℕ) (net : ℕ → Network) (now : ℤ)
    (rt : Runtime) (es : List (WebEvent F))
    → run_web H fl cpus net now rt es ≡ exits 0
unfolding run_web exit_after_server
run_web-exits H fl cpus net now rt es =
    let server : Control _ H = new_control_server fl now rt in
    let k = web_events-IsControl fl cpus net es server (new_server-IsControl H fl now rt) in
    rw (stop_server-stops (web_events fl cpus net es server) k) refl
