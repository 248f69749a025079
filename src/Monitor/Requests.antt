-- ===== src/Monitor/Requests.antt =====
-- Requests to the control server of internal/monitor/control_server.go, one after the other.
use log_generator.Float.{Float64}
use log_generator.Metrics.Lifecycle.{stop-IsCollector}
use log_generator.Monitor.Control.{
  Control, GeneratorConfig, Reply, StartRequest, StopResult, generator_idle, generator_stopped,
  pool_refused, stop_hung, stop_panicked, stopped,
}
use log_generator.Monitor.Handlers.{
  get_config, handle_restart, handle_start, handle_stop, put_config, stop_generator, stop_reply,
  stop_server,
}
use log_generator.Monitor.Invariant.{IsControl}
use log_generator.Monitor.Service.{IsOff, IsStopped, stop_generator-IsOff}
use log_generator.Prelude.{
  Bool-cases, List, Option, [], false, if◌then◌else◌, inl, inr, refl, true, ℕ, ◌∷◌, ◌≡◌,
}
use log_generator.Prelude.Int.{ℤ}
use log_generator.Worker.Batch.Delivery.{answer}
use log_generator.Worker.State.{Network}

-- A request that changes the state, with the time at which it is served.
pub data Request : Type 0 where
  start_request : ℤ → Option StartRequest → Request
  stop_request : Request
  restart_request : ℤ → Request
  get_request : Request
  put_request : Option GeneratorConfig → Request

module _ {F H : Type 0} (fl : Float64 F) (cpus : ℕ) (net : ℕ → Network) where
  -- The routes of Start to the handlers.
  unfoldable pub serve : Request → Control F H → Control F H × Reply
  serve (start_request now request) cs = handle_start fl cpus net now request cs
  serve stop_request cs = handle_stop cs
  serve (restart_request now) cs = handle_restart fl cpus net now cs
  serve get_request cs = get_config cs
  serve (put_request c) cs = put_config c cs

  -- The state after requests, and the answers to them.
  unfoldable pub serve_all : List Request → Control F H → Control F H × List Reply
  serve_all [] cs = (cs, [])
  serve_all (r ∷ rs) cs =
      let (v, answer) = serve r cs in let (u, answers) = serve_all rs v in (u, answer ∷ answers)

module _ {F H : Type 0} where
  pub reconfigured :
      (c : GeneratorConfig) (cs : Control F H) → IsControl cs → IsControl (record cs { config = c })
  reconfigured c cs h = record { live = h.live; collecting = h.collecting; stoppable = h.stoppable }

  pub off_control :
      (cs v : Control F H)
      → IsControl cs
      → IsOff cs v
      → IsControl (record v { is_running = false }) × IsStopped cs (record v { is_running = false })
  off_control cs v h o =
      let (k, off) = stop-IsCollector cs.collector h.collecting in
      (
        record {
          live = λ e. absurd (let f : ⊥ = cc in f);
          collecting = rw o.collector_stopped k;
          stoppable = rw o.no_optimizer tt;
        },
        record {
          not_running = refl;
          no_pool = o.no_pool;
          no_optimizer = o.no_optimizer;
          not_collecting = rw o.collector_stopped off;
          same_config = o.config_kept;
        },
      )

  stop_reply-stopped :
      (r : Control F H × StopResult)
      → r.1 ≡ generator_stopped
      → stop_reply r ≡ (record r.0 { is_running = false }, stopped)
  unfolding stop_reply
  stop_reply-stopped (cs, generator_stopped) e = refl
  stop_reply-stopped (cs, pool_refused) e = cc
  stop_reply-stopped (cs, stop_panicked) e = cc
  stop_reply-stopped (cs, stop_hung) e = cc

  -- handleStop never fails, panics or waits for ever. If the generator runs it answers that it
  -- stopped, and leaves no pool, no optimizer and a collector that does not collect; otherwise it
  -- answers that the generator does not run, and changes nothing.
  pub handle_stop-IsStopped :
      (cs : Control F H)
      → IsControl cs
      → let (v, answer) = handle_stop cs in
        IsControl v
        × (answer ≡ (if cs.is_running then stopped else generator_idle))
        × (cs.is_running ≡ true → IsStopped cs v)
        × (cs.is_running ≡ false → v ≡ cs)
  unfolding handle_stop
  handle_stop-IsStopped cs h = elim (Bool-cases cs.is_running) [
    | inr off ↦ simp off (h, refl, λ e. cc, λ _. refl)
    | inl on ↦
        let (o, e) = stop_generator-IsOff cs.worker_pool cs h (h.live on) in
        let e' = stop_reply-stopped (stop_generator cs.worker_pool cs) e in
        let (k, s) = off_control cs (stop_generator cs.worker_pool cs).0 h o in
        simp (on, e') (k, refl, λ _. s, λ f. cc)
  ]

  -- Of a server that keeps the invariant and whose generator runs, Stop does what handleStop does: no
  -- failure, and no pool, no optimizer and no collection left.
  pub stop_server-IsStopped :
      (cs : Control F H)
      → IsControl cs
      → cs.is_running ≡ true
      → let (v, result) = stop_server cs in
        IsControl v × (result ≡ generator_stopped) × IsStopped cs v × (v ≡ (handle_stop cs).0)
  unfolding stop_server handle_stop
  stop_server-IsStopped cs h on =
      let (o, e) = stop_generator-IsOff cs.worker_pool cs h (h.live on) in
      let e' = stop_reply-stopped (stop_generator cs.worker_pool cs) e in
      let (k, s) = off_control cs (stop_generator cs.worker_pool cs).0 h o in
      simp (on, e') (k, e, s, refl)
