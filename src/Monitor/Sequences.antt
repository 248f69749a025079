-- ===== src/Monitor/Sequences.antt =====
-- Any sequence of requests to the control server of internal/monitor/control_server.go.
use log_generator.Config.Optimizer.{Runtime}
use log_generator.Float.{Float64}
use log_generator.Metrics.{new_metrics_collector}
use log_generator.Monitor.Control.{
  ConfigError, Control, GeneratorConfig, Reply, StartRequest, StopResult, apply_request,
  generator_idle, generator_stopped, invalid, new_control_server, pool_refused, restarted, saved,
  started, stop_hung, stop_panicked, stopped, validate_config,
}
use log_generator.Monitor.Handlers.{
  after_init, get_config, handle_restart, handle_start, handle_stop, initialize_generator,
  put_config, restart_after, stop_generator,
}
use log_generator.Monitor.Invariant.{IsControl, initialize_generator-IsPrepared}
use log_generator.Monitor.Requests.{
  Request, get_request, handle_stop-IsStopped, off_control, put_request, reconfigured,
  restart_request, serve, serve_all, start_request, stop_request,
}
use log_generator.Monitor.Service.{
  IsFine, IsOff, IsServed, after_init-IsServed, stop_generator-IsOff,
}
use log_generator.Prelude.{
  All, List, Option, [], false, if_ind, if◌then◌else◌, none, refl, some, ℕ, ◌∷◌, ◌≡◌,
}
use log_generator.Prelude.Int.{ℤ}
use log_generator.Prelude.Result.{Result, err, ok}
use log_generator.Worker.State.{Network}

module _ {F H : Type 0} where
  module _ (fl : Float64 F) (cpus : ℕ) (net : ℕ → Network) where
    initialized-IsServed :
        (now : ℤ) (cs : Control F H) (reply : Reply)
        → IsControl cs
        → cs.is_running ≡ false
        → IsFine reply
        → IsServed (after_init now (initialize_generator fl cpus net now cs) reply)
    initialized-IsServed now cs reply h idle =
        after_init-IsServed now (initialize_generator fl cpus net now cs) reply
          (initialize_generator-IsPrepared fl cpus net now cs h idle)

    handle_start-IsServed :
        (now : ℤ) (request : Option StartRequest) (cs : Control F H)
        → IsControl cs
        → IsServed (handle_start fl cpus net now request cs)
    unfolding handle_start
    handle_start-IsServed now request cs h =
        let c : GeneratorConfig = elim request [
          | none ↦ cs.config
          | some r ↦ apply_request r cs.config
        ] in
        if_ind IsServed cs.is_running (λ on. record { kept = h; fine = tt })
          (λ off.
            initialized-IsServed now (record cs { config = c }) started (reconfigured c cs h) off
              tt)

    handle_restart-IsServed :
        (now : ℤ) (cs : Control F H) → IsControl cs → IsServed (handle_restart fl cpus net now cs)
    unfolding handle_restart restart_after
    handle_restart-IsServed now cs h =
        if_ind IsServed cs.is_running
          (λ on.
            let (o, e) = stop_generator-IsOff cs.worker_pool cs h (h.live on) in
            after_stop (stop_generator cs.worker_pool cs) o e)
          (λ off. initialized-IsServed now cs restarted h off tt)
      where
        after_stop :
            (r : Control F H × StopResult)
            → IsOff cs r.0
            → r.1 ≡ generator_stopped
            → IsServed (restart_after fl cpus net now r)
        after_stop (v, generator_stopped) o e =
            initialized-IsServed now (record v { is_running = false }) restarted
              (off_control cs v h o).0 refl tt
        after_stop (v, pool_refused) o e = absurd (let f : ⊥ = cc in f)
        after_stop (v, stop_panicked) o e = absurd (let f : ⊥ = cc in f)
        after_stop (v, stop_hung) o e = absurd (let f : ⊥ = cc in f)

    put_config-IsServed :
        (c : Option GeneratorConfig) (cs : Control F H) → IsControl cs → IsServed (put_config c cs)
    unfolding put_config
    put_config-IsServed none cs h = record { kept = h; fine = tt }
    put_config-IsServed (some c) cs h = stored (validate_config c)
      where
        stored :
            (r : Result ConfigError GeneratorConfig)
            → let q : Control F H × Reply = elim r [
              | err e ↦ (cs, invalid e)
              | ok d ↦ (record cs { config = d }, saved)
            ] in
              IsServed q
        stored (err e) = record { kept = h; fine = tt }
        stored (ok d) = record { kept = reconfigured d cs h; fine = tt }

    -- Every request keeps the invariant, whatever the network grants, and its answer is neither a
    -- failure to stop, nor an endless wait, nor a refusal of a ready pool to start.
    pub serve-IsServed :
        (r : Request) (cs : Control F H) → IsControl cs → IsServed (serve fl cpus net r cs)
    unfolding serve get_config
    serve-IsServed (start_request now request) cs h = handle_start-IsServed now request cs h
    serve-IsServed stop_request cs h =
        let (k, e, _, _) = handle_stop-IsStopped cs h in
        record { kept = k; fine = rw e (if_ind IsFine cs.is_running (λ _. tt) (λ _. tt)) }
    serve-IsServed (restart_request now) cs h = handle_restart-IsServed now cs h
    serve-IsServed get_request cs h = record { kept = h; fine = tt }
    serve-IsServed (put_request c) cs h = put_config-IsServed c cs h

    serve_all-IsServed :
        (rs : List Request) (cs : Control F H)
        → IsControl cs
        → let (v, answers) = serve_all fl cpus net rs cs in IsControl v × All IsFine answers
    unfolding serve_all
    serve_all-IsServed [] cs h = (h, tt)
    serve_all-IsServed (r ∷ rs) cs h =
        let s = serve-IsServed r cs h in
        let (k, f) = serve_all-IsServed rs (serve fl cpus net r cs).0 s.kept in (k, (s.fine, f))

pub new_server-IsControl :
    {F : Type 0} (H : Type 0) (fl : Float64 F) (now : ℤ) (rt : Runtime)
    → let server : Control F H = new_control_server fl now rt in IsControl server
unfolding new_control_server new_metrics_collector
new_server-IsControl H fl now rt = record {
  live = λ e. cc;
  collecting = record { one_loop = refl; unclosed = λ _. refl };
  stoppable = tt;
}

-- After any requests to a new server, in any order and whatever the network grants, no answer was a
-- failure to stop, an endless wait in a stop, or a refusal of a ready pool to start; and the next
-- handleStop stops the generator if it runs, and else answers that it does not run.
pub serve_all-IsFine :
    {F : Type 0} (H : Type 0) (fl : Float64 F) (cpus : ℕ) (net : ℕ → Network) (now : ℤ)
    (rt : Runtime) (rs : List Request)
    → let server : Control F H = new_control_server fl now rt in
      let (v, answers) = serve_all fl cpus net rs server in
      All IsFine answers × ((handle_stop v).1 ≡ (if v.is_running then stopped else generator_idle))
serve_all-IsFine H fl cpus net now rt rs =
    let (k, f) =
      serve_all-IsServed fl cpus net rs (new_control_server fl now rt)
        (new_server-IsControl H fl now rt) in
    (f, (handle_stop-IsStopped _ k).1)
