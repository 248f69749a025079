-- ===== src/Monitor/Machine.antt =====
-- The control server of internal/monitor/control_server.go as its clients see it: a machine with one
-- bit, whether the generator runs, which the answers tell.
use log_generator.Float.{Float64}
use log_generator.Monitor.Control.{
  ConfigError, Control, GeneratorConfig, InitResult, Reply, StartRequest, StopResult, apply_request,
  config_is, generator_idle, generator_ready, generator_running, generator_stopped, handler_hung,
  handler_panicked, init_failed, invalid, make_panicked, no_profile, parse_failed, pool_failed,
  pool_refused, restarted, saved, start_failed, started, stop_failed, stop_hung, stop_panicked,
  stopped, validate_config,
}
use log_generator.Monitor.Handlers.{
  after_init, get_config, handle_restart, handle_start, handle_stop, init_reply,
  initialize_generator, put_config, restart_after, stop_generator,
}
use log_generator.Monitor.Invariant.{IsControl, IsPrepared, initialize_generator-IsPrepared}
use log_generator.Monitor.Requests.{
  Request, get_request, handle_stop-IsStopped, off_control, put_request, reconfigured,
  restart_request, serve, serve_all, start_request, stop_request,
}
use log_generator.Monitor.Sequences.{serve-IsServed}
use log_generator.Monitor.Service.{IsOff, after_init-ready, stop_generator-IsOff}
use log_generator.Pool.Initialize.{divided_by_zero, initialized, pool_running, worker_failed}
use log_generator.Prelude.{
  Bool, Bool-cases, List, Option, [], ap, false, if_ind, if◌then◌else◌, inl, inr, none, refl, some,
  sym, true, ℕ, ◌∙◌, ◌∷◌, ◌≡◌, ◌≢◌,
}
use log_generator.Prelude.Int.{ℤ}
use log_generator.Prelude.Result.{Result, err, ok}
use log_generator.Worker.Batch.Delivery.{answer}
use log_generator.Worker.State.{Network}

-- What a client concludes of an answer, if it knew the bit before.
unfoldable pub told : Reply → Bool → Bool
told started b = true
told restarted b = true
told generator_running b = true
told stopped b = false
told generator_idle b = false
told handler_panicked b = false
told handler_hung b = false
told stop_failed b = b
told start_failed b = false
told (init_failed r) b = false
told saved b = b
told parse_failed b = b
told (invalid e) b = b
told (config_is c) b = b

unfoldable pub told_all : List Reply → Bool → Bool
told_all [] b = b
told_all (r ∷ rs) b = told_all rs (told r b)

told-init_reply : (r : InitResult) (b : Bool) → r ≢ generator_ready → told (init_reply r) b ≡ false
unfolding told init_reply
told-init_reply generator_ready b ne = absurd (ne refl)
told-init_reply make_panicked b ne = refl
told-init_reply (no_profile e) b ne = refl
told-init_reply (pool_failed initialized) b ne = refl
told-init_reply (pool_failed pool_running) b ne = refl
told-init_reply (pool_failed divided_by_zero) b ne = refl
told-init_reply (pool_failed (worker_failed i e)) b ne = refl

told-stop : (on b : Bool) → told (if on then stopped else generator_idle) b ≡ false
unfolding told
told-stop true b = refl
told-stop false b = refl

module _ {F H : Type 0} where
  -- The bit of a state is what the answer tells.
  abbrev IsTold : Bool → Control F H × Reply → Type 0
  IsTold b (cs, answer) = cs.is_running ≡ told answer b

  after_init-IsTold :
      (now : ℤ) (r : Control F H × InitResult) (reply : Reply) (b : Bool)
      → IsPrepared r
      → told reply b ≡ true
      → IsTold b (after_init now r reply)
  after_init-IsTold now (cs, generator_ready) reply b h e =
      let (_, same, on) = after_init-ready now cs reply h in on ∙ sym (ap (λ a. told a b) same ∙ e)
  after_init-IsTold now (cs, make_panicked) reply b h e =
      unfold after_init in h.idle ∙ sym (told-init_reply make_panicked b (λ f. cc))
  after_init-IsTold now (cs, no_profile x) reply b h e =
      unfold after_init in h.idle ∙ sym (told-init_reply (no_profile x) b (λ f. cc))
  after_init-IsTold now (cs, pool_failed x) reply b h e =
      unfold after_init in h.idle ∙ sym (told-init_reply (pool_failed x) b (λ f. cc))

  module _ (fl : Float64 F) (cpus : ℕ) (net : ℕ → Network) where
    initialized-IsTold :
        (now : ℤ) (cs : Control F H) (reply : Reply) (b : Bool)
        → IsControl cs
        → cs.is_running ≡ false
        → told reply b ≡ true
        → IsTold b (after_init now (initialize_generator fl cpus net now cs) reply)
    initialized-IsTold now cs reply b h idle e =
        after_init-IsTold now (initialize_generator fl cpus net now cs) reply b
          (initialize_generator-IsPrepared fl cpus net now cs h idle) e

    handle_start-IsTold :
        (now : ℤ) (request : Option StartRequest) (cs : Control F H)
        → IsControl cs
        → IsTold cs.is_running (handle_start fl cpus net now request cs)
    unfolding handle_start told
    handle_start-IsTold now request cs h =
        let c : GeneratorConfig = elim request [
          | none ↦ cs.config
          | some r ↦ apply_request r cs.config
        ] in
        if_ind (IsTold cs.is_running) cs.is_running (λ on. on)
          (λ off.
            initialized-IsTold now (record cs { config = c }) started cs.is_running
              (reconfigured c cs h) off refl)

    handle_restart-IsTold :
        (now : ℤ) (cs : Control F H)
        → IsControl cs
        → IsTold cs.is_running (handle_restart fl cpus net now cs)
    unfolding handle_restart restart_after told
    handle_restart-IsTold now cs h =
        if_ind (IsTold cs.is_running) cs.is_running
          (λ on.
            let (o, e) = stop_generator-IsOff cs.worker_pool cs h (h.live on) in
            after_stop (stop_generator cs.worker_pool cs) o e)
          (λ off. initialized-IsTold now cs restarted cs.is_running h off refl)
      where
        after_stop :
            (r : Control F H × StopResult)
            → IsOff cs r.0
            → r.1 ≡ generator_stopped
            → IsTold cs.is_running (restart_after fl cpus net now r)
        after_stop (v, generator_stopped) o e =
            initialized-IsTold now (record v { is_running = false }) restarted cs.is_running
              (off_control cs v h o).0 refl refl
        after_stop (v, pool_refused) o e = absurd (let f : ⊥ = cc in f)
        after_stop (v, stop_panicked) o e = absurd (let f : ⊥ = cc in f)
        after_stop (v, stop_hung) o e = absurd (let f : ⊥ = cc in f)

    handle_stop-IsTold : (cs : Control F H) → IsControl cs → IsTold cs.is_running (handle_stop cs)
    unfolding told
    handle_stop-IsTold cs h =
        let (_, e, down, same) = handle_stop-IsStopped cs h in
        let off = sym (ap (λ a. told a cs.is_running) e ∙ told-stop cs.is_running cs.is_running) in
        elim (Bool-cases cs.is_running) [
          | inl on ↦ (down on).not_running ∙ off
          | inr idle ↦ ap (λ (v : Control F H). v.is_running) (same idle) ∙ idle ∙ off
        ]

    put_config-IsTold :
        (c : Option GeneratorConfig) (cs : Control F H) → IsTold cs.is_running (put_config c cs)
    unfolding put_config told
    put_config-IsTold none cs = refl
    put_config-IsTold (some c) cs = stored (validate_config c)
      where
        stored :
            (r : Result ConfigError GeneratorConfig)
            → let q : Control F H × Reply = elim r [
              | err e ↦ (cs, invalid e)
              | ok d ↦ (record cs { config = d }, saved)
            ] in
              IsTold cs.is_running q
        stored (err e) = refl
        stored (ok d) = refl

    serve-IsTold :
        (r : Request) (cs : Control F H)
        → IsControl cs
        → IsTold cs.is_running (serve fl cpus net r cs)
    unfolding serve get_config told
    serve-IsTold (start_request now request) cs h = handle_start-IsTold now request cs h
    serve-IsTold stop_request cs h = handle_stop-IsTold cs h
    serve-IsTold (restart_request now) cs h = handle_restart-IsTold now cs h
    serve-IsTold get_request cs h = refl
    serve-IsTold (put_request c) cs h = put_config-IsTold c cs

    -- The answers to any requests, in any order and whatever the network grants, tell whether the
    -- generator runs: a client that starts with what the server knows and reads only the answers ends
    -- with what the server knows.
    pub serve_all-IsTold :
        (rs : List Request) (cs : Control F H)
        → IsControl cs
        → let (v, answers) = serve_all fl cpus net rs cs in
          v.is_running ≡ told_all answers cs.is_running
    unfolding serve_all told_all
    serve_all-IsTold [] cs h = refl
    serve_all-IsTold (r ∷ rs) cs h =
        let v = (serve fl cpus net r cs).0 in
        serve_all-IsTold rs v (serve-IsServed fl cpus net r cs h).kept
        ∙ ap (told_all (serve_all fl cpus net rs v).1) (serve-IsTold r cs h)
