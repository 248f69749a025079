-- ===== src/Monitor/Restarting.antt =====
-- handleRestart of internal/monitor/control_server.go against handleStop and handleStart.
use log_generator.Float.{Float64}
use log_generator.Monitor.Control.{
  Control, InitResult, Reply, StopResult, generator_idle, generator_ready, generator_stopped,
  make_panicked, no_profile, pool_failed, pool_refused, restarted, start_failed, started, stop_hung,
  stop_panicked,
}
use log_generator.Monitor.Handlers.{
  after_init, handle_restart, handle_start, handle_stop, init_reply, initialize_generator,
  restart_after, start_generator, stop_generator, stop_reply,
}
use log_generator.Monitor.Invariant.{IsControl}
use log_generator.Monitor.Service.{stop_generator-IsOff}
use log_generator.Pool.Initialize.{divided_by_zero, initialized, pool_running, worker_failed}
use log_generator.Prelude.{
  Bool, Bool-cases, ap, false, if◌then◌else◌, inl, inr, none, refl, sym, true, ℕ, ◌∙◌, ◌≡◌, ◌≢◌,
}
use log_generator.Prelude.Int.{ℤ}
use log_generator.Worker.Batch.Delivery.{answer}
use log_generator.Worker.State.{Network}

-- The answer of a restart, for that of a start.
unfoldable pub renamed : Reply → Reply
renamed started = restarted
renamed r = r

renamed-init_reply : (r : InitResult) → r ≢ generator_ready → renamed (init_reply r) ≡ init_reply r
unfolding renamed init_reply
renamed-init_reply generator_ready ne = absurd (ne refl)
renamed-init_reply make_panicked ne = refl
renamed-init_reply (no_profile e) ne = refl
renamed-init_reply (pool_failed initialized) ne = refl
renamed-init_reply (pool_failed pool_running) ne = refl
renamed-init_reply (pool_failed divided_by_zero) ne = refl
renamed-init_reply (pool_failed (worker_failed i e)) ne = refl

module _ {F H : Type 0} where
  abbrev restarts : Control F H × Reply → Control F H × Reply
  restarts (v, answer) = (v, renamed answer)

  after_init-renamed :
      (now : ℤ) (r : Control F H × InitResult)
      → after_init now r restarted ≡ restarts (after_init now r started)
  unfolding after_init
  after_init-renamed now (cs, generator_ready) = by_start (start_generator now cs.worker_pool cs)
    where
      by_start :
          (r : Control F H × Bool)
          → let on : Control F H = record r.0 { is_running = true } in
            let again : Control F H × Reply =
              if r.1 then (on, restarted) else (r.0, start_failed) in
            let first : Control F H × Reply = if r.1 then (on, started) else (r.0, start_failed) in
            again ≡ restarts first
      by_start (v, true) = unfold renamed in refl
      by_start (v, false) = unfold renamed in refl
  after_init-renamed now (cs, make_panicked) =
      ap (λ a. (cs, a)) (sym (renamed-init_reply make_panicked (λ f. cc)))
  after_init-renamed now (cs, no_profile x) =
      ap (λ a. (cs, a)) (sym (renamed-init_reply (no_profile x) (λ f. cc)))
  after_init-renamed now (cs, pool_failed x) =
      ap (λ a. (cs, a)) (sym (renamed-init_reply (pool_failed x) (λ f. cc)))

  module _ (fl : Float64 F) (cpus : ℕ) (net : ℕ → Network) (now : ℤ) where
    start_idle :
        (cs : Control F H)
        → cs.is_running ≡ false
        → handle_start fl cpus net now none cs
          ≡ after_init now (initialize_generator fl cpus net now cs) started
    unfolding handle_start initialize_generator
    start_idle cs off = simp off refl

    restart_stopped :
        (r : Control F H × StopResult)
        → r.1 ≡ generator_stopped
        → restart_after fl cpus net now r
          ≡ restarts (handle_start fl cpus net now none (stop_reply r).0)
    unfolding restart_after stop_reply
    restart_stopped (v, generator_stopped) e =
        let w = record v { is_running = false } in
        after_init-renamed now (initialize_generator fl cpus net now w)
        ∙ ap restarts (sym (start_idle w refl))
    restart_stopped (v, pool_refused) e = absurd (let f : ⊥ = cc in f)
    restart_stopped (v, stop_panicked) e = absurd (let f : ⊥ = cc in f)
    restart_stopped (v, stop_hung) e = absurd (let f : ⊥ = cc in f)

    -- handleRestart does what handleStop and a handleStart without a body do one after the other, with
    -- the same state and the same failures; only the answer of a success differs.
    pub handle_restart-eq :
        (cs : Control F H)
        → IsControl cs
        → let (v, answer) = handle_start fl cpus net now none (handle_stop cs).0 in
          handle_restart fl cpus net now cs ≡ (v, renamed answer)
    handle_restart-eq cs h = elim (Bool-cases cs.is_running) [
      | inl on ↦
          let (_, e) = stop_generator-IsOff cs.worker_pool cs h (h.live on) in
          let r = stop_generator cs.worker_pool cs in
          let stop_first : handle_stop cs ≡ stop_reply r = unfold handle_stop in rw on refl in
          let restart_first : handle_restart fl cpus net now cs ≡ restart_after fl cpus net now r =
            unfold handle_restart in rw on refl in
          restart_first
          ∙ restart_stopped r e
          ∙ ap (λ (q : Control F H × Reply). restarts (handle_start fl cpus net now none q.0))
              (sym stop_first)
      | inr off ↦
          let stop_first : handle_stop cs ≡ (cs, generator_idle) =
            unfold handle_stop in rw off refl in
          let restart_first : handle_restart fl cpus net now cs
              ≡ after_init now (initialize_generator fl cpus net now cs) restarted =
            unfold handle_restart in rw off refl in
          restart_first
          ∙ after_init-renamed now (initialize_generator fl cpus net now cs)
          ∙ ap restarts (sym (start_idle cs off))
          ∙ ap (λ (q : Control F H × Reply). restarts (handle_start fl cpus net now none q.0))
              (sym stop_first)
    ]
