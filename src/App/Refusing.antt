-- ===== src/App/Refusing.antt =====
-- Start of the application of cmd/main.go on every network.
use log_generator.App.{App}
use log_generator.App.Measuring.{after_initialize-IsSame}
use log_generator.App.Running.{
  AppOutcome, app_running, begin, start_app, start_optimization, start_workers_of,
}
use log_generator.Config.Optimizer.{MemoryOptimizer}
use log_generator.Float.{Float64}
use log_generator.Pool.Initialize.{initialize}
use log_generator.Prelude.{Option, if_ind, none, refl, some, true, ℕ, ◌∙◌, ◌≡◌}
use log_generator.Prelude.Int.{ℤ}
use log_generator.Worker.State.{Network}

module _ {F H M : Type 0} where
  optimization-is_running :
      (o : Option MemoryOptimizer) (a : App F H M)
      → (start_optimization o a).is_running ≡ a.is_running
  unfolding start_optimization
  optimization-is_running none a = refl
  optimization-is_running (some o) a = refl

  begin-is_running : (now : ℤ) (a : App F H M) → (begin now a).is_running ≡ true
  unfolding begin
  begin-is_running now a =
      optimization-is_running a.optimizer (record a { start_time = now; is_running = true })

  start_app-on :
      (fl : Float64 F) (net : ℕ → Network) (later : ℤ) (a : App F H M)
      → a.is_running ≡ true
      → start_app fl net later a ≡ (a, app_running)
  unfolding start_app
  start_app-on fl net later a on = rw (start_app, on) refl

  -- Whatever the network grants, and whether Start succeeds or fails, the application counts as running
  -- after it, and a second Start is refused and changes nothing.
  pub start_app-refuses :
      (fl : Float64 F) (net later_net : ℕ → Network) (now later : ℤ) (a : App F H M)
      → let b = (start_app fl net now a).0 in
        (b.is_running ≡ true) × (start_app fl later_net later b ≡ (b, app_running))
  unfolding start_app start_workers_of
  start_app-refuses fl net later_net now later a =
      let b = begin now a in
      let r = initialize fl net now b.pool in
      let on : (start_app fl net now a).0.is_running ≡ true =
        if_ind (λ (r : App F H M × AppOutcome). r.0.is_running ≡ true) a.is_running (λ on. on)
          (λ _.
            (after_initialize-IsSame now r.1 (record b { pool = r.0 })).2
            ∙ begin-is_running now a) in
      (on, start_app-on fl later_net later (start_app fl net now a).0 on)
