-- ===== src/Worker/Pid.antt =====
-- runPIDControl in internal/worker/udp_worker.go, over an interface of float64.
-- The order of the tests in each limit is the source's.
use log_generator.Float.{Float64}
use log_generator.Float.Clamp.{high_first, low_first}
use log_generator.Prelude.{
  Bool-cases, arith, false, if◌then◌else◌, inl, inr, not, true, ◌*◌, ◌||◌, ◌≡◌, ◌≢◌, ◌⊎◌,
}
use log_generator.Prelude.Int.{eq_of_parts, eqb_ℤ, ltb_ℤ, pos, sub64, ℤ, ◌<ℤ◌, ◌≤ℤ◌}
use log_generator.Worker.State.{Worker, microsecond, millisecond, time_sub}

module _ {F : Type 0} (fl : Float64 F) where
  -- The integral term with its anti-windup limit of ten times the target.
  unfoldable pub next_integral : ℤ → F → F → F
  next_integral target integral error =
      let max_integral = fl.mul (fl.of_int target) (fl.of_int (pos 10)) in
      high_first fl (fl.neg max_integral) max_integral (fl.add integral error)

  -- The factor of the batch interval: one minus the output, between 0.5 and 2.0.
  unfoldable pub pid_adjustment : F → F
  pid_adjustment output =
      low_first fl (fl.decimal (pos 5) 1) (fl.decimal (pos 20) 1)
        (fl.sub (fl.of_int (pos 1)) output)

  abbrev pub min_interval : ℤ
  min_interval = pos (10 * microsecond)

  abbrev pub max_interval : ℤ
  max_interval = pos (100 * millisecond)

  -- The limits of the batch interval.
  unfoldable pub limit_interval : ℤ → ℤ
  limit_interval interval =
      if ltb_ℤ interval min_interval
      then min_interval
      else if ltb_ℤ max_interval interval
      then max_interval
      else interval

  -- The round of the controller that is due.
  unfoldable pub pid_round : ℤ → Worker F → Worker F
  pid_round now w =
      let error = fl.of_int (sub64 w.target_eps w.current_eps) in
      let integral = next_integral w.target_eps w.pid_integral error in
      let output =
        fl.add (fl.add (fl.mul w.pid_kp error) (fl.mul w.pid_ki integral))
          (fl.mul w.pid_kd (fl.sub error w.pid_last_error)) in
      record w {
        pid_integral = integral;
        pid_last_error = error;
        batch_interval =
            limit_interval
              (fl.to_int (fl.mul (fl.of_int w.batch_interval) (pid_adjustment output)));
        last_control_time = now;
      }

  -- runPIDControl, at the time `now`
  unfoldable pub run_pid_control : ℤ → Worker F → Worker F
  run_pid_control now w =
      if not w.adaptive_control || eqb_ℤ w.target_eps (pos 0)
      then w
      else if ltb_ℤ (time_sub now w.last_control_time) w.control_interval
      then w
      else pid_round now w

  -- What a round of the controller guarantees.
  pub record IsControlled (target : ℤ) (w : Worker F) : Type 0 where
    pub low : min_interval ≤ℤ w.batch_interval
    pub high : w.batch_interval ≤ℤ max_interval
    pub no_windup : fl.lt (fl.mul (fl.of_int target) (fl.of_int (pos 10))) w.pid_integral ≡ false

  module _ (irrefl : (x : F) → fl.lt x x ≡ false) where
    pid_round-IsControlled :
        (now : ℤ) (w : Worker F)
        → fl.lt
            (fl.mul (fl.of_int w.target_eps) (fl.of_int (pos 10)))
            (fl.neg (fl.mul (fl.of_int w.target_eps) (fl.of_int (pos 10))))
          ≡ false
        → IsControlled w.target_eps (pid_round now w)
    unfolding pid_round limit_interval next_integral
    pid_round-IsControlled now w h = record {
      low = ground arith;
      high = ground arith;
      no_windup = ground (
        arith,
        irrefl (fl.mul (fl.of_int w.target_eps) (fl.of_int (pos 10))),
        irrefl (fl.neg (fl.mul (fl.of_int w.target_eps) (fl.of_int (pos 10)))),
      );
    }

    -- The controller acts exactly when it is on, has a target and its interval has passed. Then the
    -- batch interval ends within 10 microseconds and 100 ms and the integral is not above its limit,
    -- if no float is below itself and the limit is not below its negative. Else nothing changes.
    pub run_pid_control_lem :
        (now : ℤ) (w : Worker F)
        → fl.lt
            (fl.mul (fl.of_int w.target_eps) (fl.of_int (pos 10)))
            (fl.neg (fl.mul (fl.of_int w.target_eps) (fl.of_int (pos 10))))
          ≡ false
        → ((w.adaptive_control ≡ true)
            × (w.target_eps ≢ pos 0)
            × (w.control_interval ≤ℤ time_sub now w.last_control_time)
            × (run_pid_control now w ≡ pid_round now w)
            × IsControlled w.target_eps (run_pid_control now w))
          ⊎ ((run_pid_control now w ≡ w)
              × ((w.adaptive_control ≡ false)
                  ⊎ (w.target_eps ≡ pos 0)
                  ⊎ (time_sub now w.last_control_time <ℤ w.control_interval)))
    unfolding run_pid_control
    run_pid_control_lem now w h =
        elim (Bool-cases (not w.adaptive_control || eqb_ℤ w.target_eps (pos 0))) [
          | inl off ↦ inr (rw off, ground (arith, eq_of_parts w.target_eps (pos 0)))
          | inr on ↦
              elim (Bool-cases (ltb_ℤ (time_sub now w.last_control_time) w.control_interval)) [
                | inl early ↦ inr (rw (on, early), ground arith)
                | inr late ↦ inl (
                  ground arith,
                  ground arith,
                  ground arith,
                  rw (on, late),
                  rw (on, late) (pid_round-IsControlled now w h),
                )
              ]
        ]
