-- ===== src/Pool/Settings.antt =====
-- What the settings that Initialize of internal/worker/worker_pool.go makes on a worker leave alone.
use log_generator.Config.Profiles.{EpsProfile}
use log_generator.Float.{Float64}
use log_generator.Pool.Initialize.{configure}
use log_generator.Prelude.{
  Bool, String, arith, false, if_ind, if◌then◌else◌, refl, str_eq, true, ◌∙◌, ◌≡◌,
}
use log_generator.Prelude.Int.{leb_ℤ, ltb_ℤ, mul64, pos, quot, ℤ}
use log_generator.Worker.State.{
  Worker, adjust_pid_for_profile, set_buffer_sizes, set_precision_mode, set_target_eps,
}

module _ {F : Type 0} (fl : Float64 F) where
  -- What the settings of Initialize leave alone.
  pub record Same (w v : Worker F) : Type 0 where
    pub id : v.id ≡ w.id
    pub port : v.port ≡ w.port
    pub batch_size : v.batch_size ≡ w.batch_size
    pub is_running : v.is_running ≡ w.is_running
    pub stop_closed : v.stop_closed ≡ w.stop_closed
    pub conn : v.conn ≡ w.conn
    pub eps_counts : v.eps_counts ≡ w.eps_counts
    pub eps_index : v.eps_index ≡ w.eps_index
    pub target_eps : v.target_eps ≡ w.target_eps
    pub ticker_interval : v.ticker_interval ≡ w.ticker_interval
    pub adaptive_control : v.adaptive_control ≡ w.adaptive_control

  adjust_pid-Same : (target : ℤ) (w : Worker F) → Same w (adjust_pid_for_profile fl target w)
  unfolding adjust_pid_for_profile
  adjust_pid-Same target w =
      if_ind (Same w) (leb_ℤ target (pos 20_000)) (λ _. ground arith)
        λ _.
          if_ind (Same w) (leb_ℤ target (pos 50_000)) (λ _. ground arith)
            λ _. if_ind (Same w) (leb_ℤ target (pos 70_000)) (λ _. ground arith) (λ _. ground arith)

  Same-trans : {u v w : Worker F} → Same u v → Same v w → Same u w
  Same-trans a b = record {
    id = b.id ∙ a.id;
    port = b.port ∙ a.port;
    batch_size = b.batch_size ∙ a.batch_size;
    is_running = b.is_running ∙ a.is_running;
    stop_closed = b.stop_closed ∙ a.stop_closed;
    conn = b.conn ∙ a.conn;
    eps_counts = b.eps_counts ∙ a.eps_counts;
    eps_index = b.eps_index ∙ a.eps_index;
    target_eps = b.target_eps ∙ a.target_eps;
    ticker_interval = b.ticker_interval ∙ a.ticker_interval;
    adaptive_control = b.adaptive_control ∙ a.adaptive_control;
  }

  Same-paced :
      {u v : Worker F} (b c l : ℤ) (x y : F)
      → Same u v
      → Same u (record v {
        batch_interval = b;
        control_interval = c;
        last_control_time = l;
        pid_integral = x;
        pid_last_error = y;
      })
  Same-paced b c l x y h = record {
    id = h.id;
    port = h.port;
    batch_size = h.batch_size;
    is_running = h.is_running;
    stop_closed = h.stop_closed;
    conn = h.conn;
    eps_counts = h.eps_counts;
    eps_index = h.eps_index;
    target_eps = h.target_eps;
    ticker_interval = h.ticker_interval;
    adaptive_control = h.adaptive_control;
  }

  set_target_eps-Same :
      (now target : ℤ) (w : Worker F)
      → Same
          (record w { target_eps = target; adaptive_control = ltb_ℤ (pos 0) target })
          (set_target_eps fl now target w)
  unfolding set_target_eps
  set_target_eps-Same now target w =
      let start = record w { target_eps = target; adaptive_control = ltb_ℤ (pos 0) target } in
      if_ind (Same start) (ltb_ℤ (pos 0) target)
        (λ _. Same-paced _ _ _ _ _ (adjust_pid-Same target start)) (λ _. ground arith)

  -- Everything but the target as in `w`, and the target `t`, with the control on if it is positive.
  abbrev pub Targeted : ℤ → Worker F → Worker F → Type 0
  Targeted t w v = Same (record w { target_eps = t; adaptive_control = ltb_ℤ (pos 0) t }) v

  sized_Same :
      (b : Bool) (send recv : ℤ) (w : Worker F)
      → Same w (if b then set_buffer_sizes fl send recv w else w)
  unfolding set_buffer_sizes
  sized_Same b send recv w = if_ind (Same w) b (λ _. ground arith) (λ _. ground arith)

  retarget :
      (t : ℤ) (w v : Worker F)
      → Same w v
      → Targeted t w (record v { target_eps = t; adaptive_control = ltb_ℤ (pos 0) t })
  retarget t w v h = record {
    id = h.id;
    port = h.port;
    batch_size = h.batch_size;
    is_running = h.is_running;
    stop_closed = h.stop_closed;
    conn = h.conn;
    eps_counts = h.eps_counts;
    eps_index = h.eps_index;
    target_eps = refl;
    ticker_interval = h.ticker_interval;
    adaptive_control = refl;
  }

  moded_Same :
      (b : Bool) (mode : String) (w v : Worker F)
      → Same w v
      → Same w (if b then v else set_precision_mode fl mode v)
  unfolding set_precision_mode
  moded_Same true mode w v h = h
  moded_Same false mode w v h = record {
    id = h.id;
    port = h.port;
    batch_size = h.batch_size;
    is_running = h.is_running;
    stop_closed = h.stop_closed;
    conn = h.conn;
    eps_counts = h.eps_counts;
    eps_index = h.eps_index;
    target_eps = h.target_eps;
    ticker_interval = h.ticker_interval;
    adaptive_control = h.adaptive_control;
  }

  pub configure-Targeted :
      (now : ℤ) (profile : EpsProfile) (count : ℤ) (w : Worker F)
      → Targeted (quot profile.target_eps count) w (configure fl now profile count w)
  unfolding configure
  configure-Targeted now profile count w =
      let t = quot profile.target_eps count in
      let sized =
        if ltb_ℤ (pos 0) profile.send_buffer_size
        then set_buffer_sizes fl (mul64 profile.send_buffer_size (pos 1024))
            (mul64 profile.receive_buffer_size (pos 1024)) w
        else w in
      moded_Same (str_eq profile.precision_mode "") profile.precision_mode _ _ (
        Same-trans (retarget t w sized (sized_Same (ltb_ℤ (pos 0) profile.send_buffer_size) _ _ w))
          (set_target_eps-Same now t sized))

  pub configure-precision_mode :
      (now : ℤ) (profile : EpsProfile) (count : ℤ) (w : Worker F)
      → str_eq profile.precision_mode "" ≡ false
      → (configure fl now profile count w).precision_mode ≡ profile.precision_mode
  unfolding configure set_precision_mode
  configure-precision_mode now profile count w named = rw named refl
