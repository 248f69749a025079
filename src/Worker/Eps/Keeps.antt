-- ===== src/Worker/Eps/Keeps.antt =====
-- What a measurement of internal/worker/udp_worker.go leaves alone.
use log_generator.Float.{Float64}
use log_generator.Prelude.{if_ind, not, refl, ◌&&◌, ◌*◌, ◌≡◌}
use log_generator.Prelude.Int.{eqb_ℤ, leb_ℤ, ltb_ℤ, pos, ℤ}
use log_generator.Worker.Eps.{record_eps, update_eps_metrics}
use log_generator.Worker.State.{Worker, millisecond, time_sub, zero_time}

-- The connection, the life, the totals and the batch settings of `v` are those of `w`.
pub record Keeps {F : Type 0} (w v : Worker F) : Type 0 where
  pub conn : v.conn ≡ w.conn
  pub is_running : v.is_running ≡ w.is_running
  pub stop_closed : v.stop_closed ≡ w.stop_closed
  pub total_sent : v.total_sent ≡ w.total_sent
  pub error_count : v.error_count ≡ w.error_count
  pub batch_size : v.batch_size ≡ w.batch_size

module _ {F : Type 0} (fl : Float64 F) where
  pub update_eps_metrics-Keeps : (now : ℤ) (w : Worker F) → Keeps w (update_eps_metrics fl now w)
  unfolding update_eps_metrics record_eps
  update_eps_metrics-Keeps now w =
      if_ind (Keeps w) (leb_ℤ (pos (100 * millisecond)) (time_sub now w.last_metric_time))
        (λ late.
          let kept =
            if_ind (Keeps w)
              (not (eqb_ℤ w.last_metric_time zero_time) && ltb_ℤ (pos 0) w.last_total_sent)
              (λ _. record {
                conn = refl;
                is_running = refl;
                stop_closed = refl;
                total_sent = refl;
                error_count = refl;
                batch_size = refl;
              })
              (λ _. record {
                conn = refl;
                is_running = refl;
                stop_closed = refl;
                total_sent = refl;
                error_count = refl;
                batch_size = refl;
              }) in
          record {
            conn = kept.conn;
            is_running = kept.is_running;
            stop_closed = kept.stop_closed;
            total_sent = kept.total_sent;
            error_count = kept.error_count;
            batch_size = kept.batch_size;
          })
        (λ _. record {
          conn = refl;
          is_running = refl;
          stop_closed = refl;
          total_sent = refl;
          error_count = refl;
          batch_size = refl;
        })
