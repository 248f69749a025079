-- ===== src/Worker/Loops/Passes.antt =====
-- A pass of whatever send loop a worker of internal/worker runs, for those that watch the worker from
-- outside: what the pass leaves of the worker. The variables of the loop are arguments of its pass.
use log_generator.Float.{Float64}
use log_generator.Prelude.{Bool, List, Option, [], if_ind, none, refl, some, ◌*◌, ◌∙◌, ◌∷◌, ◌≡◌}
use log_generator.Prelude.Int.{leb_ℤ, pos, rounds, ℤ}
use log_generator.Worker.Batch.{
  Round, SendError, count_all, count_sent, deliver, fill_batch, send_batch, send_nonempty,
}
use log_generator.Worker.Eps.{update_eps_metrics}
use log_generator.Worker.Eps.Keeps.{update_eps_metrics-Keeps}
use log_generator.Worker.Loops.{Window, at_least_one}
use log_generator.Worker.Loops.Adaptive.{medium_tick, performance_tick, scaled_batch}
use log_generator.Worker.Loops.Fixed.{fixed_tick, precise_tick, ticker_tick}
use log_generator.Worker.Loops.Stopping.{ready}
use log_generator.Worker.Loops.Timed.{Buffers, Pace, realtime_tick, ultra_pass}
use log_generator.Worker.State.{
  Bytes, Conn, Worker, closed_conn, millisecond, nil_conn, open_conn, time_sub,
}

-- A pass of sendLoop by mode: with the batch and the target set at its start, what the world answers,
-- and the variables of the loop.
pub data Pass (F : Type 0) : Type 0 where
  ticker_pass : Round → Pass F
  precise_pass : ℤ → Round → Pass F
  medium_pass performance_pass : ℤ → ℤ → Round → Window F → Pass F
  ultra_mode_pass : ℤ → Round → Pace → Pass F
  realtime_pass : ℤ → Round → Option (List Bytes) → Buffers → Pass F

-- What a pass leaves alone: the connection, and whether the worker runs and was stopped.
pub record Survives {F : Type 0} (w v : Worker F) : Type 0 where
  pub conn : v.conn ≡ w.conn
  pub is_running : v.is_running ≡ w.is_running
  pub stop_closed : v.stop_closed ≡ w.stop_closed

module _ {F : Type 0} where
  unchanged : (w : Worker F) → Survives w w
  unchanged w = record { conn = refl; is_running = refl; stop_closed = refl }

  afterwards : (u v w : Worker F) → Survives u v → Survives v w → Survives u w
  afterwards u v w f g = record {
    conn = g.conn ∙ f.conn;
    is_running = g.is_running ∙ f.is_running;
    stop_closed = g.stop_closed ∙ f.stop_closed;
  }

  send_nonempty-Survives :
      (write : Bytes → Bool) (c : Conn) (w : Worker F) → Survives w (send_nonempty write c w).0
  unfolding send_nonempty
  send_nonempty-Survives write nil_conn w = unchanged w
  send_nonempty-Survives write open_conn w = record {
    conn = refl;
    is_running = refl;
    stop_closed = refl;
  }
  send_nonempty-Survives write closed_conn w = record {
    conn = refl;
    is_running = refl;
    stop_closed = refl;
  }

  batch-Survives :
      (write : Bytes → Bool) (batch : List Bytes) (w : Worker F)
      → Survives w (send_batch write (record w { batch_buffer = batch })).0
  unfolding send_batch
  batch-Survives write [] w = record { conn = refl; is_running = refl; stop_closed = refl }
  batch-Survives write (l ∷ ls) w =
      let v = record w { batch_buffer = l ∷ ls } in
      let f = send_nonempty-Survives write w.conn v in
      record { conn = f.conn; is_running = f.is_running; stop_closed = f.stop_closed }

  count_all-Survives :
      (n : ℤ) (w : Worker F) (sent : Worker F × Option SendError)
      → Survives w sent.0
      → Survives w (count_all n sent)
  unfolding count_all
  count_all-Survives n w (v, none) f = record {
    conn = f.conn;
    is_running = f.is_running;
    stop_closed = f.stop_closed;
  }
  count_all-Survives n w (v, some e) f = record {
    conn = f.conn;
    is_running = f.is_running;
    stop_closed = f.stop_closed;
  }

  count_sent-Survives :
      (n : ℤ) (w : Worker F) (sent : Worker F × Option SendError)
      → Survives w sent.0
      → Survives w (count_sent n sent)
  unfolding count_sent
  count_sent-Survives n w (v, none) f = record {
    conn = f.conn;
    is_running = f.is_running;
    stop_closed = f.stop_closed;
  }
  count_sent-Survives n w (v, some e) f = f

  -- The worker after a batch of `n` logs, for a loop that counts failures and for one that does not
  counted : (n : ℤ) (r : Round) (w : Worker F) → Survives w (count_all n (deliver r n w))
  unfolding deliver
  counted n r w =
      count_all-Survives n w (deliver r n w)
        (batch-Survives r.write (fill_batch r.log 0 (rounds n)) w)

  counted_sent : (n : ℤ) (r : Round) (w : Worker F) → Survives w (count_sent n (deliver r n w))
  unfolding deliver
  counted_sent n r w =
      count_sent-Survives n w (deliver r n w)
        (batch-Survives r.write (fill_batch r.log 0 (rounds n)) w)

module _ {F : Type 0} (fl : Float64 F) where
  unfoldable pub worker_pass : Pass F → Worker F → Worker F
  worker_pass (ticker_pass r) w = ticker_tick fl r w
  worker_pass (precise_pass n r) w = precise_tick fl n r w
  worker_pass (medium_pass logs target r win) w = (medium_tick fl logs target r (w, win)).0
  worker_pass (performance_pass logs target r win) w =
      (performance_tick fl logs target r (w, win)).0
  worker_pass (ultra_mode_pass target r p) w = (ultra_pass fl target r (w, p)).0
  worker_pass (realtime_pass n r ready b) w = (realtime_tick fl n r ready (w, b)).0

  measured_after :
      (now : ℤ) (w v : Worker F) → Survives w v → Survives w (update_eps_metrics fl now v)
  measured_after now w v f =
      let k = update_eps_metrics-Keeps fl now v in
      record {
        conn = k.conn ∙ f.conn;
        is_running = k.is_running ∙ f.is_running;
        stop_closed = k.stop_closed ∙ f.stop_closed;
      }

  fixed_tick-Survives : (n : ℤ) (r : Round) (w : Worker F) → Survives w (fixed_tick fl n r w)
  unfolding fixed_tick
  fixed_tick-Survives n r w =
      measured_after (r.now 0) w (count_all n (deliver r n w)) (counted n r w)

  pub worker_pass-Survives : (p : Pass F) (w : Worker F) → Survives w (worker_pass p w)
  unfolding worker_pass ticker_tick precise_tick medium_tick performance_tick ultra_pass
      realtime_tick
  worker_pass-Survives (ticker_pass r) w = fixed_tick-Survives w.batch_size r w
  worker_pass-Survives (precise_pass n r) w = fixed_tick-Survives n r w
  worker_pass-Survives (medium_pass logs target r win) w =
      let n = at_least_one (pos 1) (scaled_batch fl logs win.factor) in
      measured_after (r.now 2) w (count_sent n (deliver r n w)) (counted_sent n r w)
  worker_pass-Survives (performance_pass logs target r win) w =
      let n = at_least_one (pos 1) (scaled_batch fl logs win.factor) in
      let v = count_sent n (deliver r n w) in
      if_ind (Survives w) (leb_ℤ (pos (100 * millisecond)) (time_sub (r.now 2) v.last_metric_time))
        (λ _. measured_after (r.now 3) w v (counted_sent n r w)) (λ _. counted_sent n r w)
  worker_pass-Survives (ultra_mode_pass target r p) w = counted p.logs_per_batch r w
  worker_pass-Survives (realtime_pass n r ready b) w =
      count_all-Survives n w (send_batch r.write (record w { batch_buffer = b.current }))
        (batch-Survives r.write b.current w)
