-- ===== src/Worker/Lifecycle/Cycle.antt =====
-- The life of a worker of internal/worker/udp_worker.go: it can be started and stopped once.
use log_generator.Prelude.{Bool, false, refl, true, ◌||◌, ◌≡◌}
use log_generator.Worker.Lifecycle.{
  cleanup, close_and_wait, not_running, panicked, refused, start, stop, succeeded,
}
use log_generator.Worker.Loops.{send_mode}
use log_generator.Worker.Loops.Stopping.{reaches, watches_stop}
use log_generator.Worker.State.{Worker, closed_conn, open_conn}

module _ {F : Type 0} where
  -- A fresh worker, or one that has not been stopped yet, and does not run.
  pub record IsFresh (w : Worker F) : Type 0 where
    pub idle : w.is_running ≡ false
    pub unstopped : w.stop_closed ≡ false
    pub connected : w.conn ≡ open_conn

  -- A worker after a Stop that returned.
  pub record IsSpent (w : Worker F) : Type 0 where
    pub idle : w.is_running ≡ false
    pub stopped : w.stop_closed ≡ true
    pub disconnected : w.conn ≡ closed_conn

  send_mode-is_running :
      (b : Bool) (w : Worker F) → send_mode (record w { is_running = b }) ≡ send_mode w
  unfolding send_mode
  send_mode-is_running b w = refl

  pub close_and_wait-succeeded :
      (c : Bool) (w : Worker F)
      → w.stop_closed ≡ false
      → c || watches_stop (send_mode w) ≡ true
      → close_and_wait c w ≡ (cleanup (record w { stop_closed = true }), succeeded)
  unfolding close_and_wait reaches
  close_and_wait-succeeded c w h k = simp (h, k)

  cleanup-IsSpent :
      (w : Worker F)
      → w.is_running ≡ false
      → w.conn ≡ open_conn
      → IsSpent (cleanup (record w { stop_closed = true }))
  unfolding cleanup
  cleanup-IsSpent w h k = record { idle = h; stopped = refl; disconnected = rw k }

  pub stop-running :
      (c : Bool) (w : Worker F)
      → w.is_running ≡ true
      → stop c w ≡ close_and_wait c (record w { is_running = false })
  unfolding stop
  stop-running c w h = rw h

  pub start-idle :
      (w : Worker F) → w.is_running ≡ false → start w ≡ (record w { is_running = true }, succeeded)
  unfolding start
  start-idle w h = rw h

  -- A worker that was started from a fresh one, and is stopped where a signal reaches its loop.
  pub stop-spends :
      (c : Bool) (w : Worker F)
      → w.stop_closed ≡ false
      → w.conn ≡ open_conn
      → c || watches_stop (send_mode w) ≡ true
      → let s = stop c (record w { is_running = true }) in (s.1 ≡ succeeded) × IsSpent s.0
  stop-spends c w h k e =
      let idle = record w { is_running = false } in
      rw
        (
          stop-running c (record w { is_running = true }) refl,
          close_and_wait-succeeded c idle h (rw (send_mode-is_running false w) e),
        )
        (refl, cleanup-IsSpent idle refl k)

  -- A stopped worker refuses Stop, starts again, and panics at the Stop that follows.
  pub stop-start_again :
      (cancelled : Bool) (w : Worker F)
      → IsSpent w
      → (stop cancelled w ≡ (w, refused not_running))
        × ((start w).1 ≡ succeeded)
        × ((stop cancelled (start w).0).1 ≡ panicked)
  unfolding start stop close_and_wait
  stop-start_again cancelled w s = rw (s.idle, s.stopped) (refl, refl, refl)
