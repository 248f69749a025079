-- ===== src/Worker/Loops.antt =====
-- The send loops of internal/worker/udp_worker.go and udp_worker_ultra.go. A step of a loop is one
-- pass of its `select` that sends a batch; the children have the steps, and the theorems on them.
pub mod Fixed
pub mod Adaptive
pub mod Timed
pub mod Totals
pub mod Factor
pub mod Packets
pub mod Stopping
pub mod Passes
use log_generator.Prelude.{Option, if◌then◌else◌, none, some, str_eq, ◌&&◌}
use log_generator.Prelude.Int.{add64, eqb_ℤ, ltb_ℤ, pos, ℤ}
use log_generator.Worker.Batch.{SendError}
use log_generator.Worker.State.{Worker}

pub data Mode : Type 0 where
  by_ticker ultra realtime performance precise medium : Mode

-- The loop that sendLoop enters: by the precision mode, if there is a target and control is on.
unfoldable pub send_mode : {F : Type 0} → Worker F → Mode
send_mode w =
    if ltb_ℤ (pos 0) w.target_eps && w.adaptive_control
    then if str_eq w.precision_mode "ultra"
      then ultra
      else if str_eq w.precision_mode "realtime"
      then realtime
      else if str_eq w.precision_mode "performance"
      then performance
      else if str_eq w.precision_mode "high"
      then precise
      else medium
    else by_ticker

-- The worker's target, or the default where it is 0.
unfoldable pub target_or : ℤ → ℤ → ℤ
target_or default target = if eqb_ℤ target (pos 0) then default else target

-- `if n < 1 { n = least }`
unfoldable pub at_least_one : ℤ → ℤ → ℤ
at_least_one least n = if ltb_ℤ n (pos 1) then least else n

-- The feedback window of an adaptive loop.
pub record Window (F : Type 0) : Type 0 where
  pub factor : F  -- adjustmentFactor
  pub start : ℤ  -- windowStartTime
  pub sent : ℤ  -- totalSentInWindow

-- The logs that went out are added to the window.
unfoldable pub window_sent : {F : Type 0} → ℤ → Option SendError → Window F → Window F
window_sent n none win = record win { sent = add64 win.sent n }
window_sent n (some e) win = win
