-- ===== src/Monitor/Dashboard.antt =====
-- internal/monitor/dashboard.go: the dashboard server. Its web sockets are a hub. Stop waits for its
-- two goroutines, which end at a turn where they find the channel closed; what they still do before
-- that is part of the events that come first.
pub mod Cycle
use log_generator.Monitor.Hub.{Event, Hub, happen, new_hub}
use log_generator.Prelude.{Bool, List, String, [], false, if◌then◌else◌, true, ℕ, ◌++◌, ◌+◌, ◌∷◌}
use log_generator.Prelude.Int.{pos, ℤ}

-- DashboardServer
pub record Dashboard (M : Type 0) : Type 0 where
  pub port : ℤ
  pub profile_name : String
  pub target_eps : ℤ
  pub hub : Hub M
  pub serving : Bool  -- httpServer
  pub is_running : Bool
  pub stop_closed : Bool  -- stopChan
  pub tasks : ℕ  -- the goroutines of wg

-- How a call ends: a panic is a close of the closed channel.
pub data DashboardOutcome : Type 0 where
  dashboard_done dashboard_running dashboard_idle dashboard_panicked : DashboardOutcome

module _ {M : Type 0} where
  -- NewDashboardServer
  unfoldable pub new_dashboard : ℤ → Dashboard M
  new_dashboard port = record {
    port = port;
    profile_name = "4m";
    target_eps = pos 4_000_000;
    hub = new_hub;
    serving = false;
    is_running = false;
    stop_closed = false;
    tasks = 0;
  }

  -- SetProfile of the dashboard
  unfoldable pub set_dashboard_profile : String → ℤ → Dashboard M → Dashboard M
  set_dashboard_profile name target d = record d { profile_name = name; target_eps = target }

  -- Start
  unfoldable pub start_dashboard : Dashboard M → Dashboard M × DashboardOutcome
  start_dashboard d =
      if d.is_running
      then (d, dashboard_running)
      else (record d { serving = true; tasks = d.tasks + 2; is_running = true }, dashboard_done)

  -- The loop of Stop over the clients
  unfoldable pub close_clients : List ℕ → Hub M → Hub M
  close_clients [] h = record h { clients = [] }
  close_clients (c ∷ cs) h = close_clients cs (record h { closed = h.closed ++ c ∷ [] })

  -- Stop
  unfoldable pub stop_dashboard : Dashboard M → Dashboard M × DashboardOutcome
  stop_dashboard d =
      if d.is_running
      then (if d.stop_closed
          then (record d { is_running = false; serving = false }, dashboard_panicked)
          else (
            record d {
              is_running = false;
              serving = false;
              stop_closed = true;
              tasks = 0;
              hub = close_clients d.hub.clients d.hub;
            },
            dashboard_done,
          ))
      else (d, dashboard_idle)

  -- An event of its web sockets
  unfoldable pub dashboard_event : Event M → Dashboard M → Dashboard M
  dashboard_event e d = record d { hub = happen e d.hub }

  abbrev pub dashboard_events : List (Event M) → Dashboard M → Dashboard M
  dashboard_events [] d = d
  dashboard_events (e ∷ es) d = dashboard_events es (dashboard_event e d)
