-- ===== src/Monitor/Dashboard/Cycle.antt =====
-- The life of the dashboard of internal/monitor/dashboard.go.
use mathlib.Core.List.{append_assoc, append-nil}
use log_generator.Monitor.Dashboard.{Dashboard, close_clients, dashboard_done, stop_dashboard}
use log_generator.Monitor.Hub.{Hub}
use log_generator.Prelude.{List, [], ap, false, refl, sym, true, ℕ, ◌++◌, ◌∙◌, ◌∷◌, ◌≡◌}

module _ {M : Type 0} where
  close_clients_lem :
      (cs : List ℕ) (h : Hub M)
      → close_clients cs h ≡ record h { clients = []; closed = h.closed ++ cs }
  unfolding close_clients
  close_clients_lem [] h =
      ap (λ l. record h { clients = []; closed = l }) (sym (append-nil h.closed))
  close_clients_lem (c ∷ cs) h =
      close_clients_lem cs (record h { closed = h.closed ++ c ∷ [] })
      ∙ ap (λ l. record h { clients = []; closed = l }) (append_assoc h.closed (c ∷ []) cs)

  -- What a Stop leaves of a dashboard.
  pub record IsShut (d v : Dashboard M) : Type 0 where
    pub not_running : v.is_running ≡ false
    pub not_serving : v.serving ≡ false
    pub no_tasks : v.tasks ≡ 0
    pub channel_closed : v.stop_closed ≡ true
    pub hub : v.hub ≡ record d.hub { clients = []; closed = d.hub.closed ++ d.hub.clients }

  pub stop_dashboard-running :
      (d : Dashboard M)
      → d.is_running ≡ true
      → d.stop_closed ≡ false
      → IsShut d (stop_dashboard d).0 × ((stop_dashboard d).1 ≡ dashboard_done)
  unfolding stop_dashboard
  stop_dashboard-running d on open_channel =
      simp (on, open_channel)
        (
          record {
            not_running = refl;
            not_serving = refl;
            no_tasks = refl;
            channel_closed = refl;
            hub = close_clients_lem d.hub.clients d.hub;
          },
          refl,
        )
