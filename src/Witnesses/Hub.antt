-- ===== src/Witnesses/Hub.antt =====
-- Theorems on the hub and the dashboard of internal/monitor at concrete inputs.
use log_generator.Monitor.Dashboard.{Dashboard, new_dashboard}
use log_generator.Monitor.Hub.{
  Event, Hub, broadcast_turn, broadcasts, connects, delete, greet, greets, happen, happen_all,
  insert, leave, leaves, member, register, stream_tick, ticks, write_all, write_one,
}
use log_generator.Monitor.Hub.Delivery.{accepted, happen_all-delivers}
use log_generator.Monitor.Hub.Refinement.{happen_all-view}
use log_generator.Monitor.Hub.View.{received_by, view, view_events}
use log_generator.Prelude.{List, [], arith, none, refl, some, true, ℕ, ◌++◌, ◌==◌, ◌∷◌, ◌≡◌}
use log_generator.Prelude.Int.{pos}

-- Two clients, of which the second has got a message; a message is a number.
abbrev two_clients : Hub ℕ
two_clients = record {
  clients = 2 ∷ 1 ∷ [];
  broadcast = 7 ∷ [];
  written = (2, 5) ∷ [];
  closed = [];
}

-- The second client's connection breaks at the first message.
abbrev some_events : List (Event ℕ)
some_events =
    ticks (some 8)
    ∷ broadcasts (λ c. c == 1)
    ∷ connects 3
    ∷ greets 3 9 true
    ∷ ticks none
    ∷ broadcasts (λ c. true)
    ∷ leaves 3
    ∷ ticks (some 10)
    ∷ []

happen_all-view_example :
    view 1 (happen_all some_events two_clients) ≡ view_events 1 some_events (view 1 two_clients)
unfolding member
happen_all-view_example = happen_all-view 1 some_events two_clients (refl, (refl, tt))

happen_all-delivers_example :
    let g = happen_all some_events two_clients in
    (received_by 1 g.written ++ g.broadcast
      ≡ (received_by 1 two_clients.written ++ two_clients.broadcast) ++ accepted 1 some_events)
    × (member 1 g.clients ≡ true)
unfolding member
happen_all-delivers_example =
    happen_all-delivers 1 some_events two_clients (refl, (refl, tt)) refl
      (tt, (refl, (tt, (omega arith, (tt, (refl, (omega arith, (tt, tt))))))))

delivered : received_by 1 (happen_all some_events two_clients).written ≡ 7 ∷ 8 ∷ []
unfolding happen_all happen register greet leave stream_tick broadcast_turn write_all write_one
    received_by insert delete member
delivered = refl

abbrev sample_dashboard : Dashboard ℕ
sample_dashboard = new_dashboard (pos 8080)
