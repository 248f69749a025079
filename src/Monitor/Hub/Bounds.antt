-- ===== src/Monitor/Hub/Bounds.antt =====
-- The channel and the clients of a hub of internal/monitor stay within bounds.
use log_generator.Monitor.Hub.{
  Event, Hub, broadcast_turn, broadcasts, channel_size, connects, greet, greets, happen, happen_all,
  leave, leaves, register, stream_tick, ticks, write_all, write_one,
}
use log_generator.Monitor.Hub.Delivery.{held}
use log_generator.Monitor.Hub.Refinement.{happen-AreDistinct}
use log_generator.Monitor.Hub.View.{AreDistinct}
use log_generator.Prelude.{
  Bool, List, [], arith, if_ind, length, length-append, none, refl, some, ℕ, ◌-◌, ◌∙◌, ◌∷◌, ◌≡◌,
  ◌≤◌,
}

held_bounds : {M : Type 0} (n : ℕ) (e : Event M) → n ≤ channel_size → held n e ≤ channel_size
unfolding held
held_bounds n (connects d) h = h
held_bounds n (greets d m sent) h = h
held_bounds n (leaves d) h = h
held_bounds n (ticks none) h = h
held_bounds n (ticks (some m)) h = ground arith
held_bounds n (broadcasts sends) h = omega arith

broadcast-write_all :
    {M : Type 0} (sends : ℕ → Bool) (m : M) (ds : List ℕ) (h : Hub M)
    → (write_all sends m ds h).broadcast ≡ h.broadcast
unfolding write_all write_one
broadcast-write_all sends m [] h = refl
broadcast-write_all sends m (d ∷ ds) h =
    broadcast-write_all sends m ds (write_one sends m d h)
    ∙ if_ind (λ (v : Hub _). v.broadcast ≡ h.broadcast) (sends d) (λ _. refl) (λ _. refl)

length-happen :
    {M : Type 0} (e : Event M) (h : Hub M)
    → length (happen e h).broadcast ≡ held (length h.broadcast) e
unfolding happen register greet leave held stream_tick broadcast_turn
length-happen (connects d) h = refl
length-happen (greets d m sent) h = refl
length-happen (leaves d) h = refl
length-happen (ticks none) h = refl
length-happen (ticks (some m)) h = ground (arith, length-append h.broadcast (m ∷ []))
length-happen (broadcasts sends) h = turn h.broadcast refl
  where
    turn :
        (q : List _) → h.broadcast ≡ q → length (broadcast_turn sends q h).broadcast ≡ length q - 1
    turn [] e = rw (broadcast_turn, e) refl
    turn (m ∷ rest) e =
        rw (broadcast_turn, broadcast-write_all sends m h.clients (record h { broadcast = rest }))
          (omega arith)

-- Whatever the clients do, the channel never holds more than 100 messages, and no connection is twice
-- among the clients.
pub happen_all_bounds :
    {M : Type 0} (es : List (Event M)) (h : Hub M)
    → length h.broadcast ≤ channel_size
    → AreDistinct h.clients
    → (length (happen_all es h).broadcast ≤ channel_size) × AreDistinct (happen_all es h).clients
unfolding happen_all
happen_all_bounds [] h few k = (few, k)
happen_all_bounds (e ∷ es) h few k =
    happen_all_bounds es (happen e h)
      (omega (arith, length-happen e h, held_bounds (length h.broadcast) e few))
      (happen-AreDistinct e h k)
