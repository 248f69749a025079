-- ===== src/Monitor/Hub/Refinement.antt =====
-- The hub of internal/monitor is for each client what it would be without the others.
use log_generator.Monitor.Hub.{
  Event, Hub, broadcast_turn, broadcasts, connects, greet, greets, happen, happen_all, leave,
  leaves, register, stream_tick, ticks, write_all, write_one,
}
use log_generator.Monitor.Hub.View.{
  AreDistinct, delete-AreDistinct, insert-AreDistinct, member-delete, member-insert,
  received_by-append, view, view-write_all, view_broadcast, view_event, view_events, view_tick,
  view_write,
}
use log_generator.Prelude.{
  Bool, Bool-cases, List, [], ap, false, if_ind, inl, inr, none, refl, some, true, ℕ, ◌==◌, ◌∙◌,
  ◌∷◌, ◌≡◌,
}

module _ {M : Type 0} where
  write_one-AreDistinct :
      (sends : ℕ → Bool) (m : M) (d : ℕ) (h : Hub M)
      → AreDistinct h.clients
      → AreDistinct (write_one sends m d h).clients
  unfolding write_one
  write_one-AreDistinct sends m d h k =
      if_ind (λ (v : Hub M). AreDistinct v.clients) (sends d) (λ _. k)
        (λ _. delete-AreDistinct d h.clients k)

  write_all-AreDistinct :
      (sends : ℕ → Bool) (m : M) (ds : List ℕ) (h : Hub M)
      → AreDistinct h.clients
      → AreDistinct (write_all sends m ds h).clients
  unfolding write_all
  write_all-AreDistinct sends m [] h k = k
  write_all-AreDistinct sends m (d ∷ ds) h k =
      write_all-AreDistinct sends m ds (write_one sends m d h) (write_one-AreDistinct sends m d h k)

  pub happen-AreDistinct :
      (e : Event M) (h : Hub M) → AreDistinct h.clients → AreDistinct (happen e h).clients
  unfolding happen register greet leave
  happen-AreDistinct (connects d) h k = insert-AreDistinct d h.clients k
  happen-AreDistinct (greets d m sent) h k = k
  happen-AreDistinct (leaves d) h k = delete-AreDistinct d h.clients k
  happen-AreDistinct (ticks none) h k = unfold stream_tick in k
  happen-AreDistinct (ticks (some m)) h k = unfold stream_tick in k
  happen-AreDistinct (broadcasts sends) h k = turn h.broadcast
    where
      turn : (q : List M) → AreDistinct (broadcast_turn sends q h).clients
      turn [] = unfold broadcast_turn in k
      turn (m ∷ rest) =
          unfold broadcast_turn in
          write_all-AreDistinct sends m h.clients (record h { broadcast = rest }) k

  broadcast-view :
      (c : ℕ) (sends : ℕ → Bool) (q : List M) (h : Hub M)
      → AreDistinct h.clients
      → view c (broadcast_turn sends q h) ≡ view_broadcast (sends c) q (view c h)
  unfolding broadcast_turn view_broadcast view_write
  broadcast-view c sends [] h k = refl
  broadcast-view c sends (m ∷ rest) h k =
      view-write_all c sends m h.clients (record h { broadcast = rest }) k ∙ unfold view in refl

  happen-view :
      (c : ℕ) (e : Event M) (h : Hub M)
      → AreDistinct h.clients
      → view c (happen e h) ≡ view_event c e (view c h)
  unfolding happen view_event view register greet leave
  happen-view c (connects d) h k = elim (Bool-cases (d == c)) [
    | inl e ↦ rw (e, register, member-insert c d h.clients) (rw e refl)
    | inr e ↦ rw (e, register, member-insert c d h.clients) (rw e refl)
  ]
  happen-view c (greets d m true) h k = elim (Bool-cases (d == c)) [
    | inl e ↦ rw (e, greet, received_by-append c d m h.written) (rw e refl)
    | inr e ↦ rw (e, greet, received_by-append c d m h.written) (rw e refl)
  ]
  happen-view c (greets d m false) h k = elim (Bool-cases (d == c)) [
    | inl e ↦ rw e (unfold greet in refl)
    | inr e ↦ rw e (unfold greet in refl)
  ]
  happen-view c (leaves d) h k = elim (Bool-cases (d == c)) [
    | inl e ↦ rw (e, leave, member-delete c d h.clients) (rw e refl)
    | inr e ↦ rw (e, leave, member-delete c d h.clients) (rw e refl)
  ]
  happen-view c (ticks none) h k = unfold stream_tick view_tick in refl
  happen-view c (ticks (some m)) h k = unfold stream_tick view_tick view in refl
  happen-view c (broadcasts sends) h k = broadcast-view c sends h.broadcast h k

  -- To a client, a hub with any number of clients is a hub with none but it: after any events, in any
  -- order, the channel, whether it is a client, and the messages that it got are those of the view.
  pub happen_all-view :
      (c : ℕ) (es : List (Event M)) (h : Hub M)
      → AreDistinct h.clients
      → view c (happen_all es h) ≡ view_events c es (view c h)
  unfolding happen_all view_events
  happen_all-view c [] h k = refl
  happen_all-view c (e ∷ es) h k =
      happen_all-view c es (happen e h) (happen-AreDistinct e h k)
      ∙ ap (view_events c es) (happen-view c e h k)
