-- ===== src/Monitor/Hub/Delivery.antt =====
-- What a hub of internal/monitor delivers to a client that stays: all that its channel takes, in order.
use mathlib.Core.List.{append_assoc, append-nil}
use log_generator.Monitor.Hub.{
  Event, Hub, broadcasts, channel_size, connects, greets, happen_all, leaves, member, ticks,
}
use log_generator.Monitor.Hub.Refinement.{happen_all-view}
use log_generator.Monitor.Hub.View.{
  AreDistinct, View, received_by, view, view_broadcast, view_event, view_events, view_hit,
  view_tick, view_write,
}
use log_generator.Prelude.{
  All, Bool, Bool-cases, List, [], ap, arith, false, if◌then◌else◌, inl, inr, length, length-append,
  ltb, none, refl, some, suc, sym, true, ℕ, ◌++◌, ◌-◌, ◌==◌, ◌∙◌, ◌∷◌, ◌≡◌, ◌≢◌,
}

-- What the channel takes of an event, if it holds `n` messages, and how many it holds then.
unfoldable pub taken : {M : Type 0} → ℕ → Event M → List M
taken n (connects d) = []
taken n (greets d m sent) = []
taken n (leaves d) = []
taken n (ticks none) = []
taken n (ticks (some m)) = if ltb n channel_size then m ∷ [] else []
taken n (broadcasts sends) = []

unfoldable pub held : {M : Type 0} → ℕ → Event M → ℕ
held n (connects d) = n
held n (greets d m sent) = n
held n (leaves d) = n
held n (ticks none) = n
held n (ticks (some m)) = if ltb n channel_size then suc n else n
held n (broadcasts sends) = n - 1

-- All that it takes.
unfoldable pub accepted : {M : Type 0} → ℕ → List (Event M) → List M
accepted n [] = []
accepted n (e ∷ es) = taken n e ++ accepted (held n e) es

-- Neither the end of the client's handler, nor its first message, nor a failed write to it.
abbrev pub Keeps : {M : Type 0} → ℕ → Event M → Type 0
Keeps c (connects d) = Unit {0}
Keeps c (greets d m sent) = d ≢ c
Keeps c (leaves d) = d ≢ c
Keeps c (ticks m) = Unit {0}
Keeps c (broadcasts sends) = sends c ≡ true

ne_test : (a b : ℕ) → a ≢ b → (a == b) ≡ false
ne_test a b h = ground arith

-- What the client got and what is on its way.
abbrev pub flow : {M : Type 0} → View M → List M
flow v = v.received ++ v.queue

-- The client is still one after the event, and the flow has grown by what was taken.
record Flows {M : Type 0} (e : Event M) (v w : View M) : Type 0 where
  grown : flow w ≡ flow v ++ taken (length v.queue) e
  stays : w.registered ≡ true
  size : length w.queue ≡ held (length v.queue) e

module _ {M : Type 0} (c : ℕ) where
  unchanged :
      (e : Event M) (v : View M)
      → v.registered ≡ true
      → taken (length v.queue) e ≡ []
      → held (length v.queue) e ≡ length v.queue
      → Flows e v v
  unchanged e v on t s = record {
    grown = rw t (sym (append-nil (flow v)));
    stays = on;
    size = sym s;
  }

  tick-Flows :
      (m : M) (v : View M) → v.registered ≡ true → Flows (ticks (some m)) v (view_tick (some m) v)
  unfolding view_tick taken held
  tick-Flows m v on = elim (Bool-cases (ltb (length v.queue) channel_size)) [
    | inl room ↦ record {
      grown = rw (taken, room) (sym (append_assoc v.received v.queue (m ∷ [])));
      stays = on;
      size = rw (held, room) (omega (arith, length-append v.queue (m ∷ [])));
    }
    | inr full ↦ record {
      grown = rw (taken, full) (sym (append-nil (flow v)));
      stays = on;
      size = rw (held, full) refl;
    }
  ]

  broadcast-Flows :
      (sends : ℕ → Bool) (q : List M) (v : View M)
      → v.registered ≡ true
      → v.queue ≡ q
      → sends c ≡ true
      → Flows (broadcasts sends) v (view_broadcast (sends c) q v)
  unfolding view_broadcast view_write view_hit taken held
  broadcast-Flows sends [] v on e h = record {
    grown = sym (append-nil (flow v));
    stays = on;
    size = rw e refl;
  }
  broadcast-Flows sends (m ∷ rest) v on e h =
      rw (h, on, e)
        (record {
          grown = append_assoc v.received (m ∷ []) rest ∙ sym (append-nil (v.received ++ m ∷ rest));
          stays = refl;
          size = omega arith;
        })

  event-Flows :
      (e : Event M) (v : View M) → v.registered ≡ true → Keeps c e → Flows e v (view_event c e v)
  unfolding view_event taken held
  event-Flows (connects d) v on h = elim (Bool-cases (d == c)) [
    | inl e ↦ rw e (record { grown = sym (append-nil (flow v)); stays = refl; size = refl })
    | inr e ↦ rw e (unchanged (connects d) v on refl refl)
  ]
  event-Flows (greets d m sent) v on h =
      rw (ne_test d c h) (unchanged (greets d m sent) v on refl refl)
  event-Flows (leaves d) v on h = rw (ne_test d c h) (unchanged (leaves d) v on refl refl)
  event-Flows (ticks none) v on h = unfold view_tick in unchanged (ticks none) v on refl refl
  event-Flows (ticks (some m)) v on h = tick-Flows m v on
  event-Flows (broadcasts sends) v on h = broadcast-Flows sends v.queue v on refl h

  events-flow :
      (es : List (Event M)) (v : View M)
      → v.registered ≡ true
      → All (Keeps c) es
      → (flow (view_events c es v) ≡ flow v ++ accepted (length v.queue) es)
        × ((view_events c es v).registered ≡ true)
  unfolding view_events accepted
  events-flow [] v on h = (sym (append-nil (flow v)), on)
  events-flow (e ∷ es) v on h =
      let f = event-Flows e v on h.0 in
      let (ih, stays) = events-flow es (view_event c e v) f.stays h.1 in
      (rw (ih, f.grown, f.size) (append_assoc (flow v) (taken (length v.queue) e) _), stays)

-- Whatever the other clients do, a client that stays, and to which no write fails, has got or will
-- get, after what it got before, the messages on their way at first and then all that the channel
-- took since, in order and each once; it is a client still.
pub happen_all-delivers :
    {M : Type 0} (c : ℕ) (es : List (Event M)) (h : Hub M)
    → AreDistinct h.clients
    → member c h.clients ≡ true
    → All (Keeps c) es
    → let g = happen_all es h in
      (received_by c g.written ++ g.broadcast
        ≡ (received_by c h.written ++ h.broadcast) ++ accepted (length h.broadcast) es)
      × (member c g.clients ≡ true)
unfolding view
happen_all-delivers c es h k on keeps =
    let (f, stays) = events-flow c es (view c h) on keeps in
    let e = happen_all-view c es h k in (ap flow e ∙ f, ap (λ v. v.registered) e ∙ stays)
