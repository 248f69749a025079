-- ===== src/Monitor/Hub/View.antt =====
-- The hub of internal/monitor as one client sees it: the other clients make no difference.
use log_generator.Monitor.Hub.{
  Event, Hub, broadcasts, channel_size, connects, delete, greets, insert, leaves, member, ticks,
  write_all, write_one,
}
use log_generator.Prelude.{
  Bool, Bool-cases, List, Option, [], ap, arith, false, if_ind, if◌then◌else◌, inl, inr, length,
  ltb, none, refl, some, true, ℕ, ◌&&◌, ◌++◌, ◌==◌, ◌||◌, ◌∙◌, ◌∷◌, ◌≡◌,
}

-- The messages that a client got, in order.
unfoldable pub received_by : {M : Type 0} → ℕ → List (ℕ × M) → List M
received_by c [] = []
received_by c ((d, m) ∷ ms) = let rest = received_by c ms in if d == c then m ∷ rest else rest

-- What a hub is for one client: the channel, whether it is a client, and what it got.
pub record View (M : Type 0) : Type 0 where
  pub queue : List M
  pub registered : Bool
  pub received : List M

-- What a write to the client does, and a turn of the broadcast loop.
unfoldable pub view_hit : {M : Type 0} → Bool → M → View M → View M
view_hit sent m v =
    if sent then record v { received = v.received ++ m ∷ [] } else record v { registered = false }

unfoldable pub view_write : {M : Type 0} → Bool → M → View M → View M
view_write sent m v = if v.registered then view_hit sent m v else v

unfoldable pub view_broadcast : {M : Type 0} → Bool → List M → View M → View M
view_broadcast sent [] v = v
view_broadcast sent (m ∷ rest) v = view_write sent m (record v { queue = rest })

unfoldable pub view_tick : {M : Type 0} → Option M → View M → View M
view_tick none v = v
view_tick (some m) v = record v {
  queue = if ltb (length v.queue) channel_size then v.queue ++ m ∷ [] else v.queue;
}

-- What an event does to one client: the events of the others do nothing.
unfoldable pub view_event : {M : Type 0} → ℕ → Event M → View M → View M
view_event c (connects d) v = if d == c then record v { registered = true } else v
view_event c (greets d m sent) v =
    if d == c && sent then record v { received = v.received ++ m ∷ [] } else v
view_event c (leaves d) v = if d == c then record v { registered = false } else v
view_event c (ticks m) v = view_tick m v
view_event c (broadcasts sends) v = view_broadcast (sends c) v.queue v

unfoldable pub view_events : {M : Type 0} → ℕ → List (Event M) → View M → View M
view_events c [] v = v
view_events c (e ∷ es) v = view_events c es (view_event c e v)

unfoldable pub view : {M : Type 0} → ℕ → Hub M → View M
view c h = record {
  queue = h.broadcast;
  registered = member c h.clients;
  received = received_by c h.written;
}

-- No connection is twice in the set.
abbrev pub AreDistinct : List ℕ → Type 0
AreDistinct [] = Unit {0}
AreDistinct (c ∷ cs) = (member c cs ≡ false) × AreDistinct cs

pub member-delete :
    (c d : ℕ) (cs : List ℕ) → member c (delete d cs) ≡ (if d == c then false else member c cs)
unfolding member delete
member-delete c d [] = ground arith
member-delete c d (x ∷ cs) = ground (arith, member-delete c d cs)

pub member-insert : (c d : ℕ) (cs : List ℕ) → member c (insert d cs) ≡ (d == c || member c cs)
unfolding member insert
member-insert c d cs = ground (arith, same)
  where
    same : d ≡ c → member d cs ≡ member c cs
    same e = ap (λ x. member x cs) e

pub delete-AreDistinct : (d : ℕ) (cs : List ℕ) → AreDistinct cs → AreDistinct (delete d cs)
unfolding delete
delete-AreDistinct d [] h = tt
delete-AreDistinct d (x ∷ cs) h =
    let k = delete-AreDistinct d cs h.1 in
    if_ind AreDistinct (x == d) (λ _. k) (λ ne. (rw (member-delete x d cs) (ground arith), k))

pub insert-AreDistinct : (d : ℕ) (cs : List ℕ) → AreDistinct cs → AreDistinct (insert d cs)
unfolding insert
insert-AreDistinct d cs h = if_ind AreDistinct (member d cs) (λ _. h) (λ new. (new, h))

pub received_by-append :
    {M : Type 0} (c d : ℕ) (m : M) (ms : List (ℕ × M))
    → received_by c (ms ++ (d, m) ∷ [])
      ≡ (if d == c then received_by c ms ++ m ∷ [] else received_by c ms)
unfolding received_by
received_by-append c d m [] = refl
received_by-append c d m ((x, n) ∷ ms) = ground (arith, received_by-append c d m ms)

module _ {M : Type 0} (c : ℕ) where
  hit-sent :
      (m : M) (d : ℕ) (h : Hub M)
      → view c (record h { written = h.written ++ (d, m) ∷ [] })
        ≡ (if d == c then view_hit true m (view c h) else view c h)
  unfolding view view_hit
  hit-sent m d h = elim (Bool-cases (d == c)) [
    | inl e ↦ rw (e, received_by-append c d m h.written) (rw e refl)
    | inr e ↦ rw (e, received_by-append c d m h.written) (rw e refl)
  ]

  hit-failed :
      (m : M) (d : ℕ) (h : Hub M)
      → view c (record h { clients = delete d h.clients; closed = h.closed ++ d ∷ [] })
        ≡ (if d == c then view_hit false m (view c h) else view c h)
  unfolding view view_hit
  hit-failed m d h = elim (Bool-cases (d == c)) [
    | inl e ↦ rw (e, member-delete c d h.clients) (rw e refl)
    | inr e ↦ rw (e, member-delete c d h.clients) (rw e refl)
  ]

  hit_cong :
      (sends : ℕ → Bool) (m : M) (d : ℕ) (v : View M)
      → (if d == c then view_hit (sends d) m v else v)
        ≡ (if d == c then view_hit (sends c) m v else v)
  hit_cong sends m d v = ground (arith, λ (e : d ≡ c). ap (λ x. view_hit (sends x) m v) e)

  view-own_write :
      (sends : ℕ → Bool) (m : M) (d : ℕ) (h : Hub M)
      → view c (write_one sends m d h)
        ≡ (if d == c then view_hit (sends d) m (view c h) else view c h)
  unfolding write_one
  view-own_write sends m d h = elim (Bool-cases (sends d)) [
    | inl e ↦ rw (write_one, e) (hit-sent m d h)
    | inr e ↦ rw (write_one, e) (hit-failed m d h)
  ]

  view-write_one :
      (sends : ℕ → Bool) (m : M) (d : ℕ) (h : Hub M)
      → view c (write_one sends m d h)
        ≡ (if d == c then view_hit (sends c) m (view c h) else view c h)
  view-write_one sends m d h = view-own_write sends m d h ∙ hit_cong sends m d (view c h)

  pub view-write_all :
      (sends : ℕ → Bool) (m : M) (ds : List ℕ) (h : Hub M)
      → AreDistinct ds
      → view c (write_all sends m ds h)
        ≡ (if member c ds then view_hit (sends c) m (view c h) else view c h)
  unfolding write_all member
  view-write_all sends m [] h k = refl
  view-write_all sends m (d ∷ ds) h k =
      let ih = view-write_all sends m ds (write_one sends m d h) k.1 in
      elim (Bool-cases (d == c)) [
        | inl e ↦
            let one : c ≡ d = ground arith in
            let same : member c ds ≡ false = ap (λ x. member x ds) one ∙ k.0 in
            rw (e, ih, same, view-write_one sends m d h) (rw e refl)
        | inr e ↦ rw (e, ih, view-write_one sends m d h) (rw e refl)
      ]
