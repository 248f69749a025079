-- ===== src/Metrics/History.antt =====
-- The history and the buffer of rates that pkg/metrics/collector.go keeps.
use mathlib.Core.List.{append_assoc, append-nil}
use log_generator.Float.{Float64}
use log_generator.Metrics.{Collector, PerformanceMetrics}
use log_generator.Metrics.Collect.{
  collect_current_metrics, collect_tick, current_rate, measured, update_metrics,
}
use log_generator.Prelude.{
  List, [], ap, arith, drop, if_ind, length, length-append, length-drop, length-set, ltb, refl, suc,
  sym, zero, ℕ, ◌++◌, ◌+◌, ◌-◌, ◌<◌, ◌∙◌, ◌∷◌, ◌≡◌, ◌≤◌,
}
use log_generator.Prelude.Int.{pos, ℤ}
use log_generator.Prelude.Ring.{oldest_first, oldest_first-set}
use log_generator.Worker.State.{zero_time}

module _ {ℓ} {A : Type ℓ} where
  -- The last `n` items.
  unfoldable pub latest : ℕ → List A → List A
  latest n xs = drop (length xs - n) xs

  drop-append_le : (k : ℕ) (xs ys : List A) → k ≤ length xs → drop k (xs ++ ys) ≡ drop k xs ++ ys
  drop-append_le zero xs ys h = refl
  drop-append_le (suc k) [] ys h = absurd (omega arith)
  drop-append_le (suc k) (x ∷ xs) ys h = drop-append_le k xs ys (omega arith)

  drop-nil : (k : ℕ) → drop {A = A} k [] ≡ []
  drop-nil zero = refl
  drop-nil (suc k) = refl

  drop-drop : (j k : ℕ) (xs : List A) → drop j (drop k xs) ≡ drop (k + j) xs
  drop-drop j zero xs = ap (λ n. drop n xs) (omega arith)
  drop-drop j (suc k) [] = drop-nil j ∙ sym (drop-nil (suc k + j))
  drop-drop j (suc k) (x ∷ xs) =
      let e : suc k + j ≡ suc (k + j) = omega arith in rw e (drop-drop j k xs)

  latest-append : (n : ℕ) (xs ys : List A) → latest n (latest n xs ++ ys) ≡ latest n (xs ++ ys)
  unfolding latest
  latest-append n xs ys =
      let k = length xs - n in
      let e : k + (length xs - k + length ys - n) ≡ length xs + length ys - n = omega arith in
      rw
        (
          ← drop-append_le k xs ys (omega arith),
          drop-drop,
          drop-append_le k xs ys (omega arith),
          length-append,
          length-append,
          length-drop,
          e,
        )
        refl

  length-latest : (n : ℕ) (xs : List A) → length (latest n xs) ≤ n
  unfolding latest
  length-latest n xs = omega (arith, length-drop (length xs - n) xs)

  latest_short : (n : ℕ) (xs : List A) → length xs ≤ n → latest n xs ≡ xs
  unfolding latest
  latest_short n xs h = let e : length xs - n ≡ 0 = omega arith in rw e refl

module _ {F H : Type 0} where
  -- The metrics of several ticks, one after the other.
  abbrev pub update_all : List (PerformanceMetrics F) → Collector F H → Collector F H
  update_all [] c = c
  update_all (m ∷ ms) c = update_all ms (update_metrics m c)

  update_metrics-latest :
      (m : PerformanceMetrics F) (c : Collector F H)
      → length c.metrics_history ≤ c.history_size
      → let d = update_metrics m c in
        (d.metrics_history ≡ latest c.history_size (c.metrics_history ++ m ∷ []))
        × (d.history_size ≡ c.history_size)
  unfolding update_metrics latest
  update_metrics-latest m c h =
      let grown = c.metrics_history ++ m ∷ [] in
      (
        if_ind (λ xs. xs ≡ drop (length grown - c.history_size) grown)
            (ltb c.history_size (length grown))
            (λ over.
              let e : 1 ≡ length grown - c.history_size =
                ground (arith, length-append c.metrics_history (m ∷ [])) in
              ap (λ n. drop n grown) e)
            (λ fits.
              let e : 0 ≡ length grown - c.history_size = ground arith in ap (λ n. drop n grown) e),
        refl,
      )

  -- The history holds the newest metrics of all that updateMetrics got, in order and without a gap,
  -- and never more than its limit of them.
  pub update_all-latest :
      (ms : List (PerformanceMetrics F)) (c : Collector F H)
      → length c.metrics_history ≤ c.history_size
      → let d = update_all ms c in
        (d.metrics_history ≡ latest c.history_size (c.metrics_history ++ ms))
        × (length d.metrics_history ≤ c.history_size)
  update_all-latest [] c h =
      (rw (append-nil, latest_short c.history_size c.metrics_history h) refl, h)
  update_all-latest (m ∷ ms) c h =
      let (e, size) = update_metrics-latest m c h in
      let bound : length (update_metrics m c).metrics_history ≤ (update_metrics m c).history_size =
        rw (e, size) (length-latest c.history_size (c.metrics_history ++ m ∷ [])) in
      let (f, l) = update_all-latest ms (update_metrics m c) bound in
      (
        f
            ∙ rw (e, size)
                (latest-append c.history_size (c.metrics_history ++ m ∷ []) ms
                  ∙ ap (latest c.history_size) (append_assoc c.metrics_history (m ∷ []) ms)),
        omega (arith, l, size),
      )

-- The buffer of a collector has its 60 entries and the index points at one.
pub record HasBuffer {F H : Type 0} (c : Collector F H) : Type 0 where
  pub full : length c.eps_buffer ≡ 60
  pub in_range : c.eps_buffer_index < 60

abbrev pub recent_rates : {F H : Type 0} → Collector F H → List ℤ
recent_rates c = oldest_first c.eps_buffer c.eps_buffer_index

-- A tick keeps the buffer in shape and makes the new rate, which is the one it stores as the current
-- metrics', the newest of its 60 in place of the oldest. It takes over the totals, remembers what it
-- counted and when, and its first rate is 0.
pub collect_tick-recorded :
    {F H : Type 0} (fl : Float64 F) (now : ℤ) (c : Collector F H)
    → HasBuffer c
    → let d = (collect_tick fl now c).0 in
      HasBuffer d
      × (recent_rates d ≡ drop 1 (recent_rates c) ++ d.current_metrics.current_eps ∷ [])
      × (d.current_metrics.total_sent ≡ c.current_metrics.total_sent)
      × (d.current_metrics.worker_details ≡ c.current_metrics.worker_details)
      × (d.last_total_sent ≡ c.current_metrics.total_sent)
      × (d.last_timestamp ≡ now)
      × (c.last_timestamp ≡ zero_time → d.current_metrics.current_eps ≡ pos 0)
unfolding collect_tick collect_current_metrics update_metrics measured current_rate
collect_tick-recorded fl now c h = (
  record {
    full = length-set c.eps_buffer c.eps_buffer_index _ ∙ h.full;
    in_range = rw h.full (omega arith);
  },
  oldest_first-set c.eps_buffer c.eps_buffer_index _ (rw h.full h.in_range),
  refl,
  refl,
  refl,
  refl,
  λ first. rw first refl,
)
