-- ===== src/Worker/Eps/Ring.antt =====
-- The history of rates is a ring of 60 entries: what updateEPSMetrics in
-- internal/worker/udp_worker.go writes to it.
use log_generator.Float.{Float64}
use log_generator.Prelude.{
  List, [], arith, drop, if_ind, length, length-set, not, refl, true, ◌&&◌, ◌*◌, ◌++◌, ◌<◌, ◌∙◌,
  ◌∷◌, ◌≡◌, ◌≢◌,
}
use log_generator.Prelude.Int.{eq_of_parts, eqb_ℤ, leb_ℤ, ltb_ℤ, pos, ℤ, ◌<ℤ◌, ◌≤ℤ◌}
use log_generator.Prelude.Ring.{oldest_first, oldest_first-set}
use log_generator.Worker.Eps.{record_eps, update_eps_metrics}
use log_generator.Worker.State.{Worker, millisecond, time_sub, zero_time}

-- The history has its 60 entries and the index points at one.
pub record HasHistory {F : Type 0} (w : Worker F) : Type 0 where
  pub full : length w.eps_counts ≡ 60
  pub in_range : w.eps_index < 60

-- The last 60 rates of a worker, the newest last.
abbrev pub recent_eps : {F : Type 0} → Worker F → List ℤ
recent_eps w = oldest_first w.eps_counts w.eps_index

-- The measurement at `now` takes a rate: 100 ms have passed, and something was sent before.
abbrev pub Measures : {F : Type 0} → ℤ → Worker F → Type 0
Measures now w =
    (pos (100 * millisecond) ≤ℤ time_sub now w.last_metric_time)
    × (pos 0 <ℤ w.last_total_sent)
    × (w.last_metric_time ≢ zero_time)

module _ {F : Type 0} (fl : Float64 F) where
  record_eps-HasHistory : (eps : ℤ) (w : Worker F) → HasHistory w → HasHistory (record_eps fl eps w)
  unfolding record_eps
  record_eps-HasHistory eps w h = record {
    full = length-set w.eps_counts w.eps_index eps ∙ h.full;
    in_range = rw h.full (omega arith);
  }

  -- A measurement keeps the history in shape, so that its writes are never out of range.
  pub update_eps_metrics-HasHistory :
      (now : ℤ) (w : Worker F) → HasHistory w → HasHistory (update_eps_metrics fl now w)
  unfolding update_eps_metrics
  update_eps_metrics-HasHistory now w h =
      if_ind HasHistory (leb_ℤ (pos (100 * millisecond)) (time_sub now w.last_metric_time))
        (λ late.
          let kept =
            if_ind HasHistory
              (not (eqb_ℤ w.last_metric_time zero_time) && ltb_ℤ (pos 0) w.last_total_sent)
              (λ measured. record_eps-HasHistory _ w h)
              (λ skipped. record { full = h.full; in_range = h.in_range }) in
          record { full = kept.full; in_range = kept.in_range })
        (λ early. h)

  rate_of_test :
      (now : ℤ) (w : Worker F)
      → Measures now w
      → (leb_ℤ (pos (100 * millisecond)) (time_sub now w.last_metric_time) ≡ true)
        × (not (eqb_ℤ w.last_metric_time zero_time) && ltb_ℤ (pos 0) w.last_total_sent ≡ true)
  rate_of_test now w m = (ground arith, ground (arith, eq_of_parts w.last_metric_time zero_time))

  -- A measurement that takes a rate makes it the newest of the history in place of the oldest, and
  -- remembers the total and the time that it measured.
  pub update_eps_metrics-recent :
      (now : ℤ) (w : Worker F)
      → HasHistory w
      → Measures now w
      → let v = update_eps_metrics fl now w in
        (recent_eps v ≡ drop 1 (recent_eps w) ++ v.current_eps ∷ [])
        × (v.last_total_sent ≡ w.total_sent)
        × (v.last_metric_time ≡ now)
        × (v.total_sent ≡ w.total_sent)
  unfolding update_eps_metrics record_eps
  update_eps_metrics-recent now w h m =
      let (late, measured) = rate_of_test now w m in
      rw (late, measured)
        (oldest_first-set w.eps_counts w.eps_index _ (rw h.full h.in_range), refl, refl, refl)
