-- ===== src/Pool/Sums.antt =====
-- What the reports of a pool's aggregator in internal/worker/worker_pool.go add up to, and the
-- history of their rates.
use log_generator.Float.{Float64}
use log_generator.Pool.Aggregate.{
  Reading, aggregate, average_of, no_sums, sum_workers, tick_report, update_eps_history,
}
use log_generator.Pool.State.{Pool, get_metrics}
use log_generator.Prelude.{
  All, Bool-cases, List, [], arith, drop, false, if_ind, inl, inr, keep_if, length, length-set,
  refl, true, ℕ, ◌*◌, ◌++◌, ◌+◌, ◌<◌, ◌∙◌, ◌∷◌, ◌≡◌, ◌≤◌,
}
use log_generator.Prelude.Int.{
  add64_counted, add64_pos, leb_ℤ, neg_part, pos, pos_part, quot, total, ℤ, ◌<ℤ◌, ◌≤ℤ◌,
}
use log_generator.Prelude.Ring.{oldest_first, oldest_first-set}
use log_generator.Worker.State.{Worker, second, time_sub}

-- The workers that run.
abbrev pub running_workers : {F : Type 0} → List (Worker F) → List (Worker F)
running_workers = keep_if (λ w. w.is_running)

-- What a worker counts is not negative.
abbrev pub IsCounted : {F : Type 0} → Worker F → Type 0
IsCounted w = (pos 0 ≤ℤ w.current_eps) × (pos 0 ≤ℤ w.total_sent)

-- The history of a pool has its 300 entries and the index points at one.
pub record HasPoolHistory {F : Type 0} (p : Pool F) : Type 0 where
  pub full : length p.eps_history ≡ 300
  pub in_range : p.history_index < 300

abbrev pub recent_totals : {F : Type 0} → Pool F → List ℤ
recent_totals p = oldest_first p.eps_history p.history_index

sum_workers_lem :
    {F : Type 0} (ws : List (Worker F)) (a e t : ℕ)
    → All IsCounted ws
    → a + length (running_workers ws) < 9223372036854775808
    → e + total (λ w. w.current_eps) (running_workers ws) < 9223372036854775808
    → t + total (λ w. w.total_sent) (running_workers ws) < 9223372036854775808
    → sum_workers ws (record { active = pos a; eps = pos e; sent = pos t }) ≡ record {
      active = pos (a + length (running_workers ws));
      eps = pos (e + total (λ w. w.current_eps) (running_workers ws));
      sent = pos (t + total (λ w. w.total_sent) (running_workers ws));
    }
unfolding sum_workers
sum_workers_lem [] a e t c h k l = ground arith
sum_workers_lem (w ∷ ws) a e t c h k l = elim (Bool-cases w.is_running) [
  | inl on ↦
      let h' : a + 1 + length (running_workers ws) < 9223372036854775808 = ground arith in
      let k' : e + pos_part w.current_eps + total (λ w. w.current_eps) (running_workers ws)
          < 9223372036854775808 =
        ground arith in
      let l' : t + pos_part w.total_sent + total (λ w. w.total_sent) (running_workers ws)
          < 9223372036854775808 =
        ground arith in
      let rest =
        sum_workers_lem ws (a + 1) (e + pos_part w.current_eps) (t + pos_part w.total_sent) c.1 h'
          k' l' in
      rw
        (
          on,
          add64_pos a 1 (omega arith),
          add64_counted e w.current_eps c.0.0 (omega arith),
          add64_counted t w.total_sent c.0.1 (omega arith),
          rest,
        )
        (ground arith)
  | inr off ↦ rw off (sum_workers_lem ws a e t c.1 (ground arith) (ground arith) (ground arith))
]

sum_workers-exact :
    {F : Type 0} (ws : List (Worker F))
    → All IsCounted ws
    → length (running_workers ws) < 9223372036854775808
    → total (λ w. w.current_eps) (running_workers ws) < 9223372036854775808
    → total (λ w. w.total_sent) (running_workers ws) < 9223372036854775808
    → sum_workers ws no_sums ≡ record {
      active = pos (length (running_workers ws));
      eps = pos (total (λ w. w.current_eps) (running_workers ws));
      sent = pos (total (λ w. w.total_sent) (running_workers ws));
    }
sum_workers-exact ws c h k l =
    sum_workers_lem ws 0 0 0 c (omega arith) (omega arith) (omega arith) ∙ ground arith

average_bounds :
    (a e t : ℕ)
    → let avg = average_of (record { active = pos a; eps = pos e; sent = pos t }) in
      (0 < a → pos_part avg * a ≤ e) × (0 < a → e < (pos_part avg + 1) * a) × (neg_part avg ≡ 0)
unfolding average_of quot
average_bounds a e t = ground arith

module _ {F : Type 0} (fl : Float64 F) where
  -- A tick of the aggregator reports the exact sums over the workers that run, where these fit into
  -- 64 bits: their number, their rates and what they sent. The average is the total divided by their
  -- number, rounded down, and the errors are reported as none, whatever the workers counted.
  pub aggregate-totals :
      (now : ℤ) (reading : Reading F) (p : Pool F)
      → All IsCounted p.workers
      → length (running_workers p.workers) < 9223372036854775808
      → total (λ w. w.current_eps) (running_workers p.workers) < 9223372036854775808
      → total (λ w. w.total_sent) (running_workers p.workers) < 9223372036854775808
      → let m = get_metrics (aggregate fl now reading p) in
        let n = length (running_workers p.workers) in
        let eps = total (λ w. w.current_eps) (running_workers p.workers) in
        (m.active_workers ≡ pos n)
        × (m.total_eps ≡ pos eps)
        × (m.total_sent ≡ pos (total (λ w. w.total_sent) (running_workers p.workers)))
        × (0 < n → pos_part m.average_eps * n ≤ eps)
        × (0 < n → eps < (pos_part m.average_eps + 1) * n)
        × (m.total_errors ≡ pos 0)
  unfolding aggregate get_metrics tick_report
  aggregate-totals now reading p c h k l =
      let n = length (running_workers p.workers) in
      let eps = total (λ w. w.current_eps) (running_workers p.workers) in
      let sent = total (λ w. w.total_sent) (running_workers p.workers) in
      let avg = average_bounds n eps sent in
      rw (sum_workers-exact p.workers c h k l) (refl, refl, refl, avg.0, avg.1, refl)

  update_eps_history-HasPoolHistory :
      (now eps : ℤ) (p : Pool F) → HasPoolHistory p → HasPoolHistory (update_eps_history now eps p)
  unfolding update_eps_history
  update_eps_history-HasPoolHistory now eps p h =
      if_ind HasPoolHistory (leb_ℤ (pos second) (time_sub now p.last_history_time))
        (λ late. record {
          full = length-set p.eps_history p.history_index eps ∙ h.full;
          in_range = rw h.full (omega arith);
        })
        (λ early. h)

  -- A tick keeps the history of totals in shape. If a second has passed since the last entry, the new
  -- total is the newest of the 300 in place of the oldest; else the history is as it was.
  pub aggregate-history :
      (now : ℤ) (reading : Reading F) (p : Pool F)
      → HasPoolHistory p
      → let q = aggregate fl now reading p in
        HasPoolHistory q
        × (pos second ≤ℤ time_sub now p.last_history_time
            → recent_totals q ≡ drop 1 (recent_totals p) ++ (get_metrics q).total_eps ∷ [])
        × (time_sub now p.last_history_time <ℤ pos second → recent_totals q ≡ recent_totals p)
  unfolding aggregate get_metrics tick_report update_eps_history
  aggregate-history now reading p h =
      let s = sum_workers p.workers no_sums in
      let kept = update_eps_history-HasPoolHistory now s.eps p h in
      (
        record { full = kept.full; in_range = kept.in_range },
        λ late.
            rw (later now p late)
              (oldest_first-set p.eps_history p.history_index s.eps (rw h.full h.in_range)),
        λ early. rw (earlier now p early) refl,
      )
    where
      later :
          (now : ℤ) (p : Pool F)
          → pos second ≤ℤ time_sub now p.last_history_time
          → leb_ℤ (pos second) (time_sub now p.last_history_time) ≡ true
      later now p h = ground arith

      earlier :
          (now : ℤ) (p : Pool F)
          → time_sub now p.last_history_time <ℤ pos second
          → leb_ℤ (pos second) (time_sub now p.last_history_time) ≡ false
      earlier now p h = ground arith
