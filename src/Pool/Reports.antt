-- ===== src/Pool/Reports.antt =====
-- The workers' reports that GetMetrics of internal/worker/worker_pool.go shows: the stored report
-- refers to the map that the aggregator goes on writing to.
use log_generator.Pool.Aggregate.{lookup, put, receive_report}
use log_generator.Pool.State.{MapRef, Pool, aggregator_map, deref, get_metrics, initial_map}
use log_generator.Prelude.{
  Bool-cases, List, [], arith, false, inl, inr, refl, some, sym, ◌∷◌, ◌≡◌, ◌≢◌,
}
use log_generator.Prelude.Int.{eq_of_parts, eqb_ℤ, ℤ}
use log_generator.Worker.Eps.{WorkerMetrics}

eqb_ne : (a b : ℤ) → a ≢ b → eqb_ℤ a b ≡ false
eqb_ne a b ne = ground (arith, eq_of_parts a b)

lookup-put_self {ℓ} :
    {A : Type ℓ} (k : ℤ) (v : A) (m : List (ℤ × A)) → lookup k (put k v m) ≡ some v
unfolding lookup put
lookup-put_self k v [] = ground arith
lookup-put_self k v ((l, u) ∷ m) = elim (Bool-cases (eqb_ℤ k l)) [
  | inl e ↦ rw e (ground arith)
  | inr e ↦ rw (e, e) (lookup-put_self k v m)
]

lookup-put_other {ℓ} :
    {A : Type ℓ} (k j : ℤ) (v : A) (m : List (ℤ × A)) → k ≢ j → lookup j (put k v m) ≡ lookup j m
unfolding lookup put
lookup-put_other k j v [] ne = rw (eqb_ne j k (λ e. ne (sym e))) refl
lookup-put_other k j v ((l, u) ∷ m) ne = elim (Bool-cases (eqb_ℤ k l)) [
  | inl e ↦ rw (e, eqb_ne j k (λ e. ne (sym e)), eqb_ne j l (λ f. ne (ground arith))) refl
  | inr e ↦ rw (e, lookup-put_other k j v m ne) refl
]

-- Two calls of GetMetrics with a report between them and no tick: the second shows that report
-- under its worker's id, if there has been a tick before, and it differs in nothing else; before
-- the first tick it shows no worker.
pub get_metrics-receive_report :
    {F : Type 0} (r : WorkerMetrics F) (j : ℤ) (p : Pool F)
    → let before = get_metrics p in
      let after = get_metrics (receive_report r p) in
      (p.pool_metrics.worker_metrics ≡ aggregator_map
        → lookup r.worker_id after.worker_metrics ≡ some r)
      × (r.worker_id ≢ j → lookup j after.worker_metrics ≡ lookup j before.worker_metrics)
      × (p.pool_metrics.worker_metrics ≡ initial_map → after ≡ before)
      × (after ≡ record before { worker_metrics = after.worker_metrics })
unfolding get_metrics receive_report deref
get_metrics-receive_report r j p = (
  λ ticked. rw ticked (lookup-put_self r.worker_id r p.metrics_map),
  λ ne. other p.pool_metrics.worker_metrics ne,
  λ fresh. rw fresh refl,
  refl,
)
  where
    other :
        (ref : MapRef)
        → r.worker_id ≢ j
        → lookup j (deref ref (put r.worker_id r p.metrics_map))
          ≡ lookup j (deref ref p.metrics_map)
    other initial_map ne = refl
    other aggregator_map ne = lookup-put_other r.worker_id j r p.metrics_map ne
