-- ===== src/Worker/Loops/Totals.antt =====
-- The counts of the send loops of internal/worker/udp_worker.go over any number of rounds.
use log_generator.Float.{Float64}
use log_generator.Prelude.{
  Bool-cases, List, [], ap, arith, if◌then◌else◌, inl, inr, length, refl, suc, ℕ, ◌*◌, ◌+◌, ◌-◌,
  ◌<◌, ◌∙◌, ◌∷◌, ◌≡◌, ◌≤◌,
}
use log_generator.Prelude.Int.{add64_pos, pos, ℤ}
use log_generator.Worker.Batch.{Round, count_all, deliver}
use log_generator.Worker.Batch.Delivery.{deliver-open, packet_of}
use log_generator.Worker.Eps.Keeps.{update_eps_metrics-Keeps}
use log_generator.Worker.Loops.Fixed.{fixed_tick}
use log_generator.Worker.State.{Worker, open_conn}

-- The rounds in which the packet of `n` logs went out.
unfoldable pub successes : ℤ → List Round → ℕ
successes n [] = 0
successes n (r ∷ rs) =
    let rest = successes n rs in if r.write (packet_of r n) then suc rest else rest

successes-le : (n : ℤ) (rs : List Round) → successes n rs ≤ length rs
unfolding successes
successes-le n [] = omega arith
successes-le n (r ∷ rs) = ground (arith, successes-le n rs)

module _ {F : Type 0} (fl : Float64 F) where
  -- The passes of a loop with batches of `n` logs.
  unfoldable pub fixed_run : ℤ → List Round → Worker F → Worker F
  fixed_run n [] w = w
  fixed_run n (r ∷ rs) w = fixed_run n rs (fixed_tick fl n r w)

  -- The counts of the worker are `t` logs and `e` failures, and its connection is open.
  pub record Counts (t e : ℕ) (w : Worker F) : Type 0 where
    pub connected : w.conn ≡ open_conn
    pub total : w.total_sent ≡ pos t
    pub errors : w.error_count ≡ pos e

  Counts-cast : {t e u f : ℕ} {w : Worker F} → Counts t e w → t ≡ u → e ≡ f → Counts u f w
  Counts-cast c p q = record {
    connected = c.connected;
    total = c.total ∙ ap pos p;
    errors = c.errors ∙ ap pos q;
  }

  count_all-Counts :
      (r : Round) (k t e : ℕ) (w : Worker F)
      → Counts t e w
      → t + suc k < 9223372036854775808
      → e + 1 < 9223372036854775808
      → let sent = r.write (packet_of r (pos (suc k))) in
        Counts
          (if sent then t + suc k else t)
          (if sent then e else e + 1)
          (count_all (pos (suc k)) (deliver r (pos (suc k)) w))
  unfolding count_all
  count_all-Counts r k t e w c ht he =
      rw (deliver-open r k w c.connected) (elim (Bool-cases (r.write (packet_of r (pos (suc k))))) [
        | inl y ↦ rw y (record {
          connected = c.connected;
          total = rw c.total (add64_pos t (suc k) ht);
          errors = c.errors;
        })
        | inr z ↦ rw z (record {
          connected = c.connected;
          total = c.total;
          errors = rw c.errors (add64_pos e 1 he);
        })
      ])

  fixed_tick-Counts :
      (r : Round) (k t e : ℕ) (w : Worker F)
      → Counts t e w
      → t + suc k < 9223372036854775808
      → e + 1 < 9223372036854775808
      → let sent = r.write (packet_of r (pos (suc k))) in
        Counts
          (if sent then t + suc k else t)
          (if sent then e else e + 1)
          (fixed_tick fl (pos (suc k)) r w)
  unfolding fixed_tick
  fixed_tick-Counts r k t e w c ht he =
      let v = count_all (pos (suc k)) (deliver r (pos (suc k)) w) in
      let counted = count_all-Counts r k t e w c ht he in
      let kept = update_eps_metrics-Keeps fl (r.now 0) v in
      record {
        connected = kept.conn ∙ counted.connected;
        total = kept.total_sent ∙ counted.total;
        errors = kept.error_count ∙ counted.errors;
      }

  more : (k n : ℕ) → suc k ≤ suc k * suc n
  more k n = grind arith

  -- On an open connection, a loop that sends batches of `n` logs adds `n` to the total for each
  -- packet that goes out, and one to the errors for each that fails, and nothing else, as long as
  -- no count passes 63 bits.
  pub fixed_run-Counts :
      (k t e : ℕ) (rs : List Round) (w : Worker F)
      → Counts t e w
      → t + suc k * length rs < 9223372036854775808
      → e + length rs < 9223372036854775808
      → Counts
          (t + suc k * successes (pos (suc k)) rs)
          (e + (length rs - successes (pos (suc k)) rs))
          (fixed_run (pos (suc k)) rs w)
  unfolding fixed_run successes
  fixed_run-Counts k t e [] w c ht he = Counts-cast c (omega arith) (omega arith)
  fixed_run-Counts k t e (r ∷ rs) w c ht he =
      let n = pos (suc k) in
      let room = more k (length rs) in
      let next = fixed_tick-Counts r k t e w c (omega arith) (omega arith) in
      let v = fixed_tick fl n r w in
      let few = successes-le n rs in
      elim (Bool-cases (r.write (packet_of r n))) [
        | inl y ↦
            Counts-cast
              (fixed_run-Counts k (t + suc k) e rs v (rw y at next) (omega arith) (omega arith))
              (rw y (omega arith)) (rw y (omega arith))
        | inr z ↦
            Counts-cast
              (fixed_run-Counts k t (e + 1) rs v (rw z at next) (omega arith) (omega arith))
              (rw z refl) (rw z (omega arith))
      ]
