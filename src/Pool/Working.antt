-- ===== src/Pool/Working.antt =====
-- What goes on in a pool of internal/worker/worker_pool.go while it runs: the passes of its workers'
-- send loops, and the ticks of its aggregator.
use log_generator.Float.{Float64}
use log_generator.Pool.Aggregate.{Reading, aggregate, update_eps_history}
use log_generator.Pool.Live.{IsLive, IsLivePool}
use log_generator.Pool.State.{Pool}
use log_generator.Prelude.{All, List, [], if_ind, suc, zero, ℕ, ◌∙◌, ◌∷◌}
use log_generator.Prelude.Int.{leb_ℤ, pos, ℤ}
use log_generator.Worker.Loops.Passes.{Pass, worker_pass, worker_pass-Survives}
use log_generator.Worker.State.{Worker, second, time_sub}

-- The worker at index `i`, if there is one, is changed.
unfoldable pub modify {ℓ} : {A : Type ℓ} → ℕ → (A → A) → List A → List A
modify i f [] = []
modify zero f (x ∷ xs) = f x ∷ xs
modify (suc i) f (x ∷ xs) = x ∷ modify i f xs

All-modify :
    {A : Type 0} (P : A → Type 0) (i : ℕ) (f : A → A) (xs : List A)
    → ((x : A) → P x → P (f x))
    → All P xs
    → All P (modify i f xs)
unfolding modify
All-modify P i f [] keep h = tt
All-modify P zero f (x ∷ xs) keep h = (keep x h.0, h.1)
All-modify P (suc i) f (x ∷ xs) keep h = (h.0, All-modify P i f xs keep h.1)

module _ {F : Type 0} (fl : Float64 F) where
  -- The worker at index `i` makes a pass.
  unfoldable pub work : ℕ → Pass F → Pool F → Pool F
  work i p q = record q { workers = modify i (worker_pass fl p) q.workers }

  worker_pass-IsLive : (p : Pass F) (w : Worker F) → IsLive w → IsLive (worker_pass fl p w)
  worker_pass-IsLive p w l =
      let s = worker_pass-Survives fl p w in
      record {
        runs = s.is_running ∙ l.runs;
        unstopped = s.stop_closed ∙ l.unstopped;
        connected = s.conn ∙ l.connected;
      }

  pub work-IsLivePool : (i : ℕ) (p : Pass F) (q : Pool F) → IsLivePool q → IsLivePool (work i p q)
  unfolding work
  work-IsLivePool i p q h =
      (h.0, All-modify IsLive i (worker_pass fl p) q.workers (worker_pass-IsLive p) h.1)

  pub aggregate-IsLivePool :
      (now : ℤ) (r : Reading F) (p : Pool F) → IsLivePool p → IsLivePool (aggregate fl now r p)
  unfolding aggregate update_eps_history
  aggregate-IsLivePool now r p h =
      if_ind (λ (q : Pool F). IsLivePool q) (leb_ℤ (pos second) (time_sub now p.last_history_time))
        (λ _. h) (λ _. h)
