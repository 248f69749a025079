-- ===== src/Worker/Loops/Factor.antt =====
-- The factors of the adaptive loops of internal/worker/udp_worker.go stay within their limits, and
-- what this means for the size of a batch.
use log_generator.Float.{Float64, IsIeee}
use log_generator.Float.Clamp.{Within, high_first, high_first-Within, low_first, low_first-Within}
use log_generator.Prelude.{
  List, Option, [], arith, if_ind, none, refl, some, ℕ, ◌*◌, ◌+◌, ◌<◌, ◌∷◌, ◌≡◌, ◌≤◌,
}
use log_generator.Prelude.Int.{leb_ℤ, pos, ℤ, ◌≤ℤ◌}
use log_generator.Worker.Batch.{Round, SendError}
use log_generator.Worker.Loops.{Window, at_least_one, window_sent}
use log_generator.Worker.Loops.Adaptive.{
  adapt, error_rate, medium_factor, medium_start, medium_tick, performance_factor,
  performance_start, performance_tick, scaled_batch,
}
use log_generator.Worker.State.{Worker, time_sub}

module _ {F : Type 0} (fl : Float64 F) where
  window_sent-factor :
      (n : ℤ) (e : Option SendError) (win : Window F) → (window_sent n e win).factor ≡ win.factor
  unfolding window_sent
  window_sent-factor n none win = refl
  window_sent-factor n (some e) win = refl

  -- What every factor that `next` gives satisfies, the factor of an adapted window satisfies.
  adapt_ind :
      (P : F → Type 0) (period : ℕ) (next : ℤ → F → F) (r : Round) (win : Window F)
      → ((sent : ℤ) (x : F) → P x → P (next sent x))
      → P win.factor
      → P (adapt fl period next r win).factor
  unfolding adapt
  adapt_ind P period next r win keep h =
      if_ind (λ (v : Window F). P v.factor) (leb_ℤ (pos period) (time_sub (r.now 0) win.start))
        (λ _. keep win.sent win.factor h) (λ _. h)

  -- The passes of sendLoopMedium and of sendLoopPerformance
  unfoldable pub medium_run : ℤ → ℤ → List Round → Worker F × Window F → Worker F × Window F
  medium_run logs target [] s = s
  medium_run logs target (r ∷ rs) s = medium_run logs target rs (medium_tick fl logs target r s)

  unfoldable pub performance_run : ℤ → ℤ → List Round → Worker F × Window F → Worker F × Window F
  performance_run logs target [] s = s
  performance_run logs target (r ∷ rs) s =
      performance_run logs target rs (performance_tick fl logs target r s)

  abbrev pub InMedium : F → Type 0
  InMedium = Within fl (fl.decimal (pos 7) 1) (fl.decimal (pos 13) 1)

  abbrev pub InPerformance : F → Type 0
  InPerformance = Within fl (fl.decimal (pos 5) 1) (fl.decimal (pos 20) 1)

  module _ (ieee : IsIeee fl) where
    limits :
        (a b : ℕ) (k : ℕ) (x : F)
        → a ≤ b
        → Within fl
            (fl.decimal (pos a) k)
            (fl.decimal (pos b) k)
            (low_first fl (fl.decimal (pos a) k) (fl.decimal (pos b) k) x)
          × Within fl
              (fl.decimal (pos a) k)
              (fl.decimal (pos b) k)
              (high_first fl (fl.decimal (pos a) k) (fl.decimal (pos b) k) x)
    limits a b k x h =
        let lo = fl.decimal (pos a) k in
        let hi = fl.decimal (pos b) k in
        let order = ieee.decimal_mono a b k k (grind arith) in
        (
          low_first-Within fl lo hi x (ieee.lt_irrefl lo) (ieee.lt_irrefl hi) order,
          high_first-Within fl lo hi x (ieee.lt_irrefl lo) (ieee.lt_irrefl hi) order,
        )

    medium_factor-Within :
        (target sent : ℤ) (x : F) → InMedium x → InMedium (medium_factor fl target sent x)
    unfolding medium_factor
    medium_factor-Within target sent x h =
        if_ind InMedium (fl.lt (fl.decimal (pos 2) 2) (fl.abs (error_rate fl 5 target sent)))
          (λ _. (limits 7 13 1 _ (omega arith)).0) (λ _. h)

    performance_factor-Within :
        (target sent : ℤ) (x : F)
        → InPerformance x
        → InPerformance (performance_factor fl target sent x)
    unfolding performance_factor
    performance_factor-Within target sent x h =
        if_ind InPerformance (fl.lt (fl.decimal (pos 1) 2) (fl.abs (error_rate fl 10 target sent)))
          (λ _. (limits 5 20 1 _ (omega arith)).1) (λ _. h)

    medium_tick-Within :
        (logs target : ℤ) (r : Round) (s : Worker F × Window F)
        → InMedium s.1.factor
        → InMedium (medium_tick fl logs target r s).1.factor
    unfolding medium_tick
    medium_tick-Within logs target r (w, win) h =
        adapt_ind InMedium _ _ r _ (medium_factor-Within target) (rw (window_sent-factor _ _ win) h)

    performance_tick-Within :
        (logs target : ℤ) (r : Round) (s : Worker F × Window F)
        → InPerformance s.1.factor
        → InPerformance (performance_tick fl logs target r s).1.factor
    unfolding performance_tick
    performance_tick-Within logs target r (w, win) h =
        adapt_ind InPerformance _ _ r _ (performance_factor-Within target)
          (rw (window_sent-factor _ _ win) h)

    medium_run-Within :
        (logs target : ℤ) (rs : List Round) (s : Worker F × Window F)
        → InMedium s.1.factor
        → InMedium (medium_run logs target rs s).1.factor
    unfolding medium_run
    medium_run-Within logs target [] s h = h
    medium_run-Within logs target (r ∷ rs) s h =
        medium_run-Within logs target rs (medium_tick fl logs target r s)
          (medium_tick-Within logs target r s h)

    performance_run-Within :
        (logs target : ℤ) (rs : List Round) (s : Worker F × Window F)
        → InPerformance s.1.factor
        → InPerformance (performance_run logs target rs s).1.factor
    unfolding performance_run
    performance_run-Within logs target [] s h = h
    performance_run-Within logs target (r ∷ rs) s h =
        performance_run-Within logs target rs (performance_tick fl logs target r s)
          (performance_tick-Within logs target r s h)

    -- Whatever the network and the clock do, the factor of sendLoopMedium stays within 0.7 and 1.3,
    -- on floats that round like IEEE 754.
    pub medium_run-start :
        (logs target now : ℤ) (rs : List Round) (w : Worker F)
        → InMedium (medium_run logs target rs (w, medium_start fl now)).1.factor
    unfolding medium_start
    medium_run-start logs target now rs w =
        medium_run-Within logs target rs _
          (ieee.decimal_mono 7 10 1 1 (omega arith), ieee.decimal_mono 10 13 1 1 (omega arith))

    -- Whatever the network and the clock do, the factor of sendLoopPerformance stays within 0.5 and
    -- 2.0, on floats that round like IEEE 754.
    pub performance_run-start :
        (logs target now : ℤ) (rs : List Round) (w : Worker F)
        → InPerformance (performance_run logs target rs (w, performance_start fl now)).1.factor
    unfolding performance_start
    performance_run-start logs target now rs w =
        performance_run-Within logs target rs _
          (ieee.decimal_mono 5 1064 1 3 (omega arith), ieee.decimal_mono 1064 20 3 1 (omega arith))

    -- Whatever the network and the clock did, the next batch of sendLoopPerformance for `n` logs, from
    -- 1 to 10^9, has at most 2 `n` + 1 logs, on floats that round like IEEE 754.
    pub performance_batch-le :
        (n : ℕ) (target now : ℤ) (rs : List Round) (w : Worker F)
        → 0 < n
        → n ≤ 1_000_000_000
        → let s = performance_run (pos n) target rs (w, performance_start fl now) in
          at_least_one (pos 1) (scaled_batch fl (pos n) s.1.factor) ≤ℤ pos (2 * n + 1)
    unfolding scaled_batch at_least_one
    performance_batch-le n target now rs w h k =
        let s = performance_run (pos n) target rs (w, performance_start fl now) in
        let inside = performance_run-start (pos n) target now rs w in
        ground (arith, ieee.scale_cap n 20 1 s.1.factor k (omega arith) inside.1)
