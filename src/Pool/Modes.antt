-- ===== src/Pool/Modes.antt =====
-- The send loops that the workers of a pool in internal/worker enter, by the profile.
use mathlib.Core.Path.{subst}
use log_generator.Config.Profiles.{
  EpsProfile, ProfileError, eps_profiles, find_profile, get_profile, unknown_profile,
}
use log_generator.Float.{Float64}
use log_generator.Pool.Initialize.{initialize, limited_count}
use log_generator.Pool.Numbering.{AllFrom, IsUp, IsWorker, initialize-IsWorker}
use log_generator.Pool.State.{Pool}
use log_generator.Prelude.{
  All, Bool-cases, List, Option, String, [], false, if◌then◌else◌, inl, inr, none, refl, some,
  str_eq, suc, true, ℕ, ◌∙◌, ◌∷◌, ◌≡◌, ◌≢◌, ◌⊎◌,
}
use log_generator.Prelude.Int.{ltb_ℤ, mul64, pos, quot, wrap64, ℤ, ◌*ℤ◌}
use log_generator.Prelude.Result.{Result, err, ok}
use log_generator.Worker.Loops.{Mode, at_least_one, performance, precise, send_mode}
use log_generator.Worker.Loops.Fixed.{expected_eps, precise_batch, precise_interval}
use log_generator.Worker.State.{Network, Worker}

-- What the table of profiles says of the loops: the mode is "high", with 100 logs every 5 ms and a
-- share of 10,000, or "performance".
record IsDriven (p : EpsProfile) : Type 0 where
  named : str_eq p.precision_mode "" ≡ false
  aimed : ltb_ℤ (pos 0) (quot p.target_eps (limited_count p)) ≡ true
  driven :
      ((p.precision_mode ≡ "high")
        × (p.batch_size ≡ pos 100)
        × (p.ticker_interval ≡ pos 5000)
        × (quot p.target_eps (limited_count p) ≡ pos 10_000))
      ⊎ (p.precision_mode ≡ "performance")

-- A profile that GetProfile returns is one of the table.
find_profile-All :
    (P : EpsProfile → Type 0) (name : String) (p : EpsProfile) (es : List (String × EpsProfile))
    → All (λ e. P e.1) es
    → find_profile name es ≡ some p
    → P p
unfolding find_profile
find_profile-All P name p [] h e = cc
find_profile-All P name p ((key, q) ∷ es) h e = elim (Bool-cases (str_eq key name)) [
  | inl same ↦
      let there : some q ≡ some p = rw same at e in let here : q ≡ p = cc there in subst P here h.0
  | inr other ↦ find_profile-All P name p es h.1 (rw other at e)
]

table-IsDriven : All (λ e. e.1.name ≢ "custom" → IsDriven e.1) eps_profiles
unfolding quot limited_count
table-IsDriven = (
  (λ c. record { named = refl; aimed = refl; driven = inl (refl, refl, refl, refl) }),
  (
    (λ c. record { named = refl; aimed = refl; driven = inl (refl, refl, refl, refl) }),
    (
      (λ c. record { named = refl; aimed = refl; driven = inr refl }),
      (
        (λ c. record { named = refl; aimed = refl; driven = inr refl }),
        (
          (λ c. record { named = refl; aimed = refl; driven = inr refl }),
          (λ c. absurd (c refl), tt),
        ),
      ),
    ),
  ),
)

get_profile-IsDriven :
    (name : String) (p : EpsProfile) → get_profile name ≡ ok p → p.name ≢ "custom" → IsDriven p
unfolding get_profile
get_profile-IsDriven name p h c =
    find_profile-All (λ q. q.name ≢ "custom" → IsDriven q) name p eps_profiles table-IsDriven
      (found (find_profile name eps_profiles) h) c
  where
    found :
        (o : Option EpsProfile)
        → let r : Result ProfileError EpsProfile = elim o [
          | none ↦ err (unknown_profile name)
          | some q ↦ ok q
        ] in
          r ≡ ok p → o ≡ some p
    found none e = cc
    found (some q) e = cc

-- The loop that a profile asks for by its mode
abbrev pub mode_of : EpsProfile → Mode
mode_of p = if str_eq p.precision_mode "high" then precise else performance

module _ {F : Type 0} (fl : Float64 F) where
  -- What a worker of the profile does: it enters that loop, and where it is sendLoopPrecise, it sends
  -- twice its target.
  abbrev pub Enters : EpsProfile → Worker F → Type 0
  Enters p w =
      (send_mode w ≡ mode_of p)
      × (send_mode w ≡ precise → expected_eps fl w ≡ pos 2 *ℤ w.target_eps)

  worker-Enters :
      (p : EpsProfile) (i : ℕ) (w : Worker F)
      → IsDriven p
      → IsWorker p (limited_count p) i w
      → Enters p w
  unfolding send_mode expected_eps precise_interval precise_batch at_least_one quot mul64 wrap64
      ◌*ℤ◌
  worker-Enters p i w d h =
      let aimed : ltb_ℤ (pos 0) w.target_eps ≡ true = rw h.share d.aimed in
      let on : w.adaptive_control ≡ true = h.control ∙ d.aimed in
      elim d.driven [
        | inl (high, size, ticker, share) ↦
            let mode : w.precision_mode ≡ "high" = h.mode d.named ∙ high in
            rw (send_mode, aimed, on, mode, high)
              (refl, λ _. rw (h.share, share, h.batch, size, h.ticker, ticker) refl)
        | inr quick ↦
            let mode : w.precision_mode ≡ "performance" = h.mode d.named ∙ quick in
            rw (send_mode, aimed, on, mode, quick) (refl, λ e. cc)
      ]

  workers-Enter :
      (p : EpsProfile) (i : ℕ) (ws : List (Worker F))
      → IsDriven p
      → AllFrom (IsWorker p (limited_count p)) i ws
      → All (Enters p) ws
  workers-Enter p i [] d h = tt
  workers-Enter p i (w ∷ ws) d h = (worker-Enters p i w d h.0, workers-Enter p (suc i) ws d h.1)

  -- On a network that grants everything, each worker that Initialize makes for a profile of the table,
  -- but the one named custom, enters the loop of the mode of the profile: sendLoopPrecise for 100k and
  -- 500k, else sendLoopPerformance; and one that enters sendLoopPrecise sends twice its target, by its
  -- batches and their period.
  pub initialize-Enters :
      (net : ℕ → Network) (now : ℤ) (q : Pool F) (name : String)
      → ((j : ℕ) → IsUp (net j))
      → q.is_running ≡ false
      → q.workers ≡ []
      → get_profile name ≡ ok q.profile
      → q.profile.name ≢ "custom"
      → All (Enters q.profile) (initialize fl net now q).0.workers
  initialize-Enters net now q name up idle empty known listed =
      let (_, _, h, _) = initialize-IsWorker fl net now q up idle empty in
      workers-Enter q.profile 0 (initialize fl net now q).0.workers
        (get_profile-IsDriven name q.profile known listed) h
