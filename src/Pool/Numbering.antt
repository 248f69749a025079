-- ===== src/Pool/Numbering.antt =====
-- The workers that Initialize of internal/worker/worker_pool.go makes: their numbers and ports, and
-- their shares of the target.
use mathlib.Core.List.{append_assoc, append-nil}
use log_generator.Config.Profiles.{EpsProfile}
use log_generator.Float.{Float64}
use log_generator.Pool.Initialize.{
  configure, create_loop, divided_by_zero, initialize, initialized, limited_count, make_worker,
}
use log_generator.Pool.Settings.{Targeted, configure-Targeted, configure-precision_mode}
use log_generator.Pool.State.{Pool}
use log_generator.Prelude.{
  List, String, [], ap, arith, false, if◌then◌else◌, length, none, refl, str_eq, suc, true, zero, ℕ,
  ◌++◌, ◌+◌, ◌∙◌, ◌∷◌, ◌≡◌,
}
use log_generator.Prelude.Int.{eqb_ℤ, ltb_ℤ, pos, quot, rounds, ℤ}
use log_generator.Prelude.Result.{ok}
use log_generator.Worker.Eps.Ring.{HasHistory}
use log_generator.Worker.Lifecycle.Cycle.{IsFresh}
use log_generator.Worker.State.{
  Network, Worker, initial_worker, new_udp_worker_with_config, open_conn, setup_udp_connection,
}

-- Each item satisfies `P` at its index, counted from `i`.
abbrev pub AllFrom {ℓ} : {A : Type ℓ} → (ℕ → A → Type 0) → ℕ → List A → Type 0
AllFrom P i [] = Unit {0}
AllFrom P i (x ∷ xs) = P i x × AllFrom P (suc i) xs

-- The worker of index `i` has the number `i` + 1, the port 10514 + `i`, its share of the target and
-- the profile's batch size, ticker and mode, and it can be started.
pub record IsWorker {F : Type 0} (profile : EpsProfile) (count : ℤ) (i : ℕ) (w : Worker F)
    : Type 0 where
  pub number : w.id ≡ pos (i + 1)
  pub port : w.port ≡ pos (10514 + i)
  pub share : w.target_eps ≡ quot profile.target_eps count
  pub batch : w.batch_size ≡ profile.batch_size
  pub ticker : w.ticker_interval ≡ profile.ticker_interval
  pub control : w.adaptive_control ≡ ltb_ℤ (pos 0) (quot profile.target_eps count)
  pub mode : str_eq profile.precision_mode "" ≡ false → w.precision_mode ≡ profile.precision_mode
  pub fresh : IsFresh w
  pub history : HasHistory w

-- The network grants what a worker asks of it.
abbrev pub IsUp : Network → Type 0
IsUp n = (n.resolves ≡ true) × (n.dials ≡ true) × (n.buffers ≡ true)

module _ {F : Type 0} (fl : Float64 F) where
  Targeted-IsWorker :
      (profile : EpsProfile) (count : ℤ) (i : ℕ) (w v : Worker F)
      → Targeted fl (quot profile.target_eps count) w v
      → (w.id ≡ pos (i + 1))
        × (w.port ≡ pos (10514 + i))
        × (w.batch_size ≡ profile.batch_size)
        × (w.ticker_interval ≡ profile.ticker_interval)
        × IsFresh w
        × HasHistory w
      → (str_eq profile.precision_mode "" ≡ false → v.precision_mode ≡ profile.precision_mode)
      → IsWorker profile count i v
  Targeted-IsWorker profile count i w v s (a, b, c, t, f, g) m = record {
    number = s.id ∙ a;
    port = s.port ∙ b;
    share = s.target_eps;
    batch = s.batch_size ∙ c;
    ticker = s.ticker_interval ∙ t;
    control = s.adaptive_control;
    mode = m;
    fresh = record {
      idle = s.is_running ∙ f.idle;
      unstopped = s.stop_closed ∙ f.unstopped;
      connected = s.conn ∙ f.connected;
    };
    history = record {
      full = ap length s.eps_counts ∙ g.full;
      in_range = rw s.eps_index g.in_range;
    };
  }

  module _ (net : ℕ → Network) (now : ℤ) (host : String) (profile : EpsProfile) (count : ℤ) where
    new_worker :
        (i : ℕ)
        → IsUp (net i)
        → new_udp_worker_with_config fl
            (net i)
            now
            (pos (i + 1))
            (pos (10514 + i))
            host
            profile.batch_size
            profile.ticker_interval
          ≡ ok (
              initial_worker fl now
                (pos (i + 1))
                (pos (10514 + i))
                host
                profile.batch_size
                profile.ticker_interval
                open_conn)
    unfolding new_udp_worker_with_config setup_udp_connection
    new_worker i up = rw (up.0, up.1, up.2) refl

    -- The worker of index `i`, when the network grants it, before and after its settings.
    abbrev bare_worker : ℕ → Worker F
    bare_worker i =
        initial_worker fl now (pos (i + 1)) (pos (10514 + i)) host profile.batch_size
          profile.ticker_interval open_conn

    abbrev made_worker : ℕ → Worker F
    made_worker i = configure fl now profile count (bare_worker i)

    made_worker-IsWorker : (i : ℕ) → IsWorker profile count i (made_worker i)
    unfolding initial_worker
    made_worker-IsWorker i =
        Targeted-IsWorker profile count i (bare_worker i) (made_worker i)
          (configure-Targeted fl now profile count (bare_worker i))
          (
            refl,
            refl,
            refl,
            refl,
            record { idle = refl; unstopped = refl; connected = refl },
            record { full = refl; in_range = omega arith },
          )
          (configure-precision_mode fl now profile count (bare_worker i))

    make_worker-eq :
        (i : ℕ) → IsUp (net i) → make_worker fl net now host profile count i ≡ ok (made_worker i)
    unfolding make_worker
    make_worker-eq i up = rw (new_worker i up) refl

    pub create_loop-AllFrom :
        (left i : ℕ) (made : List (Worker F))
        → ((j : ℕ) → IsUp (net j))
        → (ws : List (Worker F)) × (create_loop fl net now host profile count left i made
            ≡ (made ++ ws, none))
          × (length ws ≡ left)
          × AllFrom (IsWorker profile count) i ws
    unfolding create_loop
    create_loop-AllFrom zero i made up = ([], rw append-nil refl, refl, tt)
    create_loop-AllFrom (suc left) i made up =
        let w = made_worker i in
        let (ws, f, l, k) = create_loop-AllFrom left (suc i) (made ++ w ∷ []) up in
        (
          w ∷ ws,
          rw (make_worker-eq i (up i), create_loop) (rw (append_assoc made (w ∷ []) ws) at f),
          ap suc l,
          (made_worker-IsWorker i, k),
        )

module _ {F : Type 0} (fl : Float64 F) (net : ℕ → Network) (now : ℤ) where
  created :
      (host : String) (profile : EpsProfile) (count : ℤ) (left : ℕ) (made : List (Worker F))
      → made ≡ []
      → ((j : ℕ) → IsUp (net j))
      → (ws : List (Worker F)) × (create_loop fl net now host profile count left 0 made
          ≡ (ws, none))
        × (length ws ≡ left)
        × AllFrom (IsWorker profile count) 0 ws
  created host profile count left made e up =
      rw e (create_loop-AllFrom fl net now host profile count left 0 [] up)

  -- On a network that grants everything, Initialize of a pool without workers makes those of its
  -- profile, at most 200: the one of index i with the number i + 1, the port 10514 + i and its share
  -- of the target, ready to be started. With no worker to make it divides by zero.
  pub initialize-IsWorker :
      (p : Pool F)
      → ((j : ℕ) → IsUp (net j))
      → p.is_running ≡ false
      → p.workers ≡ []
      → let count = limited_count p.profile in
        let (q, outcome) = initialize fl net now p in
        (length q.workers ≡ rounds count)
        × (q.worker_count ≡ pos (length q.workers))
        × AllFrom (IsWorker p.profile count) 0 q.workers
        × (outcome ≡ (if eqb_ℤ count (pos 0) then divided_by_zero else initialized))
  unfolding initialize
  initialize-IsWorker p up idle empty =
      let count = limited_count p.profile in
      let (ws, e, l, h) = created p.target_host p.profile count (rounds count) p.workers empty up in
      simp (idle, e) (l, refl, h, refl)
