-- ===== src/Pool/Fresh.antt =====
-- Every worker that Initialize of internal/worker/worker_pool.go adds to a pool can be started and
-- stopped, whatever the network grants.
use log_generator.Config.Profiles.{EpsProfile}
use log_generator.Float.{Float64}
use log_generator.Pool.Initialize.{
  InitOutcome, configure, create_loop, divided_by_zero, initialize, initialized, limited_count,
  make_worker, worker_failed,
}
use log_generator.Pool.Settings.{configure-Targeted}
use log_generator.Pool.State.{Pool}
use log_generator.Prelude.{
  All, All-append, List, Option, String, [], if_ind, if◌then◌else◌, length, none, not, refl, some,
  suc, zero, ℕ, ◌++◌, ◌+◌, ◌∙◌, ◌∷◌, ◌≡◌,
}
use log_generator.Prelude.Int.{eqb_ℤ, pos, rounds, ℤ}
use log_generator.Prelude.Result.{Result, err, ok, ◌>>=◌}
use log_generator.Worker.Lifecycle.Cycle.{IsFresh}
use log_generator.Worker.State.{
  Conn, Network, SetupError, Worker, initial_worker, new_udp_worker_with_config, open_conn,
  setup_udp_connection,
}

-- What a result holds, if it holds something, satisfies `P`.
abbrev pub IfOk : {E A : Type 0} → (A → Type 0) → Result E A → Type 0
IfOk P (ok a) = P a
IfOk P (err e) = Unit

setup-open : (net : Network) → IfOk (λ c. c ≡ open_conn) (setup_udp_connection net)
unfolding setup_udp_connection
setup-open net =
    if_ind (IfOk (λ c. c ≡ open_conn)) (not net.resolves) (λ _. tt)
      λ _.
        if_ind (IfOk (λ c. c ≡ open_conn)) (not net.dials) (λ _. tt)
          λ _. if_ind (IfOk (λ c. c ≡ open_conn)) (not net.buffers) (λ _. tt) (λ _. refl)

module _ {F : Type 0} (fl : Float64 F) where
  configure-IsFresh :
      (now : ℤ) (profile : EpsProfile) (count : ℤ) (w : Worker F)
      → IsFresh w
      → IsFresh (configure fl now profile count w)
  configure-IsFresh now profile count w h =
      let s = configure-Targeted fl now profile count w in
      record {
        idle = s.is_running ∙ h.idle;
        unstopped = s.stop_closed ∙ h.unstopped;
        connected = s.conn ∙ h.connected;
      }

  module _ (net : ℕ → Network) (now : ℤ) (host : String) (profile : EpsProfile) (count : ℤ) where
    built : (i : ℕ) → Conn → Result SetupError (Worker F)
    built i c = ok (
        configure fl now profile count (
          initial_worker fl now (pos (i + 1)) (pos (10514 + i)) host profile.batch_size
            profile.ticker_interval c))

    built-IsFresh :
        (i : ℕ) (r : Result SetupError Conn)
        → IfOk (λ c. c ≡ open_conn) r
        → IfOk IsFresh (r >>= built i)
    unfolding built initial_worker
    built-IsFresh i (err e) h = tt
    built-IsFresh i (ok c) h =
        configure-IsFresh now profile count _
          (record { idle = refl; unstopped = refl; connected = h })

    make_worker-IsFresh : (i : ℕ) → IfOk IsFresh (make_worker fl net now host profile count i)
    unfolding make_worker new_udp_worker_with_config built
    make_worker-IsFresh i = go (setup_udp_connection (net i)) (setup-open (net i))
      where
        go :
            (r : Result SetupError Conn)
            → IfOk (λ c. c ≡ open_conn) r
            → IfOk IsFresh (
                r
                >>= (λ c. ok (
                    initial_worker fl now
                      (pos (i + 1))
                      (pos (10514 + i))
                      host
                      profile.batch_size
                      profile.ticker_interval
                      c))
                >>= (λ w. ok (configure fl now profile count w)))
        go (err e) h = tt
        go (ok c) h = built-IsFresh i (ok c) h

    pub create_loop-IsFresh :
        (left i : ℕ) (made : List (Worker F))
        → All IsFresh made
        → All IsFresh (create_loop fl net now host profile count left i made).0
    unfolding create_loop
    create_loop-IsFresh zero i made h = h
    create_loop-IsFresh (suc left) i made h =
        next (make_worker fl net now host profile count i) (make_worker-IsFresh i)
          (λ ms k. create_loop-IsFresh left (suc i) ms k)
      where
        next :
            (r : Result SetupError (Worker F))
            → IfOk IsFresh r
            → ((ms : List (Worker F))
                → All IsFresh ms
                → All IsFresh (create_loop fl net now host profile count left (suc i) ms).0)
            → let q : List (Worker F) × Option (ℤ × SetupError) = elim r [
              | err e ↦ (made, some (pos (i + 1), e))
              | ok w ↦ create_loop fl net now host profile count left (suc i) (made ++ w ∷ [])
            ] in
              All IsFresh q.0
        next (err e) f rest = h
        next (ok w) f rest = rest (made ++ w ∷ []) (All-append IsFresh made (w ∷ []) h (f, tt))

  -- Initialize of a pool whose workers are fresh leaves it as idle as it was.
  pub initialize-IsFresh :
      (net : ℕ → Network) (now : ℤ) (p : Pool F)
      → All IsFresh p.workers
      → All IsFresh (initialize fl net now p).0.workers
        × ((initialize fl net now p).0.is_running ≡ p.is_running)
  unfolding initialize
  initialize-IsFresh net now p h =
      let count = limited_count p.profile in
      let (made, failure) =
        create_loop fl net now p.target_host p.profile count (rounds count) 0 p.workers in
      if_ind
        (λ (q : Pool F × InitOutcome). All IsFresh q.0.workers × (q.0.is_running ≡ p.is_running))
        p.is_running (λ _. (h, refl))
        (λ _.
          ended made failure (
            create_loop-IsFresh net now p.target_host p.profile count (rounds count) 0 p.workers h))
    where
      ended :
          (made : List (Worker F)) (failure : Option (ℤ × SetupError))
          → All IsFresh made
          → let count = limited_count p.profile in
            let q : Pool F × InitOutcome = elim failure [
              | some (id, e) ↦ (record p { workers = made }, worker_failed id e)
              | none ↦ (
                record p { workers = made; worker_count = pos (length made) },
                if eqb_ℤ count (pos 0) then divided_by_zero else initialized,
              )
            ] in
            All IsFresh q.0.workers × (q.0.is_running ≡ p.is_running)
      ended made (some (id, e)) k = (k, refl)
      ended made none k = (k, refl)
