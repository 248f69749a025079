-- ===== src/Monitor/Launch/Race.antt =====
-- Whether the loop of metricsUpdateLoop in internal/monitor/control_server.go survives its start.
use mathlib.Core.Path.{subst}
use log_generator.Monitor.Launch.{
  Action, Launch, Phase, act, act_all, finished, fires, launches, test_at, testing, tests, tick_at,
  turns_off, turns_on, waiting,
}
use log_generator.Prelude.{
  All, All-append, Bool, List, Option, [], false, if_ind, if◌then◌else◌, length, none, not, refl,
  some, suc, true, zero, ℕ, ◌&&◌, ◌++◌, ◌+◌, ◌∙◌, ◌∷◌, ◌≡◌, ◌≢◌,
}

abbrev pub AreFinished : List Phase → Type 0
AreFinished = All (λ p. p ≡ finished)

-- No step of the list launches a loop.
abbrev pub LaunchesNone : List Action → Type 0
LaunchesNone = All (λ a. a ≢ launches)

test_at-finished : (on : Bool) (i : ℕ) (ps : List Phase) → AreFinished ps → test_at on i ps ≡ none
unfolding test_at
test_at-finished on i [] h = refl
test_at-finished on zero (testing ∷ ps) h = cc
test_at-finished on zero (waiting ∷ ps) h = cc
test_at-finished on zero (finished ∷ ps) h = refl
test_at-finished on (suc i) (p ∷ ps) h = rw (test_at-finished on i ps h.1) refl

tick_at-finished : (i : ℕ) (ps : List Phase) → AreFinished ps → tick_at i ps ≡ none
unfolding tick_at
tick_at-finished i [] h = refl
tick_at-finished zero (testing ∷ ps) h = cc
tick_at-finished zero (waiting ∷ ps) h = cc
tick_at-finished zero (finished ∷ ps) h = refl
tick_at-finished (suc i) (p ∷ ps) h = rw (tick_at-finished i ps h.1) refl

-- What a step leaves, where it can be taken
abbrev Leaves : Launch → Option Launch → Type 0
Leaves s none = Unit {0}
Leaves s (some t) = (t.loops ≡ s.loops) × (t.updates ≡ s.updates)

act-Leaves : (a : Action) (s : Launch) → AreFinished s.loops → a ≢ launches → Leaves s (act a s)
unfolding act
act-Leaves launches s h ne = absurd (ne refl)
act-Leaves turns_on s h ne = if_ind (Leaves s) s.starting (λ _. (refl, refl)) (λ _. tt)
act-Leaves turns_off s h ne =
    if_ind (Leaves s) (s.is_running && not s.starting) (λ _. (refl, refl)) (λ _. tt)
act-Leaves (tests i) s h ne = rw (test_at-finished s.is_running i s.loops h) tt
act-Leaves (fires i) s h ne = rw (tick_at-finished i s.loops h) tt

Leaves-step :
    (s t : Launch) (o : Option Launch)
    → (t.loops ≡ s.loops) × (t.updates ≡ s.updates)
    → Leaves t o
    → Leaves s o
Leaves-step s t none l k = tt
Leaves-step s t (some u) l k = (k.0 ∙ l.0, k.1 ∙ l.1)

act_all-Leaves :
    (acts : List Action) (s : Launch)
    → AreFinished s.loops
    → LaunchesNone acts
    → Leaves s (act_all acts s)
unfolding act_all
act_all-Leaves [] s h quiet = (refl, refl)
act_all-Leaves (a ∷ acts) s h quiet =
    after (act a s) (act-Leaves a s h quiet.0) (λ t same. act_all-Leaves acts t (rw same h) quiet.1)
  where
    after :
        (o : Option Launch)
        → Leaves s o
        → ((t : Launch) → t.loops ≡ s.loops → Leaves t (act_all acts t))
        → let r : Option Launch = elim o [ none ↦ none | some t ↦ act_all acts t ] in Leaves s r
    after none l next = tt
    after (some t) l next = Leaves-step s t (act_all acts t) l (next t l.0)

test_at-last :
    (on : Bool) (ps : List Phase)
    → test_at on (length ps) (ps ++ testing ∷ [])
      ≡ some (ps ++ (if on then waiting else finished) ∷ [])
unfolding test_at
test_at-last on [] = refl
test_at-last on (p ∷ ps) = rw (test_at-last on ps) refl

All-last : (ps : List Phase) → AreFinished ps → AreFinished (ps ++ finished ∷ [])
All-last ps h = All-append (λ p. p ≡ finished) ps (finished ∷ []) h (refl, tt)

-- The loop of a start whose first test comes before isRunning is set ends at once.
abbrev pub early : Launch → List Action
early s = launches ∷ tests (length s.loops) ∷ turns_on ∷ []

-- A step that can be taken, before others
pub act_all-taken :
    (a : Action) (acts : List Action) (s t : Launch)
    → act a s ≡ some t
    → act_all (a ∷ acts) s ≡ act_all acts t
unfolding act_all
act_all-taken a acts s t e = rw (act_all, e) refl

pub act-launches :
    (s : Launch)
    → s.is_running ≡ false
    → s.starting ≡ false
    → act launches s ≡ some (record s { starting = true; loops = s.loops ++ testing ∷ [] })
unfolding act
act-launches s off free = rw (act, off, free) refl

pub act-tests :
    (s : Launch) (ps : List Phase)
    → s.loops ≡ ps ++ testing ∷ []
    → act (tests (length ps)) s
      ≡ some (record s { loops = ps ++ (if s.is_running then waiting else finished) ∷ [] })
unfolding act
act-tests s ps e = rw (act, e, test_at-last s.is_running ps) refl

early-acts :
    (s : Launch)
    → s.is_running ≡ false
    → s.starting ≡ false
    → act_all (early s) s
      ≡ some (record s { is_running = true; starting = false; loops = s.loops ++ finished ∷ [] })
unfolding act_all act
early-acts s off free =
    let t = record s { starting = true; loops = s.loops ++ testing ∷ [] } in
    let u = record s { starting = true; loops = s.loops ++ finished ∷ [] } in
    let e : act (tests (length s.loops)) t ≡ some u = act-tests t s.loops refl ∙ rw off refl in
    act_all-taken launches (tests (length s.loops) ∷ turns_on ∷ []) s t (act-launches s off free)
    ∙ act_all-taken (tests (length s.loops)) (turns_on ∷ []) t u e

tick_at-last :
    (ps : List Phase) → tick_at (length ps) (ps ++ waiting ∷ []) ≡ some (ps ++ testing ∷ [])
unfolding tick_at
tick_at-last [] = refl
tick_at-last (p ∷ ps) = rw (tick_at-last ps) refl

act-fires :
    (s : Launch) (ps : List Phase)
    → s.loops ≡ ps ++ waiting ∷ []
    → act (fires (length ps)) s
      ≡ some (record s { loops = ps ++ testing ∷ []; updates = s.updates + 1 })
unfolding act
act-fires s ps e = rw (act, e, tick_at-last ps) refl

-- The loop of a start whose first test comes after isRunning is set brings the collector in step.
abbrev pub late : Launch → List Action
late s = launches ∷ turns_on ∷ tests (length s.loops) ∷ fires (length s.loops) ∷ []

late-acts :
    (s : Launch)
    → s.is_running ≡ false
    → s.starting ≡ false
    → act_all (late s) s
      ≡ some (record s {
        is_running = true;
        starting = false;
        loops = s.loops ++ testing ∷ [];
        updates = s.updates + 1;
      })
unfolding act_all act
late-acts s off free =
    let n = length s.loops in
    let t = record s { starting = true; loops = s.loops ++ testing ∷ [] } in
    let u = record t { starting = false; is_running = true } in
    let v = record u { loops = s.loops ++ waiting ∷ [] } in
    act_all-taken launches (turns_on ∷ tests n ∷ fires n ∷ []) s t (act-launches s off free)
    ∙ act_all-taken (tests n) (fires n ∷ []) u v (act-tests u s.loops refl)
    ∙ act_all-taken (fires n) [] v _ (act-fires v s.loops refl)

-- The order of the launch and of isRunning decides: of a server whose loops have all ended, the steps
-- of a start can be taken with the test of the new loop first, and then the generator runs but
-- whatever follows, up to the next start, the collector gets nothing; and they can be taken with the
-- test last, and then the collector is brought in step at the first tick.
pub start-races :
    (s : Launch)
    → s.is_running ≡ false
    → s.starting ≡ false
    → AreFinished s.loops
    → ((v : Launch) × (act_all (early s) s ≡ some v)
        × (v.is_running ≡ true)
        × ((acts : List Action)
            → LaunchesNone acts
            → (t : Launch) → act_all acts v ≡ some t
            → t.updates ≡ s.updates))
      × ((w : Launch) × (act_all (late s) s ≡ some w)
          × (w.is_running ≡ true)
          × (w.updates ≡ s.updates + 1))
start-races s off free over = (
  (
    record s { is_running = true; starting = false; loops = s.loops ++ finished ∷ [] },
    early-acts s off free,
    refl,
    λ acts quiet t e.
        (subst
          (Leaves
            (record s { is_running = true; starting = false; loops = s.loops ++ finished ∷ [] }))
          e
          (act_all-Leaves acts
            (record s { is_running = true; starting = false; loops = s.loops ++ finished ∷ [] })
            (All-last s.loops over) quiet)).1,
  ),
  (
    record s {
      is_running = true;
      starting = false;
      loops = s.loops ++ testing ∷ [];
      updates = s.updates + 1;
    },
    late-acts s off free,
    refl,
    refl,
  ),
)
