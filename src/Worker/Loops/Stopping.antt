-- ===== src/Worker/Loops/Stopping.antt =====
-- Which signals end the send loops of internal/worker/udp_worker.go and udp_worker_ultra.go.
use log_generator.Prelude.{All, Bool, List, [], arith, false, refl, true, ◌&&◌, ◌||◌, ◌∷◌, ◌≡◌}
use log_generator.Worker.Loops.{Mode, medium, performance}

-- The cases of a loop's `select`: the context, the worker's channel, and a batch.
pub data Case : Type 0 where
  ctx_done stop_signal batch : Case

-- The context is cancelled; the worker's channel is closed.
pub record Signals : Type 0 where
  pub cancelled : Bool
  pub closed : Bool

-- Whether a loop has the case <-w.stopChan. sendLoopMedium and sendLoopPerformance have not.
unfoldable pub watches_stop : Mode → Bool
watches_stop medium = false
watches_stop performance = false
watches_stop _ = true

-- Whether the `select` of a loop can take a case: a batch is always due sooner or later.
unfoldable pub ready : Mode → Signals → Case → Bool
ready mode s ctx_done = s.cancelled
ready mode s stop_signal = s.closed && watches_stop mode
ready mode s batch = true

pub data Loop : Type 0 where
  running ended : Loop

-- One turn of a loop that takes the case.
unfoldable pub turn : Case → Loop → Loop
turn c ended = ended
turn batch running = running
turn ctx_done running = ended
turn stop_signal running = ended

unfoldable pub turns : List Case → Loop → Loop
turns [] l = l
turns (c ∷ cs) l = turns cs (turn c l)

-- Every case of the list could be taken.
abbrev pub AreReady : Mode → Signals → List Case → Type 0
AreReady mode s = All (λ c. ready mode s c ≡ true)

-- Some signal reaches the loop.
unfoldable pub reaches : Mode → Signals → Bool
reaches mode s = s.cancelled || s.closed && watches_stop mode

not_reached :
    (mode : Mode) (s : Signals) (c : Case)
    → reaches mode s ≡ false
    → ready mode s c ≡ true
    → turn c running ≡ running
unfolding reaches ready turn
not_reached mode s ctx_done h r = ground arith
not_reached mode s stop_signal h r = ground arith
not_reached mode s batch h r = refl

exit_case :
    (mode : Mode) (s : Signals) (b : Bool)
    → s.cancelled ≡ b
    → reaches mode s ≡ true
    → (c : Case) × (ready mode s c ≡ true) × (turns (c ∷ []) running ≡ ended)
unfolding reaches ready turns turn
exit_case mode s true e h = (ctx_done, e, refl)
exit_case mode s false e h = (stop_signal, ground arith, refl)

stays :
    (mode : Mode) (s : Signals) (cs : List Case)
    → reaches mode s ≡ false
    → AreReady mode s cs
    → turns cs running ≡ running
unfolding turns
stays mode s [] h r = refl
stays mode s (c ∷ cs) h r = rw (not_reached mode s c h r.0) (stays mode s cs h r.1)

-- A signal that reaches a loop lets it end with its next turn. If no signal reaches it, it runs on
-- whatever turns it takes.
pub turns-reaches :
    (mode : Mode) (s : Signals)
    → (reaches mode s ≡ true
        → (c : Case) × (ready mode s c ≡ true) × (turns (c ∷ []) running ≡ ended))
      × (reaches mode s ≡ false
          → (cs : List Case) → AreReady mode s cs
          → turns cs running ≡ running)
turns-reaches mode s = (exit_case mode s s.cancelled refl, λ h cs. stays mode s cs h)
