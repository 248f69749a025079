-- ===== src/Metrics/Lifecycle.antt =====
-- Start and Stop of the collector of pkg/metrics/collector.go. Its channel is made anew, so that it
-- can be started again after a stop.
use log_generator.Float.{Float64}
use log_generator.Metrics.{Collector, new_metrics_collector}
use log_generator.Prelude.{
  Bool, List, [], ap, arith, false, if_ind, if◌then◌else◌, refl, suc, true, ◌∙◌, ◌∷◌, ◌≡◌,
}
use log_generator.Prelude.Int.{ℤ}

-- The calls that the control server makes, in any order.
pub data CollectorCall : Type 0 where
  call_start call_stop : CollectorCall

-- Whether the last call is a Start; without a call, what was before.
unfoldable pub ends_started : List CollectorCall → Bool → Bool
ends_started [] before = before
ends_started (call_start ∷ calls) before = ends_started calls true
ends_started (call_stop ∷ calls) before = ends_started calls false

module _ {F H : Type 0} where
  -- Start
  unfoldable pub start_collector : Collector F H → Collector F H
  start_collector c = if c.is_collecting then c else record c {
    is_collecting = true;
    stop_closed = if c.stop_closed then false else c.stop_closed;
    loops = suc c.loops;
  }

  -- Stop: the loops end once the channel is closed, and it waits for them. A closed channel is not
  -- closed again, and the loops are not waited for.
  unfoldable pub stop_collector : Collector F H → Collector F H
  stop_collector c =
      if c.is_collecting
      then (if c.stop_closed
          then record c { is_collecting = false }
          else record c { is_collecting = false; stop_closed = true; loops = 0 })
      else c

  -- One loop runs while the collector collects, with its channel open, and none otherwise.
  pub record IsCollector (c : Collector F H) : Type 0 where
    pub one_loop : c.loops ≡ (if c.is_collecting then 1 else 0)
    pub unclosed : c.is_collecting ≡ true → c.stop_closed ≡ false

  abbrev pub run_calls : List CollectorCall → Collector F H → Collector F H
  run_calls [] c = c
  run_calls (call_start ∷ calls) c = run_calls calls (start_collector c)
  run_calls (call_stop ∷ calls) c = run_calls calls (stop_collector c)

  pub start-IsCollector :
      (c : Collector F H)
      → IsCollector c
      → IsCollector (start_collector c) × ((start_collector c).is_collecting ≡ true)
  unfolding start_collector
  start-IsCollector c h =
      if_ind (λ d. IsCollector d × (d.is_collecting ≡ true)) c.is_collecting (λ on. (h, on))
        (λ off. (
          record { one_loop = ap suc (h.one_loop ∙ rw off refl); unclosed = λ _. ground arith },
          refl,
        ))

  pub stop-IsCollector :
      (c : Collector F H)
      → IsCollector c
      → IsCollector (stop_collector c) × ((stop_collector c).is_collecting ≡ false)
  unfolding stop_collector
  stop-IsCollector c h =
      if_ind (λ d. IsCollector d × (d.is_collecting ≡ false)) c.is_collecting
        (λ on. rw (h.unclosed on) (record { one_loop = refl; unclosed = λ e. cc }, refl))
        (λ off. (h, off))

  calls-IsCollector :
      (calls : List CollectorCall) (c : Collector F H)
      → IsCollector c
      → IsCollector (run_calls calls c)
        × ((run_calls calls c).is_collecting ≡ ends_started calls c.is_collecting)
  unfolding ends_started
  calls-IsCollector [] c h = (h, refl)
  calls-IsCollector (call_start ∷ calls) c h =
      let (k, on) = start-IsCollector c h in
      rw (← on) (calls-IsCollector calls (start_collector c) k)
  calls-IsCollector (call_stop ∷ calls) c h =
      let (k, off) = stop-IsCollector c h in
      rw (← off) (calls-IsCollector calls (stop_collector c) k)

-- Whatever calls of Start and Stop a new collector gets, in any order, it collects exactly if the
-- last of them is a Start. Then exactly one loop runs and its channel is open; otherwise no loop
-- runs.
pub run_calls-IsCollector :
    {F : Type 0} (H : Type 0) (fl : Float64 F) (now : ℤ) (calls : List CollectorCall)
    → let c : Collector F H = run_calls calls (new_metrics_collector fl now) in
      (c.is_collecting ≡ ends_started calls false)
      × (c.loops ≡ (if ends_started calls false then 1 else 0))
      × (c.is_collecting ≡ true → c.stop_closed ≡ false)
unfolding new_metrics_collector
run_calls-IsCollector H fl now calls =
    let (k, e) =
      calls-IsCollector calls (new_metrics_collector fl now)
        (record { one_loop = refl; unclosed = λ _. refl }) in
    (e, rw (← e) k.one_loop, k.unclosed)
