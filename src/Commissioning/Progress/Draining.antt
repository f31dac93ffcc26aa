-- ===== src/Commissioning/Progress/Draining.antt =====
-- The progress of a commissioning in winrt/Projection.cpp: every value once and in order.
use matter_winrt.Base.{◌≡◌, sym, ◌∙◌, ap, true, false, List, [], ◌++◌, arith}
use mathlib.Core.List.{append-nil, append_assoc}
use matter_winrt.Commissioning.Progress.{Progress, Event, initial, run, is_empty, drained}
use matter_winrt.Commissioning.Progress.Invariant.{
  Inv, one_if, flight, flight-none, scheduled_off, init-Inv, run-Inv,
}

module _ {A : Type 0} where
  -- Whatever the publishers and the drains do in turn, with a RunAsync that throws or not: at every moment the handlers have been called with
  -- a beginning of what was published, in order, each value once; and when WaitForProgressDrain finds
  -- what it waits for, they have been called with all of it.
  pub progress_in_order :
      (es : List (Event A))
      → ((rest : List A) × ((run initial es).delivered ++ rest ≡ (run initial es).published))
        × (drained (run initial es) ≡ true
            → (run initial es).delivered ≡ (run initial es).published)
  unfolding drained
  progress_in_order es =
      let s = run initial es in
      let v = run-Inv initial es init-Inv in
      (
        (
          flight s.drains ++ s.pending,
          sym (append_assoc s.delivered (flight s.drains) s.pending) ∙ v.all,
        ),
        λ h. ended s v (scheduled_off s.scheduled (is_empty s.pending) h),
      )
    where
      ended : (s : Progress A) → Inv s → s.scheduled ≡ false → s.delivered ≡ s.published
      ended s v q =
          let none = flight-none s.drains (omega (arith, v.one_drain, ap one_if q)) in
          let left = v.none_left q in
          sym (append-nil s.delivered)
          ∙ sym (append-nil (s.delivered ++ []))
          ∙ (rw (none, left) at v.all)
