-- ===== src/Control/Completion.antt =====
-- Completions of native operations.
use roo_wifi.Base.{◌≡◌, ◌≢◌, sym, ap, ◌∙◌, ◌⊎◌, inl, inr, arith}
use roo_wifi.Types.{OperationResult}
use roo_wifi.Control.Interfaces.{Interface, Store}
use roo_wifi.Control.State.{Controller}
use roo_wifi.Control.Events.{finish_scan, finish_transition, on_operation_finished}
use roo_wifi.Control.Diagram.{Progress, view, IsOrderly}
use roo_wifi.Control.Frames.{view-finish_transition, view-finish_scan}

module _ {r : Interface} {t : Store} where
  -- A completion for an id that is not active changes nothing.
  stale :
      (o : OperationResult) (c : Controller r t)
      → (o.id ≢ 0 → (view c).station_id ≢ o.id)
      → (o.id ≢ 0 → (view c).scan_id ≢ o.id)
      → on_operation_finished o c ≡ c
  unfolding on_operation_finished view
  stale o c h k = ground arith

  after_scan :
      (o : OperationResult) (c : Controller r t)
      → IsOrderly (view c)
      → (view c).scan_id ≡ o.id
      → on_operation_finished o (finish_scan o c) ≡ finish_scan o c
  after_scan o c v e =
      stale o (finish_scan o c)
        (λ h k.
          v.distinct
            (λ z. h (sym k ∙ ap (λ (p : Progress). p.station_id) (view-finish_scan o c) ∙ z))
            (sym (ap (λ (p : Progress). p.station_id) (view-finish_scan o c)) ∙ k ∙ sym e))
        (λ h k. h (sym k ∙ ap (λ (p : Progress). p.scan_id) (view-finish_scan o c)))

  after_transition :
      (o : OperationResult) (c : Controller r t)
      → IsOrderly (view c)
      → (view c).station_id ≡ o.id
      → on_operation_finished o (finish_transition o c) ≡ finish_transition o c
  after_transition o c v e =
      stale o (finish_transition o c)
        (λ h k. h (sym k ∙ ap (λ (p : Progress). p.station_id) (view-finish_transition o c)))
        (λ h k.
          v.distinct (λ z. h (sym e ∙ z))
            (e ∙ sym k ∙ ap (λ (p : Progress). p.scan_id) (view-finish_transition o c)))

  outcomes :
      (o : OperationResult) (c : Controller r t)
      → (on_operation_finished o c ≡ c)
        ⊎ ((((view c).scan_id ≡ o.id) × (on_operation_finished o c ≡ finish_scan o c))
            ⊎ (((view c).station_id ≡ o.id) × (on_operation_finished o c ≡ finish_transition o c)))
  unfolding on_operation_finished view
  outcomes o c = ground arith

  -- A completion counts once: an orderly controller ignores every repetition of it.
  pub on_operation_finished_twice :
      (o : OperationResult) (c : Controller r t)
      → IsOrderly (view c)
      → on_operation_finished o (on_operation_finished o c) ≡ on_operation_finished o c
  on_operation_finished_twice o c v = elim (outcomes o c) [
    | inl e ↦ ap (on_operation_finished o) e
    | inr (inl (k, e)) ↦ ap (on_operation_finished o) e ∙ after_scan o c v k ∙ sym e
    | inr (inr (k, e)) ↦ ap (on_operation_finished o) e ∙ after_transition o c v k ∙ sym e
  ]
