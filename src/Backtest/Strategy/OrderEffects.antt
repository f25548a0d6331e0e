-- ===== src/Backtest/Strategy/OrderEffects.antt =====
-- btc_short_horizon/backtest/strategy.py: what the functions that place, cancel and close orders do.
use polymarket_btc.Prelude.{
  Bool-cases, ℤ, is_empty, bind-ok, string_eq, pair_eq, Dict, insert, has_key, remove, zero_f,
  ◌==f◌, ok, String, ◌≡◌, refl, ◌∙◌, inl, inr, Bool, not, ◌&&◌, List, [], ◌∷◌, ◌++◌, arith,
}
use polymarket_btc.Strategy.Types.{MakerOrderLayer}
use polymarket_btc.Strategy.Lifecycle.{
  MarketExecution, order_working, cancel_requested, is_phase, apply, request_event,
  acknowledge_event, reject_order_event, complete_event, reject_order,
}
use polymarket_btc.Strategy.Lifecycle.{request_cancel as cancel_execution}
use polymarket_btc.Backtest.Strategy.{Adapter, AuditType, record_audit, submit_order, cancel_order}
use polymarket_btc.Backtest.Strategy.Effects.{
  Follows, Follows-call, Follows-same, submits, submits_cancel, Effect, Effect-idle, Effect-call,
  Effect-after,
}
use polymarket_btc.Backtest.Strategy.Orders.{
  Pending, submit_all, submit_pending, cancel_each, request_cancel_all, close_execution,
  after_removal, close_order_event, at_least_zero,
}

close_execution-Follows :
    (rejected : Bool) (e f : MarketExecution) → close_execution rejected e ≡ ok f → Follows e f
unfolding close_execution apply
close_execution-Follows rejected e f h = elim (Bool-cases (is_phase e.phase cancel_requested)) [
  | inl canceling ↦ Follows-call acknowledge_event e f tt (rw canceling at h)
  | inr other ↦ elim (Bool-cases (is_phase e.phase order_working)) [
    | inl working ↦ elim (Bool-cases (rejected && e.filled_size ==f zero_f)) [
      | inl refused ↦ Follows-call reject_order_event e f tt (rw (other, working, refused) at h)
      | inr done ↦ Follows-call complete_event e f tt (rw (other, working, done) at h)
    ]
    | inr closed ↦ Follows-same e f (ground arith)
  ]
]

module _ {Book : Type 0} where
  submit_all-execution :
      (ts : ℤ) (os : List (String × MakerOrderLayer)) (s s' : Adapter Book)
      → submit_all ts os s ≡ ok s'
      → s'.execution ≡ s.execution
  unfolding submit_all
  submit_all-execution ts [] s s' h = let e : s' ≡ s = ground arith in rw e refl
  submit_all-execution ts ((id, l) ∷ os) s s' h =
      let (audit, _, next) = bind-ok (record_audit _ s.order_audit) _ h in
      submit_all-execution ts os
        (record s {
          active_orders = insert id l s.active_orders;
          order_audit = audit;
          calls = s.calls ++ submit_order id l ∷ [];
        })
        s' next

  pub submit_pending-Follows :
      (ts : ℤ) (os : Pending) (s s' : Adapter Book)
      → submit_pending ts os s ≡ ok s'
      → Follows s.execution s'.execution
  unfolding submit_pending apply
  submit_pending-Follows ts ([], n) s s' h =
      let (e, eq, next) = bind-ok (reject_order s.execution) _ h in
      let same : s' ≡ record s { execution = e; orders_made = n } = ground arith in
      rw same (Follows-call reject_order_event s.execution e tt eq)
  submit_pending-Follows ts (o ∷ os, n) s s' h =
      Follows-same s.execution s'.execution
        (submit_all-execution ts (o ∷ os) (record s { orders_made = n }) s' h)

  cancel_each-same :
      (ts : ℤ) (os : Dict String MakerOrderLayer) (s s' : Adapter Book)
      → cancel_each ts os s ≡ ok s'
      → (s'.execution ≡ s.execution) × (submits s'.calls ≡ submits s.calls)
  unfolding cancel_each
  cancel_each-same ts [] s s' h = let e : s' ≡ s = ground arith in rw e (refl, refl)
  cancel_each-same ts ((id, l) ∷ os) s s' h =
      let (audit, _, next) = bind-ok (record_audit _ s.order_audit) _ h in
      let (e, c) =
        cancel_each-same ts os
          (record s { order_audit = audit; calls = s.calls ++ cancel_order id ∷ [] }) s' next in
      (e, c ∙ submits_cancel s.calls id)

  pub request_cancel_all-Effect :
      (now : ℤ) (s s' : Adapter Book) → request_cancel_all now s ≡ ok s' → Effect s s'
  unfolding request_cancel_all apply
  request_cancel_all-Effect now s s' h =
      elim (Bool-cases (not (is_phase s.execution.phase order_working))) [
        | inl other ↦ Effect-idle s s' (rw other at h)
        | inr working ↦
            let (f, eq, next) = bind-ok (cancel_execution s.execution) _ (rw working at h) in
            let (e, c) =
              cancel_each-same (at_least_zero now) s.active_orders (record s { execution = f }) s'
                next in
            Effect-call request_event s s' tt (rw e eq) c
      ]

  after_removal-Effect :
      (rejected : Bool) (s s' : Adapter Book) → after_removal rejected s ≡ ok s' → Effect s s'
  unfolding after_removal
  after_removal-Effect rejected s s' h = elim (Bool-cases (not (is_empty s.active_orders))) [
    | inl more ↦ Effect-idle s s' (rw more at h)
    | inr last ↦
        let (f, eq, next) = bind-ok (close_execution rejected s.execution) _ (rw last at h) in
        let e : s' ≡ record s { execution = f } = ground arith in
        rw e (record {
          follows = close_execution-Follows rejected s.execution f eq;
          quiet = λ _. refl;
        })
  ]

  pub close_order_event-Effect :
      (kind : AuditType) (rejected : Bool) (id : String) (ts : ℤ) (s s' : Adapter Book)
      → close_order_event kind rejected id ts s ≡ ok s'
      → Effect s s'
  unfolding close_order_event
  close_order_event-Effect kind rejected id ts s s' h =
      elim (Bool-cases (not (has_key id s.active_orders))) [
        | inl unknown ↦ Effect-idle s s' (rw unknown at h)
        | inr known ↦
            let (audit, _, next) = bind-ok (record_audit _ s.order_audit) _ (rw known at h) in
            let t = record s { order_audit = audit; active_orders = remove id s.active_orders } in
            Effect-after s t s' refl refl (after_removal-Effect rejected t s' next)
      ]
