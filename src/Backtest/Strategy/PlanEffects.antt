-- ===== src/Backtest/Strategy/PlanEffects.antt =====
-- btc_short_horizon/backtest/strategy.py: what a signal does, from the checks of it to the orders.
use polymarket_btc.Prelude.{
  Bool-cases, ◌-ℤ◌, ltb_ℤ, ℤ, bind-ok, string_eq, pair_eq, ok, ◌≡◌, refl, inl, inr, not, Option,
  none, some, arith,
}
use polymarket_btc.Strategy.Types.{OrderPlan, OutcomeBooks}
use polymarket_btc.Strategy.Maker.{CancelReason, evaluate_cancellation}
use polymarket_btc.Strategy.Maker.Planning.{plan_opening_mispricing_orders, round_ns}
use polymarket_btc.Strategy.Lifecycle.Invariant.{IsWellFormed}
use polymarket_btc.Strategy.Lifecycle.{apply, submit_event, submit_plan}
use polymarket_btc.Backtest.Signals.{
  Signal, opening_signal_entry_rejection_reason, opening_signal_data_age_seconds,
}
use polymarket_btc.Backtest.Strategy.{
  Instrument, Platform, BtcOpeningMispricingConfig, Adapter, record_audit, outcome_books,
}
use polymarket_btc.Backtest.Strategy.Effects.{
  Follows, Follows-trans, Follows-call, Effect, Effect-idle, Effect-after,
}
use polymarket_btc.Backtest.Strategy.Orders.{materialize_plan, submit_orders}
use polymarket_btc.Backtest.Strategy.Fitting.{materialize_plan-IsWellFormed}
use polymarket_btc.Backtest.Strategy.OrderEffects.{
  submit_pending-Follows, request_cancel_all-Effect,
}
use polymarket_btc.Backtest.Strategy.Entry.{
  place, place_persistent, act_on, opening_of, decide_with, unless_rejected,
  submit_plan_if_actionable, is_candidate,
}
use polymarket_btc.Backtest.Strategy.Handlers.{evaluate_plan, market_check}

module _ {Book Deltas : Type 0} (v : Platform Book Deltas) (c : BtcOpeningMispricingConfig) where
  submit_orders-Follows :
      (i : Option Instrument) (p : OrderPlan) (s s' : Adapter Book)
      → submit_orders v i p s ≡ ok s'
      → Follows s.execution s'.execution
  unfolding submit_orders
  submit_orders-Follows none p s s' h = absurd (ground arith)
  submit_orders-Follows (some i) p s s' h = submit_pending-Follows p.created_ts_ns _ s s' h

  place-Effect :
      (o : Option OrderPlan) (s s' : Adapter Book)
      → ((p : OrderPlan) → o ≡ some p → IsWellFormed p)
      → place v c o s ≡ ok s'
      → Effect s s'
  unfolding place apply submit_plan
  place-Effect none s s' w h = Effect-idle s s' h
  place-Effect (some p) s s' w h =
      let (audit, _, next) = bind-ok (record_audit _ s.order_audit) _ h in
      let (e, eq, last) = bind-ok (submit_plan p s.execution) _ next in
      let t = record s { order_audit = audit; execution = e } in
      record {
        follows =
            Follows-trans s.execution e s'.execution
              (Follows-call (submit_event p) s.execution e (w p refl) eq)
              (submit_orders-Follows (s.instruments p.side) p t s' last);
        quiet = λ placed. absurd (ground arith);
      }

  place_persistent-Effect :
      (now persistence : ℤ) (since : Option ℤ) (p : OrderPlan) (s s' : Adapter Book)
      → place_persistent v c now persistence since p s ≡ ok s'
      → Effect s s'
  unfolding place_persistent
  place_persistent-Effect now persistence none p s s' h = absurd (ground arith)
  place_persistent-Effect now persistence (some since) p s s' h =
      elim (Bool-cases (ltb_ℤ (now -ℤ since) persistence)) [
        | inl early ↦ Effect-idle s s' (rw early at h)
        | inr late ↦
            let (made, eq, next) =
              bind-ok (materialize_plan (s.instruments p.side) p) _ (rw late at h) in
            place-Effect made s s'
              (λ q e. materialize_plan-IsWellFormed (s.instruments p.side) p q (rw e at eq)) next
      ]

  act_on-Effect :
      (now : ℤ) (o : Option OrderPlan) (s s' : Adapter Book)
      → act_on v c now o s ≡ ok s'
      → Effect s s'
  unfolding act_on
  act_on-Effect now none s s' h =
      Effect-after s (record s { candidate_side = none; candidate_since_ts_ns = none }) s' refl refl
        (Effect-idle _ s' h)
  act_on-Effect now (some p) s s' h =
      elim (Bool-cases (not (is_candidate p.side s.candidate_side))) [
        | inl new ↦
            Effect-after s
              (record s { candidate_side = some p.side; candidate_since_ts_ns = some now }) s' refl
              refl (Effect-idle _ s' (rw new at h))
        | inr same ↦
            let (persistence, _, next) =
              bind-ok (round_ns c.maker.edge_persistence_seconds) _ (rw same at h) in
            place_persistent-Effect now persistence s.candidate_since_ts_ns p s s' next
      ]

  decide_with-Effect :
      (d : Signal) (now : ℤ) (o : Option OutcomeBooks) (s s' : Adapter Book)
      → decide_with v c d now o s ≡ ok s'
      → Effect s s'
  unfolding decide_with
  decide_with-Effect d now none s s' h = Effect-idle s s' h
  decide_with-Effect d now (some b) s s' h =
      let (decision, _, next) =
        bind-ok (plan_opening_mispricing_orders (opening_of v c d now) b c.maker) _ h in
      act_on-Effect now decision.plan s s' next

  unless_rejected-Effect :
      (reason : Option CancelReason) (d : Signal) (now : ℤ) (s s' : Adapter Book)
      → unless_rejected v c reason d now s ≡ ok s'
      → Effect s s'
  unfolding unless_rejected
  unless_rejected-Effect none d now s s' h = decide_with-Effect d now (outcome_books v c s) s s' h
  unless_rejected-Effect (some reason) d now s s' h =
      Effect-after s (record s { candidate_side = none; candidate_since_ts_ns = none }) s' refl refl
        (Effect-idle _ s' h)

  pub submit_plan_if_actionable-Effect :
      (d : Signal) (now : ℤ) (s s' : Adapter Book)
      → submit_plan_if_actionable v c d now s ≡ ok s'
      → Effect s s'
  unfolding submit_plan_if_actionable
  submit_plan_if_actionable-Effect d now s s' h =
      let (reason, _, next) =
        bind-ok (opening_signal_entry_rejection_reason d now c.maker.stale_after_seconds) _ h in
      unless_rejected-Effect reason d now s s' next

  pub evaluate_plan-Effect :
      (o : Option OrderPlan) (d : Signal) (now : ℤ) (s s' : Adapter Book)
      → evaluate_plan v c o d now s ≡ ok s'
      → Effect s s'
  unfolding evaluate_plan
  evaluate_plan-Effect none d now s s' h = Effect-idle s s' h
  evaluate_plan-Effect (some p) d now s s' h =
      let (age, _, next) = bind-ok (opening_signal_data_age_seconds d now) _ h in
      let (assessment, _, last) =
        bind-ok (evaluate_cancellation p c.maker (market_check d now p.side age)) _ next in
      elim (Bool-cases assessment.should_cancel) [
        | inl cancel ↦ request_cancel_all-Effect now s s' (rw cancel at last)
        | inr continue ↦ Effect-idle s s' (rw continue at last)
      ]
