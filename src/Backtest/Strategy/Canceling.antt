-- ===== src/Backtest/Strategy/Canceling.antt =====
-- btc_short_horizon/backtest/strategy.py: when working orders are canceled.
use polymarket_btc.Prelude.{
  Bool-cases, ℤ, bind-ok, string_eq, pair_eq, Dict, Float, ok, String, ◌≡◌, refl, sym, ◌∙◌, ◌⊎◌,
  inl, inr, true, false, some, List, [], ◌∷◌, ◌++◌, arith,
}
use polymarket_btc.Strategy.Types.{MakerOrderLayer, OrderPlan}
use polymarket_btc.Strategy.Maker.{evaluate_cancellation, CancellationAssessment}
use polymarket_btc.Strategy.Lifecycle.{order_working, cancel_requested, is_phase}
use polymarket_btc.Strategy.Lifecycle.{request_cancel as cancel_execution}
use polymarket_btc.Strategy.Lifecycle.Runs.{request_cancel_phase}
use mathlib.Core.List.{append_assoc, append-nil}
use polymarket_btc.Backtest.Signals.{Signal, opening_signal_data_age_seconds}
use polymarket_btc.Backtest.Strategy.{
  Platform, BtcOpeningMispricingConfig, Adapter, record_audit, VenueCall, cancel_order,
}
use polymarket_btc.Backtest.Strategy.Orders.{cancel_each, request_cancel_all, at_least_zero}
use polymarket_btc.Backtest.Strategy.Handlers.{evaluate_plan, market_check}

-- A call to cancel for each active order, in the order in which they were submitted.
pub cancels : Dict String MakerOrderLayer → List VenueCall
cancels [] = []
cancels ((id, l) ∷ os) = cancel_order id ∷ cancels os

-- The state after the orders were asked to be canceled.
pub record IsCanceling {Book : Type 0} (s s' : Adapter Book) : Type 0 where
  pub phase : s'.execution.phase ≡ cancel_requested
  pub calls : s'.calls ≡ s.calls ++ cancels s.active_orders
  pub active : s'.active_orders ≡ s.active_orders

module _ {Book : Type 0} where
  cancel_each-calls :
      (ts : ℤ) (os : Dict String MakerOrderLayer) (s s' : Adapter Book)
      → cancel_each ts os s ≡ ok s'
      → (s'.calls ≡ s.calls ++ cancels os)
        × (s'.execution ≡ s.execution)
        × (s'.active_orders ≡ s.active_orders)
  unfolding cancel_each cancels
  cancel_each-calls ts [] s s' h =
      let e : s' ≡ s = ground arith in rw e (sym (append-nil s.calls), refl, refl)
  cancel_each-calls ts ((id, l) ∷ os) s s' h =
      let (audit, _, next) = bind-ok (record_audit _ s.order_audit) _ h in
      let t = record s { order_audit = audit; calls = s.calls ++ cancel_order id ∷ [] } in
      let (calls, same, active) = cancel_each-calls ts os t s' next in
      (calls ∙ append_assoc s.calls (cancel_order id ∷ []) (cancels os), same, active)

  request_cancel_all-IsCanceling :
      (now : ℤ) (s s' : Adapter Book)
      → is_phase s.execution.phase order_working ≡ true
      → request_cancel_all now s ≡ ok s'
      → IsCanceling s s'
  unfolding request_cancel_all
  request_cancel_all-IsCanceling now s s' working h =
      let (e, eq, next) = bind-ok (cancel_execution s.execution) _ (rw working at h) in
      let (calls, same, active) =
        cancel_each-calls (at_least_zero now) s.active_orders (record s { execution = e }) s'
          next in
      record {
        phase = rw same (request_cancel_phase s.execution eq);
        calls = calls;
        active = active;
      }

-- What is decided for the working orders of a plan, and done.
pub record Decided {Book Deltas : Type 0} (v : Platform Book Deltas)
    (c : BtcOpeningMispricingConfig) (p : OrderPlan) (d : Signal) (now : ℤ) (s s' : Adapter Book)
    : Type 0 where
  pub age : Float
  pub age_eq : opening_signal_data_age_seconds d now ≡ ok age
  pub assessment : CancellationAssessment
  pub assessed : evaluate_cancellation p c.maker (market_check d now p.side age) ≡ ok assessment
  pub done :
      ((assessment.should_cancel ≡ false) × (s' ≡ s))
      ⊎ ((assessment.should_cancel ≡ true) × IsCanceling s s')

-- While orders work, a signal that is processed leads to `evaluate_cancellation` on the plan with the
-- age of the signal; where it says so, every active order, in the order of submission, and nothing
-- else, is asked to be canceled and the phase becomes CANCEL_REQUESTED, and where not, nothing changes.
pub evaluate_plan-Decided :
    {Book Deltas : Type 0} (v : Platform Book Deltas) (c : BtcOpeningMispricingConfig)
    (p : OrderPlan) (d : Signal) (now : ℤ) (s s' : Adapter Book)
    → is_phase s.execution.phase order_working ≡ true
    → evaluate_plan v c (some p) d now s ≡ ok s'
    → Decided v c p d now s s'
unfolding evaluate_plan
evaluate_plan-Decided v c p d now s s' working h =
    let (age, age_eq, next) = bind-ok (opening_signal_data_age_seconds d now) _ h in
    let (assessment, assessed, last) =
      bind-ok (evaluate_cancellation p c.maker (market_check d now p.side age)) _ next in
    record {
      age = age;
      age_eq = age_eq;
      assessment = assessment;
      assessed = assessed;
      done = elim (Bool-cases assessment.should_cancel) [
        | inl cancel ↦
            inr (cancel, request_cancel_all-IsCanceling now s s' working (rw cancel at last))
        | inr go_on ↦ let same : s' ≡ s = ground arith in inl (go_on, same)
      ];
    }
