-- ===== src/Backtest/Strategy/KeptCandidate.antt =====
-- btc_short_horizon/backtest/strategy.py: placing orders leaves the candidate side as it is.
use polymarket_btc.Prelude.{
  Bool-cases, ◌-ℤ◌, ltb_ℤ, ℤ, bind-ok, ok-inj, Result, string_eq, pair_eq, ok, String, ◌≡◌, refl,
  sym, inl, inr, Option, none, some, List, [], ◌∷◌, arith,
}
use polymarket_btc.Strategy.Types.{StrategyError, OrderPlan, MakerOrderLayer}
use polymarket_btc.Strategy.Lifecycle.{submit_plan, reject_order}
use polymarket_btc.Backtest.Strategy.{
  Instrument, Platform, BtcOpeningMispricingConfig, Adapter, record_audit,
}
use polymarket_btc.Backtest.Strategy.Orders.{
  Pending, materialize_plan, submit_all, submit_pending, submit_orders,
}
use polymarket_btc.Backtest.Strategy.Entry.{place, place_persistent}

-- The candidate of the second state is that of the first.
abbrev pub SameCandidate : {Book : Type 0} → Adapter Book → Adapter Book → Type 0
SameCandidate s s' =
    (s'.candidate_side ≡ s.candidate_side) × (s'.candidate_since_ts_ns ≡ s.candidate_since_ts_ns)

pub kept_candidate :
    {Book : Type 0} (s s' : Adapter Book)
    → ◌≡◌ {A = Result StrategyError (Adapter Book)} (ok s) (ok s')
    → SameCandidate s s'
kept_candidate s s' h = let e : s' ≡ s = sym (ok-inj h) in rw e (refl, refl)

submit_all-SameCandidate :
    {Book : Type 0} (ts : ℤ) (orders : List (String × MakerOrderLayer)) (s s' : Adapter Book)
    → submit_all ts orders s ≡ ok s'
    → SameCandidate s s'
unfolding submit_all
submit_all-SameCandidate ts [] s s' h = kept_candidate s s' h
submit_all-SameCandidate ts ((id, l) ∷ orders) s s' h =
    let (audit, _, next) = bind-ok (record_audit _ s.order_audit) _ h in
    submit_all-SameCandidate ts orders _ s' next

submit_pending-SameCandidate :
    {Book : Type 0} (ts : ℤ) (p : Pending) (s s' : Adapter Book)
    → submit_pending ts p s ≡ ok s'
    → SameCandidate s s'
unfolding submit_pending
submit_pending-SameCandidate ts ([], n) s s' h =
    let (e, _, next) = bind-ok (reject_order s.execution) _ h in
    kept_candidate (record s { execution = e; orders_made = n }) s' next
submit_pending-SameCandidate ts (o ∷ orders, n) s s' h =
    submit_all-SameCandidate ts (o ∷ orders) (record s { orders_made = n }) s' h

module _ {Book Deltas : Type 0} (v : Platform Book Deltas) (c : BtcOpeningMispricingConfig) where
  submit_orders-SameCandidate :
      (i : Option Instrument) (p : OrderPlan) (s s' : Adapter Book)
      → submit_orders v i p s ≡ ok s'
      → SameCandidate s s'
  unfolding submit_orders
  submit_orders-SameCandidate none p s s' h = absurd (ground arith)
  submit_orders-SameCandidate (some i) p s s' h =
      submit_pending-SameCandidate p.created_ts_ns _ s s' h

  place-SameCandidate :
      (o : Option OrderPlan) (s s' : Adapter Book) → place v c o s ≡ ok s' → SameCandidate s s'
  unfolding place
  place-SameCandidate none s s' h = kept_candidate s s' h
  place-SameCandidate (some p) s s' h =
      let (audit, _, next) = bind-ok (record_audit _ s.order_audit) _ h in
      let (e, eq, last) = bind-ok (submit_plan p s.execution) _ next in
      let t = record s { order_audit = audit; execution = e } in
      submit_orders-SameCandidate (s.instruments p.side) p t s' last

  pub place_persistent-SameCandidate :
      (now persistence : ℤ) (since : Option ℤ) (p : OrderPlan) (s s' : Adapter Book)
      → place_persistent v c now persistence since p s ≡ ok s'
      → SameCandidate s s'
  unfolding place_persistent
  place_persistent-SameCandidate now persistence none p s s' h = absurd (ground arith)
  place_persistent-SameCandidate now persistence (some since) p s s' h =
      elim (Bool-cases (ltb_ℤ (now -ℤ since) persistence)) [
        | inl early ↦ kept_candidate s s' (rw early at h)
        | inr late ↦
            let (made, eq, next) =
              bind-ok (materialize_plan (s.instruments p.side) p) _ (rw late at h) in
            place-SameCandidate made s s' next
      ]
