-- ===== src/Strategy/Lifecycle/Runs.antt =====
-- btc_short_horizon/strategy/lifecycle.py: what any sequence of calls keeps. A call that raises
-- leaves the caller with the frozen value that it had.
use polymarket_btc.Prelude.{
  All, Result, string_eq, pair_eq, ok, err, ◌≡◌, refl, ◌∙◌, Bool, true, false, List, [], ◌∷◌, arith,
}
use polymarket_btc.Strategy.Types.{StrategyError}
use polymarket_btc.Strategy.Lifecycle.{
  StrategyPhase, discovered, monitoring, order_working, cancel_requested, MarketExecution,
  make_execution, transition, begin_monitoring, submit_plan, request_cancel, reject_cancel,
  record_fill, acknowledge_cancel, reject_order, complete_working_orders, record_resolution, redeem,
  Event, after_fill, begin_event, apply, keep, run,
}
use polymarket_btc.Strategy.Lifecycle.Invariant.{IsValid}
use polymarket_btc.Strategy.Lifecycle.Spec.{IsLegal, apply-IsValid}

-- What every successful call keeps, every sequence of calls keeps.
module _ (P : MarketExecution → Type 0)
    (step : (ev : Event) (e e' : MarketExecution)
      → IsLegal ev
      → P e
      → apply ev e ≡ ok e'
      → P e') where
  pub keep_induction :
      (ev : Event) (e : MarketExecution) (r : Result StrategyError MarketExecution)
      → IsLegal ev
      → apply ev e ≡ r
      → P e
      → P (keep e r)
  unfolding keep
  keep_induction ev e (ok e') l q h = step ev e e' l h q
  keep_induction ev e (err _) l q h = h

  run_induction : (evs : List Event) (e : MarketExecution) → All IsLegal evs → P e → P (run evs e)
  unfolding run
  run_induction [] e l h = h
  run_induction (ev ∷ evs) e l h =
      run_induction evs (keep e (apply ev e)) l.1 (keep_induction ev e (apply ev e) l.0 refl h)

-- After any sequence of calls with checked plans, from a valid execution, the invariant holds.
pub run-IsValid :
    (evs : List Event) (e : MarketExecution) → All IsLegal evs → IsValid e → IsValid (run evs e)
run-IsValid = run_induction IsValid (λ ev e e' l v h. apply-IsValid ev l v h)

-- No call replaces the plan of a placed market.
apply-plan :
    (ev : Event) (e : MarketExecution) {e' : MarketExecution}
    → e.is_placed ≡ true
    → apply ev e ≡ ok e'
    → (e'.is_placed ≡ true) × (e'.plan ≡ e.plan)
unfolding apply begin_monitoring request_cancel reject_cancel acknowledge_cancel reject_order
    complete_working_orders record_resolution redeem submit_plan transition make_execution
    record_fill after_fill
apply-plan begin_event e p h = ground arith
apply-plan _ e p h = ground arith

-- The phases that a placement cycle ends in: no order is open, and none can be placed again.
abbrev pub is_final : StrategyPhase → Bool
is_final discovered = false
is_final monitoring = false
is_final order_working = false
is_final cancel_requested = false
is_final _ = true

apply-final :
    (ev : Event) (e : MarketExecution) {e' : MarketExecution}
    → is_final e.phase ≡ true
    → apply ev e ≡ ok e'
    → (is_final e'.phase ≡ true) × (e'.filled_size ≡ e.filled_size) × (e'.plan ≡ e.plan)
unfolding apply begin_monitoring request_cancel reject_cancel acknowledge_cancel reject_order
    complete_working_orders record_resolution redeem submit_plan transition make_execution
    record_fill after_fill
apply-final begin_event e p h = ground arith
apply-final _ e p h = ground arith

-- Once a market is placed, no sequence of calls with checked plans unplaces it or replaces its plan:
-- one placement cycle per market.
pub run-plan :
    (evs : List Event) (e : MarketExecution)
    → All IsLegal evs
    → e.is_placed ≡ true
    → ((run evs e).is_placed ≡ true) × ((run evs e).plan ≡ e.plan)
run-plan evs e l p =
    run_induction (λ x. (x.is_placed ≡ true) × (x.plan ≡ e.plan))
      (λ ev x x' l h q. let r = apply-plan ev x h.0 q in (r.0, r.1 ∙ h.1)) evs e l (p, refl)

-- Once a cycle has ended, no sequence of calls with checked plans reopens it or changes the filled
-- size.
pub run-final :
    (evs : List Event) (e : MarketExecution)
    → All IsLegal evs
    → is_final e.phase ≡ true
    → (is_final (run evs e).phase ≡ true) × ((run evs e).filled_size ≡ e.filled_size)
run-final evs e l f =
    run_induction (λ x. (is_final x.phase ≡ true) × (x.filled_size ≡ e.filled_size))
      (λ ev x x' l h q. let r = apply-final ev x h.0 q in (r.0, r.1 ∙ h.1)) evs e l (f, refl)

pub request_cancel_phase :
    (e : MarketExecution) {e' : MarketExecution}
    → request_cancel e ≡ ok e'
    → e'.phase ≡ cancel_requested
unfolding request_cancel transition make_execution
request_cancel_phase e h = ground arith
