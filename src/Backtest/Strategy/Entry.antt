-- ===== src/Backtest/Strategy/Entry.antt =====
-- btc_short_horizon/backtest/strategy.py: from a signal to the orders.
use polymarket_btc.Prelude.{
  if◌then◌else◌, ◌-ℤ◌, ltb_ℤ, ℤ, ◌>>=◌, Result, string_eq, pair_eq, ok, err, Bool, false, not,
  Option, none, some,
}
use polymarket_btc.Strategy.Types.{
  StrategyError, assertion_error, TokenSide, OrderPlan, OutcomeBooks,
}
use polymarket_btc.Strategy.Maker.{CancelReason}
use polymarket_btc.Strategy.Maker.Planning.{Opening, plan_opening_mispricing_orders, round_ns}
use polymarket_btc.Strategy.Lifecycle.{submit_plan}
use polymarket_btc.Backtest.Signals.{Signal, opening_signal_entry_rejection_reason, seconds_of}
use polymarket_btc.Backtest.Strategy.{
  Platform, BtcOpeningMispricingConfig, Adapter, plan_made, record_audit, same_side, outcome_books,
}
use polymarket_btc.Backtest.Strategy.Orders.{materialize_plan, submit_orders}

abbrev pub is_candidate : TokenSide → Option TokenSide → Bool
is_candidate side none = false
is_candidate side (some other) = same_side other side

abbrev later_of : ℤ → ℤ → ℤ
later_of a b = if ltb_ℤ a b then b else a

module _ {Book Deltas : Type 0} (v : Platform Book Deltas) (c : BtcOpeningMispricingConfig) where
  abbrev Step : Type 0
  Step = Result StrategyError (Adapter Book)

  abbrev drop_candidate : Adapter Book → Adapter Book
  drop_candidate s = record s { candidate_side = none; candidate_since_ts_ns = none }

  -- The plan that fits the venue is submitted, and then its orders.
  unfoldable pub place : Option OrderPlan → Adapter Book → Step
  place none s = ok s
  place (some p) s = do
    audit ←
        record_audit
          (record { event_type = plan_made; ts_ns = p.created_ts_ns; client_order_id = none })
          s.order_audit
    execution ← submit_plan p s.execution
    submit_orders v (s.instruments p.side) p
        (record s { order_audit = audit; execution = execution })

  -- The plan of a side that is the candidate since the given time.
  unfoldable pub place_persistent : ℤ → ℤ → Option ℤ → OrderPlan → Adapter Book → Step
  place_persistent now persistence none p s = err assertion_error
  place_persistent now persistence (some since) p s =
      if ltb_ℤ (now -ℤ since) persistence
      then ok s
      else do made ← materialize_plan (s.instruments p.side) p; place made s

  -- What follows the decision: the side has to stay the candidate for a while.
  unfoldable pub act_on : ℤ → Option OrderPlan → Adapter Book → Step
  act_on now none s = ok (drop_candidate s)
  act_on now (some p) s =
      if not (is_candidate p.side s.candidate_side)
      then ok (record s { candidate_side = some p.side; candidate_since_ts_ns = some now })
      else do
        persistence ← round_ns c.maker.edge_persistence_seconds
        place_persistent now persistence s.candidate_since_ts_ns p s

  unfoldable pub opening_of : Signal → ℤ → Opening
  opening_of d now = record {
    market_slug = c.market_slug;
    p_up = d.p_up;
    p_market_mid_up = d.p_market_mid_up;
    decision_ts_ns = later_of now d.ts_init;
    elapsed_seconds = seconds_of (d.ts_init -ℤ d.market_window_start_ts_ns);
  }

  unfoldable pub decide_with : Signal → ℤ → Option OutcomeBooks → Adapter Book → Step
  decide_with d now none s = ok s
  decide_with d now (some b) s = do
    decision ← plan_opening_mispricing_orders (opening_of d now) b c.maker
    act_on now decision.plan s

  unfoldable pub unless_rejected : Option CancelReason → Signal → ℤ → Adapter Book → Step
  unless_rejected (some reason) d now s = ok (drop_candidate s)
  unless_rejected none d now s = decide_with d now (outcome_books v c s) s

  -- `_submit_plan_if_actionable`
  unfoldable pub submit_plan_if_actionable : Signal → ℤ → Adapter Book → Step
  submit_plan_if_actionable d now s = do
    reason ← opening_signal_entry_rejection_reason d now c.maker.stale_after_seconds
    unless_rejected reason d now s
