-- ===== src/Backtest/Strategy/Handlers.antt =====
-- btc_short_horizon/backtest/strategy.py: the handlers of the strategy.
use polymarket_btc.Prelude.{
  if◌then◌else◌, leb_ℤ, ℤ, ◌>>=◌, Result, string_eq, pair_eq, has_key, zero_f, ◌≤f◌, Float, pos, ok,
  err, String, Bool, true, false, not, ◌||◌, Option, none, some, List, [], ◌∷◌, ◌++◌, str_eq,
}
use polymarket_btc.Strategy.Types.{StrategyError, TokenSide, up, down, OrderPlan}
use polymarket_btc.Strategy.Maker.{MarketCheck, evaluate_cancellation}
use polymarket_btc.Strategy.Maker.Planning.{of_side}
use polymarket_btc.Strategy.Lifecycle.{
  MarketExecution, monitoring, order_working, is_phase, begin_monitoring, record_fill, fresh,
}
use polymarket_btc.Backtest.Signals.{
  Signal, validate_opening_mispricing_signal, opening_signal_data_age_seconds,
}
use polymarket_btc.Backtest.Strategy.{
  Platform, BtcOpeningMispricingConfig, Adapter, AuditType, fill_seen, cancel_ack, expired,
  rejected_by, denied, record_audit, stop, side_for_instrument, same_side,
}
use polymarket_btc.Backtest.Strategy.Orders.{request_cancel_all, close_order_event}
use polymarket_btc.Backtest.Strategy.Entry.{submit_plan_if_actionable}

-- What happens to an order, or the ways in which it closes.
pub data Closing : Type 0 where
  canceled_order expired_order rejected_order denied_order : Closing

abbrev pub audit_of : Closing → AuditType
audit_of canceled_order = cancel_ack
audit_of expired_order = expired
audit_of rejected_order = rejected_by
audit_of denied_order = denied

abbrev pub is_refusal : Closing → Bool
is_refusal rejected_order = true
is_refusal denied_order = true
is_refusal _ = false

-- An event of the platform, with the times of `_event_ts_ns`.
pub data ReplayEvent (Deltas : Type 0) : Type 0 where
  start_event stop_event reset_event : ReplayEvent Deltas
  signal_event : Signal → ReplayEvent Deltas
  deltas_event : String → Deltas → ℤ → ReplayEvent Deltas
  filled_event : String → Option Float → ℤ → ReplayEvent Deltas
  closed_event : Closing → String → ℤ → ReplayEvent Deltas

abbrev pub market_check : Signal → ℤ → TokenSide → Float → MarketCheck
market_check d now side age = record {
  now_ts_ns = now;
  selected_probability = of_side side d.p_up;
  data_age_seconds = age;
  has_data_gap = d.has_data_gap;
  structure_valid = d.structure_valid;
  tick_unchanged = d.tick_unchanged;
  fee_unchanged = d.fee_unchanged;
  latency_healthy = d.latency_healthy;
}

abbrev pub is_none : {A : Type 0} → Option A → Bool
is_none none = true
is_none (some _) = false

module _ {Book Deltas : Type 0} (v : Platform Book Deltas) (c : BtcOpeningMispricingConfig) where
  abbrev Step : Type 0
  Step = Result StrategyError (Adapter Book)

  -- `_evaluate_working_orders`, from the plan of the execution.
  unfoldable pub evaluate_plan : Option OrderPlan → Signal → ℤ → Adapter Book → Step
  evaluate_plan none d now s = ok s
  evaluate_plan (some p) d now s = do
    age ← opening_signal_data_age_seconds d now
    assessment ← evaluate_cancellation p c.maker (market_check d now p.side age)
    (if assessment.should_cancel then request_cancel_all now s else ok s)

  unfoldable pub process : Signal → ℤ → Adapter Book → Step
  process d now s =
      if is_phase s.execution.phase monitoring
      then submit_plan_if_actionable v c d now s
      else if is_phase s.execution.phase order_working
      then evaluate_plan s.execution.plan d now s
      else ok s

  unfoldable pub process_latest : Option Signal → ℤ → Adapter Book → Step
  process_latest none now s = ok s
  process_latest (some d) now s = if leb_ℤ now (pos 0) then ok s else process d now s

  -- `_process_signal`
  abbrev pub process_signal : ℤ → Adapter Book → Step
  process_signal now s = process_latest s.latest_signal now s

  unfoldable pub on_start : Adapter Book → Step
  on_start s =
      let s' = record s { instruments = v.instrument } in
      if is_none (v.instrument up) || is_none (v.instrument down)
      then ok (record s' { calls = s.calls ++ stop ∷ [] })
      else do execution ← begin_monitoring s.execution; ok (record s' { execution = execution })

  unfoldable pub after_validation : Result StrategyError Unit → Signal → Adapter Book → Step
  after_validation (err invalid) d s = ok s
  after_validation (ok _) d s = process_signal d.ts_init (record s { latest_signal = some d })

  unfoldable pub on_data : Signal → Adapter Book → Step
  on_data d s =
      if not (str_eq d.market_slug c.market_slug)
      then ok s
      else after_validation (validate_opening_mispricing_signal d) d s

  abbrev with_book : TokenSide → Book → (TokenSide → Option Book) → TokenSide → Option Book
  with_book side book books other = if same_side side other then some book else books other

  abbrev known_book : Option Book → Book
  known_book none = v.new_book
  known_book (some book) = book

  unfoldable pub apply_to_book : TokenSide → Deltas → Adapter Book → Adapter Book
  apply_to_book side deltas s = record s {
    books = with_book side (v.apply_deltas deltas (known_book (s.books side))) s.books;
  }

  unfoldable pub deltas_for : Option TokenSide → Deltas → ℤ → Adapter Book → Step
  deltas_for none deltas ts s = ok s
  deltas_for (some side) deltas ts s = process_signal ts (apply_to_book side deltas s)

  unfoldable pub on_order_book_deltas : String → Deltas → ℤ → Adapter Book → Step
  on_order_book_deltas id deltas ts s = deltas_for (side_for_instrument c id) deltas ts s

  -- A fill that the execution refuses stops the strategy.
  unfoldable pub keep_fill : Result StrategyError MarketExecution → Adapter Book → Step
  keep_fill (ok execution) s = ok (record s { execution = execution })
  keep_fill (err raised) s = ok (record s { calls = s.calls ++ stop ∷ [] })

  unfoldable pub fill_of : String → Float → ℤ → Adapter Book → Step
  fill_of id size ts s = do
    audit ←
        record_audit (record { event_type = fill_seen; ts_ns = ts; client_order_id = some id })
          s.order_audit
    keep_fill (record_fill size s.execution) (record s { order_audit = audit })

  unfoldable pub sized_fill : String → Option Float → ℤ → Adapter Book → Step
  sized_fill id none ts s = ok s
  sized_fill id (some size) ts s = if size ≤f zero_f then ok s else fill_of id size ts s

  unfoldable pub on_order_filled : String → Option Float → ℤ → Adapter Book → Step
  on_order_filled id size ts s =
      if not (has_key id s.active_orders) then ok s else sized_fill id size ts s

  unfoldable pub on_stop : Adapter Book → Step
  on_stop s =
      if is_phase s.execution.phase order_working then request_cancel_all (pos 0) s else ok s

  -- `on_reset`: the audit trail, and what was asked of the platform, stay.
  unfoldable pub on_reset : Adapter Book → Adapter Book
  on_reset s = record s {
    execution = fresh c.market_slug;
    instruments = λ _. none;
    books = λ _. none;
    latest_signal = none;
    active_orders = [];
    candidate_side = none;
    candidate_since_ts_ns = none;
  }

  -- One event.
  unfoldable pub step : ReplayEvent Deltas → Adapter Book → Step
  step start_event = on_start
  step stop_event = on_stop
  step reset_event = λ s. ok (on_reset s)
  step (signal_event d) = on_data d
  step (deltas_event id deltas ts) = on_order_book_deltas id deltas ts
  step (filled_event id size ts) = on_order_filled id size ts
  step (closed_event closing id ts) =
      close_order_event (audit_of closing) (is_refusal closing) id ts

  -- The events of a replay in their order, until one raises.
  unfoldable pub replay : List (ReplayEvent Deltas) → Adapter Book → Step
  replay [] s = ok s
  replay (ev ∷ evs) s = do s' ← step ev s; replay evs s'
