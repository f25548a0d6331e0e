-- ===== src/Backtest/Strategy/Tests.antt =====
-- btc_short_horizon/backtest/strategy.py at concrete inputs: books, two signals that are two seconds
-- apart, and the order that they lead to.
use polymarket_btc.Prelude.{
  ◌+ℤ◌, ◌-ℤ◌, ◌*ℤ◌, nat_eq, string_eq, pair_eq, insert, has_key, units, one_f, Float, ◌+f◌, ◌-f◌,
  ◌*f◌, pos, ok, ◌≡◌, refl, ◌⊎◌, true, none, some, [], ◌∷◌,
}
use polymarket_btc.Strategy.Types.{
  make_plan, make_layer, net_edge, model_edge, total_size, allocations, make_side_book,
  make_outcome_books, for_side,
}
use polymarket_btc.Strategy.Maker.{assess, is_exhausted, evaluate_cancellation}
use polymarket_btc.Strategy.Maker.Planning.{
  build_layers, plan_opening_mispricing_orders, candidates_of, plan_of_layers, plan_checked, choose,
  max_plan, first_price, key_lt, layer_price, layers_from, maximum_price, add_layer, is_unusable,
  snap_down, floor_ticks, round_ns,
}
use polymarket_btc.Strategy.Lifecycle.{
  fresh, make_execution, check_plan, submit_plan, order_working, is_phase, begin_monitoring,
  transition, request_cancel, record_fill, after_fill, remaining_size,
}
use polymarket_btc.Strategy.Lifecycle.Invariant.{IsValid}
use polymarket_btc.Backtest.Signals.{
  validate_opening_mispricing_signal, opening_signal_data_age_seconds, flag_reason, reason_or,
  stale_reason, opening_signal_entry_rejection_reason,
}
use polymarket_btc.Backtest.Strategy.{
  Adapter, new_adapter, record_audit, side_for_instrument, instrument_id_for, side_book,
  outcome_books,
}
use polymarket_btc.Backtest.Strategy.Orders.{
  fitted, keep_layer, fitted_layers, with_layers, materialize_plan, pending_orders, submit_all,
  submit_pending, submit_orders, cancel_each, request_cancel_all,
}
use polymarket_btc.Backtest.Strategy.Entry.{
  place, place_persistent, act_on, opening_of, decide_with, unless_rejected,
  submit_plan_if_actionable,
}
use polymarket_btc.Backtest.Strategy.Handlers.{
  signal_event, filled_event, evaluate_plan, process, process_latest, on_start, after_validation,
  on_data, apply_to_book, deltas_for, on_order_book_deltas, step, replay, on_order_filled,
  sized_fill, fill_of, keep_fill,
}
use polymarket_btc.Backtest.Strategy.Effects.{Follows, submits}
use polymarket_btc.Backtest.Strategy.Refinement.{
  since_reset, replay-Follows, replay-IsValid, replay-submits,
}
use polymarket_btc.Backtest.Strategy.Persistence.{IsJustified}
use polymarket_btc.Backtest.Strategy.Candidates.{Evaluation, Held, submit_plan_if_actionable-Held}
use polymarket_btc.Backtest.Strategy.Canceling.{Decided, evaluate_plan-Decided}
use polymarket_btc.Backtest.Strategy.Scenario.{
  config, platform, signal, opening_events, before, placed, partly, watching, plan_placed,
  canceling,
}

before_played : replay platform config opening_events (new_adapter config) ≡ ok before
unfolding replay step on_start on_data process_latest process after_validation deltas_for
    on_order_book_deltas apply_to_book submit_plan_if_actionable unless_rejected decide_with act_on
    opening_of validate_opening_mispricing_signal opening_signal_entry_rejection_reason flag_reason
    reason_or stale_reason opening_signal_data_age_seconds side_for_instrument new_adapter
    begin_monitoring transition make_execution fresh check_plan outcome_books side_book
    instrument_id_for make_side_book make_outcome_books plan_opening_mispricing_orders plan_checked
    candidates_of build_layers layers_from add_layer is_unusable layer_price snap_down floor_ticks
    maximum_price plan_of_layers round_ns choose max_plan make_layer make_plan net_edge allocations
    for_side ◌-f◌ ◌+f◌ ◌*f◌ ◌-ℤ◌ ◌+ℤ◌ ◌*ℤ◌ key_lt first_price model_edge
before_played = refl

placed_played : replay platform config (signal_event (signal 7) ∷ []) before ≡ ok placed
unfolding replay step on_start on_data process_latest process after_validation deltas_for
    on_order_book_deltas apply_to_book submit_plan_if_actionable unless_rejected decide_with act_on
    opening_of validate_opening_mispricing_signal opening_signal_entry_rejection_reason flag_reason
    reason_or stale_reason opening_signal_data_age_seconds side_for_instrument new_adapter
    begin_monitoring transition make_execution fresh check_plan outcome_books side_book
    instrument_id_for make_side_book make_outcome_books plan_opening_mispricing_orders plan_checked
    candidates_of build_layers layers_from add_layer is_unusable layer_price snap_down floor_ticks
    maximum_price plan_of_layers round_ns choose max_plan make_layer make_plan net_edge allocations
    for_side ◌-f◌ ◌+f◌ ◌*f◌ ◌-ℤ◌ ◌+ℤ◌ ◌*ℤ◌ key_lt first_price model_edge place place_persistent
    materialize_plan fitted keep_layer fitted_layers with_layers submit_plan submit_orders
    pending_orders submit_pending submit_all record_audit insert total_size
placed_played = refl

-- The order that was placed.
placed_submits :
    submits placed.calls ≡ ("O-1", record { price = units 500_000_000_000; size = one_f }) ∷ []
unfolding replay step on_start on_data process_latest process after_validation deltas_for
    on_order_book_deltas apply_to_book submit_plan_if_actionable unless_rejected decide_with act_on
    opening_of validate_opening_mispricing_signal opening_signal_entry_rejection_reason flag_reason
    reason_or stale_reason opening_signal_data_age_seconds side_for_instrument new_adapter
    begin_monitoring transition make_execution fresh check_plan outcome_books side_book
    instrument_id_for make_side_book make_outcome_books plan_opening_mispricing_orders plan_checked
    candidates_of build_layers layers_from add_layer is_unusable layer_price snap_down floor_ticks
    maximum_price plan_of_layers round_ns choose max_plan make_layer make_plan net_edge allocations
    for_side ◌-f◌ ◌+f◌ ◌*f◌ ◌-ℤ◌ ◌+ℤ◌ ◌*ℤ◌ key_lt first_price model_edge place place_persistent
    materialize_plan fitted keep_layer fitted_layers with_layers submit_plan submit_orders
    pending_orders submit_pending submit_all record_audit insert total_size submits
placed_submits = refl

placed_is_placed : placed.execution.is_placed ≡ true
unfolding replay step on_start on_data process_latest process after_validation deltas_for
    on_order_book_deltas apply_to_book submit_plan_if_actionable unless_rejected decide_with act_on
    opening_of validate_opening_mispricing_signal opening_signal_entry_rejection_reason flag_reason
    reason_or stale_reason opening_signal_data_age_seconds side_for_instrument new_adapter
    begin_monitoring transition make_execution fresh check_plan outcome_books side_book
    instrument_id_for make_side_book make_outcome_books plan_opening_mispricing_orders plan_checked
    candidates_of build_layers layers_from add_layer is_unusable layer_price snap_down floor_ticks
    maximum_price plan_of_layers round_ns choose max_plan make_layer make_plan net_edge allocations
    for_side ◌-f◌ ◌+f◌ ◌*f◌ ◌-ℤ◌ ◌+ℤ◌ ◌*ℤ◌ key_lt first_price model_edge place place_persistent
    materialize_plan fitted keep_layer fitted_layers with_layers submit_plan submit_orders
    pending_orders submit_pending submit_all record_audit insert total_size
placed_is_placed = refl

replay-Follows_example :
    Follows (since_reset platform config opening_events (fresh "btc-updown-15m")) before.execution
unfolding new_adapter
replay-Follows_example =
    replay-Follows platform config opening_events (new_adapter config) before before_played

replay-IsValid_example : IsValid before.execution
replay-IsValid_example = replay-IsValid platform config opening_events before refl before_played

partly_played :
    replay platform config
      (filled_event "O-1" (some (units 400_000_000_000)) (pos 8_000_000_000) ∷ [])
      placed
    ≡ ok partly
unfolding replay step on_start on_data process_latest process after_validation deltas_for
    on_order_book_deltas apply_to_book submit_plan_if_actionable unless_rejected decide_with act_on
    opening_of validate_opening_mispricing_signal opening_signal_entry_rejection_reason flag_reason
    reason_or stale_reason opening_signal_data_age_seconds side_for_instrument new_adapter
    begin_monitoring transition make_execution fresh check_plan outcome_books side_book
    instrument_id_for make_side_book make_outcome_books plan_opening_mispricing_orders plan_checked
    candidates_of build_layers layers_from add_layer is_unusable layer_price snap_down floor_ticks
    maximum_price plan_of_layers round_ns choose max_plan make_layer make_plan net_edge allocations
    for_side ◌-f◌ ◌+f◌ ◌*f◌ ◌-ℤ◌ ◌+ℤ◌ ◌*ℤ◌ key_lt first_price model_edge place place_persistent
    materialize_plan fitted keep_layer fitted_layers with_layers submit_plan submit_orders
    pending_orders submit_pending submit_all record_audit insert total_size on_order_filled
    sized_fill fill_of keep_fill has_key record_fill after_fill remaining_size
partly_played = refl

replay-submits_example :
    (submits partly.calls ≡ submits placed.calls)
    × (partly.execution.is_placed ≡ true)
    × (partly.execution.plan ≡ placed.execution.plan)
replay-submits_example =
    replay-submits platform config
      (filled_event "O-1" (some (units 400_000_000_000)) (pos 8_000_000_000) ∷ []) placed partly
      (refl, tt) placed_is_placed partly_played

watching_orders :
    submit_plan_if_actionable platform config (signal 7) (pos 7_000_000_000) watching ≡ ok placed
unfolding replay step on_start on_data process_latest process after_validation deltas_for
    on_order_book_deltas apply_to_book submit_plan_if_actionable unless_rejected decide_with act_on
    opening_of validate_opening_mispricing_signal opening_signal_entry_rejection_reason flag_reason
    reason_or stale_reason opening_signal_data_age_seconds side_for_instrument new_adapter
    begin_monitoring transition make_execution fresh check_plan outcome_books side_book
    instrument_id_for make_side_book make_outcome_books plan_opening_mispricing_orders plan_checked
    candidates_of build_layers layers_from add_layer is_unusable layer_price snap_down floor_ticks
    maximum_price plan_of_layers round_ns choose max_plan make_layer make_plan net_edge allocations
    for_side ◌-f◌ ◌+f◌ ◌*f◌ ◌-ℤ◌ ◌+ℤ◌ ◌*ℤ◌ key_lt first_price model_edge place place_persistent
    materialize_plan fitted keep_layer fitted_layers with_layers submit_plan submit_orders
    pending_orders submit_pending submit_all record_audit insert total_size
watching_orders = refl

-- Before the signal that made its side the candidate.
abbrev earlier : Adapter (Float × Float)
earlier = record watching { candidate_side = none; candidate_since_ts_ns = none }

candidate_found :
    submit_plan_if_actionable platform config (signal 5) (pos 5_000_000_000) earlier ≡ ok watching
unfolding replay step on_start on_data process_latest process after_validation deltas_for
    on_order_book_deltas apply_to_book submit_plan_if_actionable unless_rejected decide_with act_on
    opening_of validate_opening_mispricing_signal opening_signal_entry_rejection_reason flag_reason
    reason_or stale_reason opening_signal_data_age_seconds side_for_instrument new_adapter
    begin_monitoring transition make_execution fresh check_plan outcome_books side_book
    instrument_id_for make_side_book make_outcome_books plan_opening_mispricing_orders plan_checked
    candidates_of build_layers layers_from add_layer is_unusable layer_price snap_down floor_ticks
    maximum_price plan_of_layers round_ns choose max_plan make_layer make_plan net_edge allocations
    for_side ◌-f◌ ◌+f◌ ◌*f◌ ◌-ℤ◌ ◌+ℤ◌ ◌*ℤ◌ key_lt first_price model_edge place place_persistent
    materialize_plan fitted keep_layer fitted_layers with_layers submit_plan submit_orders
    pending_orders submit_pending submit_all record_audit insert total_size
candidate_found = refl

abbrev first_evaluation : Evaluation platform config
first_evaluation = record {
  signal = signal 5;
  now = pos 5_000_000_000;
  before = earlier;
  after = watching;
  returned = candidate_found;
}

submit_plan_if_actionable-Held_example :
    (placed.calls ≡ watching.calls)
    ⊎ ((j : IsJustified platform config (signal 7) (pos 7_000_000_000) watching) × Held platform
          config j.plan.side j.since
          (first_evaluation ∷ []))
submit_plan_if_actionable-Held_example =
    submit_plan_if_actionable-Held platform config (first_evaluation ∷ []) (signal 7)
      (pos 7_000_000_000) watching placed ((refl, refl), refl) watching_orders

canceling_played :
    evaluate_plan platform config (some plan_placed) (signal 7) (pos 9_000_000_000) placed
    ≡ ok canceling
unfolding replay step on_start on_data process_latest process after_validation deltas_for
    on_order_book_deltas apply_to_book submit_plan_if_actionable unless_rejected decide_with act_on
    opening_of validate_opening_mispricing_signal opening_signal_entry_rejection_reason flag_reason
    reason_or stale_reason opening_signal_data_age_seconds side_for_instrument new_adapter
    begin_monitoring transition make_execution fresh check_plan outcome_books side_book
    instrument_id_for make_side_book make_outcome_books plan_opening_mispricing_orders plan_checked
    candidates_of build_layers layers_from add_layer is_unusable layer_price snap_down floor_ticks
    maximum_price plan_of_layers round_ns choose max_plan make_layer make_plan net_edge allocations
    for_side ◌-f◌ ◌+f◌ ◌*f◌ ◌-ℤ◌ ◌+ℤ◌ ◌*ℤ◌ key_lt first_price model_edge place place_persistent
    materialize_plan fitted keep_layer fitted_layers with_layers submit_plan submit_orders
    pending_orders submit_pending submit_all record_audit insert total_size evaluate_plan
    evaluate_cancellation assess is_exhausted request_cancel_all cancel_each request_cancel
canceling_played = refl

placed_works : is_phase placed.execution.phase order_working ≡ true
unfolding replay step on_start on_data process_latest process after_validation deltas_for
    on_order_book_deltas apply_to_book submit_plan_if_actionable unless_rejected decide_with act_on
    opening_of validate_opening_mispricing_signal opening_signal_entry_rejection_reason flag_reason
    reason_or stale_reason opening_signal_data_age_seconds side_for_instrument new_adapter
    begin_monitoring transition make_execution fresh check_plan outcome_books side_book
    instrument_id_for make_side_book make_outcome_books plan_opening_mispricing_orders plan_checked
    candidates_of build_layers layers_from add_layer is_unusable layer_price snap_down floor_ticks
    maximum_price plan_of_layers round_ns choose max_plan make_layer make_plan net_edge allocations
    for_side ◌-f◌ ◌+f◌ ◌*f◌ ◌-ℤ◌ ◌+ℤ◌ ◌*ℤ◌ key_lt first_price model_edge place place_persistent
    materialize_plan fitted keep_layer fitted_layers with_layers submit_plan submit_orders
    pending_orders submit_pending submit_all record_audit insert total_size
placed_works = refl

evaluate_plan-Decided_example :
    Decided platform config plan_placed (signal 7) (pos 9_000_000_000) placed canceling
evaluate_plan-Decided_example =
    evaluate_plan-Decided platform config plan_placed (signal 7) (pos 9_000_000_000) placed
      canceling placed_works canceling_played
