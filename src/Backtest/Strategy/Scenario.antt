-- ===== src/Backtest/Strategy/Scenario.antt =====
-- btc_short_horizon/backtest/strategy.py: the books, signals and states of the tests.
use polymarket_btc.Prelude.{
  Result, string_eq, pair_eq, scale, units, zero_f, one_f, Float, pos, ok, err, ℕ, ◌*◌, true, false,
  some, List, [], ◌∷◌,
}
use polymarket_btc.Strategy.Types.{StrategyError, single, up, OrderPlan}
use polymarket_btc.Backtest.Signals.{Prediction, Signal}
use polymarket_btc.Backtest.Strategy.{Platform, BtcOpeningMispricingConfig, Adapter, new_adapter}
use polymarket_btc.Backtest.Strategy.Handlers.{
  ReplayEvent, start_event, signal_event, deltas_event, filled_event, evaluate_plan, step, replay,
}

abbrev pub config : BtcOpeningMispricingConfig
config = record {
  market_slug = "btc-updown-15m";
  up_instrument_id = "UP.POLYMARKET";
  down_instrument_id = "DOWN.POLYMARKET";
  maker = record {
    structure = single;
    max_shares = one_f;
    safety_buffer = units 10_000_000_000;
    minimum_edge = zero_f;
    maker_fee_per_share = zero_f;
    entry_start_seconds = units (3 * scale);
    entry_end_seconds = units (180 * scale);
    edge_persistence_seconds = units (2 * scale);
    max_work_seconds = units (60 * scale);
    stale_after_seconds = one_f;
    cancel_probability_drop = units 30_000_000_000;
    price_level_tick_offsets = pos 0 ∷ [];
  };
}

-- A book is its best bid and its best ask, and the deltas are a new book.
abbrev pub platform : Platform (Float × Float) (Float × Float)
platform = record {
  new_book = (zero_f, one_f);
  apply_deltas = λ deltas book. deltas;
  best_bid_price = λ book. some book.0;
  best_ask_price = λ book. some book.1;
  instrument = λ side. some (record {
    price_increment = some (units 10_000_000_000);
    make_qty = λ x. some x;
    make_price = λ x. some x;
  });
  limit = λ n side layer. some "O-1";
}

-- A signal of so many seconds after the start of the window.
abbrev pub signal : ℕ → Signal
signal n = record {
  market_slug = "btc-updown-15m";
  model_version = "v1";
  feature_schema_hash = "hash";
  market_window_start_ts_ns = pos 0;
  p_up = units 550_000_000_000;
  p_boundary_up = units 500_000_000_000;
  p_market_mid_up = units 510_000_000_000;
  data_age_seconds = units 100_000_000_000;
  has_data_gap = false;
  structure_valid = true;
  tick_unchanged = true;
  fee_unchanged = true;
  latency_healthy = true;
  ts_event = pos (n * 1_000_000_000);
  ts_init = pos (n * 1_000_000_000);
}

abbrev pub opening_events : List (ReplayEvent (Float × Float))
opening_events =
    start_event
    ∷ deltas_event "UP.POLYMARKET" (units 500_000_000_000, units 520_000_000_000) (pos 1)
    ∷ deltas_event "DOWN.POLYMARKET" (units 480_000_000_000, units 500_000_000_000) (pos 2)
    ∷ signal_event (signal 5)
    ∷ []

abbrev pub state_of :
    {Book : Type 0} → Result StrategyError (Adapter Book) → Adapter Book → Adapter Book
state_of (ok s) _ = s
state_of (err _) s = s

abbrev pub before : Adapter (Float × Float)
before = state_of (replay platform config opening_events (new_adapter config)) (new_adapter config)

abbrev pub placed : Adapter (Float × Float)
placed = state_of (step platform config (signal_event (signal 7)) before) before

-- A fill of 0.4 shares, while the order works.
abbrev pub partly : Adapter (Float × Float)
partly =
    state_of
      (step platform config (filled_event "O-1" (some (units 400_000_000_000)) (pos 8_000_000_000))
        placed)
      placed

abbrev pub watching : Adapter (Float × Float)
watching = record before { latest_signal = some (signal 7) }

abbrev pub plan_placed : OrderPlan
plan_placed = record {
  market_slug = "btc-updown-15m";
  token_id = "UP.POLYMARKET";
  side = up;
  p_fair = units 550_000_000_000;
  p_market = units 510_000_000_000;
  maker_fee_per_share = zero_f;
  safety_buffer = units 10_000_000_000;
  minimum_edge = zero_f;
  created_ts_ns = pos 7_000_000_000;
  expires_ts_ns = pos 67_000_000_000;
  layers = record { price = units 500_000_000_000; size = one_f } ∷ [];
}

-- After nine seconds the signal is stale.
abbrev pub canceling : Adapter (Float × Float)
canceling =
    state_of
      (evaluate_plan platform config (some plan_placed) (signal 7) (pos 9_000_000_000) placed)
      placed

abbrev pub prediction : Prediction
prediction = record {
  market_slug = "btc-updown-15m";
  model_version = "v1";
  feature_schema_hash = "hash";
  market_window_start_ts_ns = pos 0;
  trigger_ts_ns = pos 5_000_000_000;
  p_up = units 550_000_000_000;
  p_boundary_up = units 500_000_000_000;
  p_market_mid_up = units 510_000_000_000;
  data_age_seconds = units 100_000_000_000;
  has_data_gap = false;
  structure_valid = true;
  tick_unchanged = true;
  fee_unchanged = true;
  latency_healthy = true;
}
