-- ===== src/Backtest/Signals.antt =====
-- btc_short_horizon/backtest/signals.py and the prediction of
-- btc_short_horizon/models/opening_mispricing.py. A field of a signal that the code tests to be a
-- `bool` has the type Bool here, and a conversion by `float` or `int` keeps the value.
pub mod Validation
use polymarket_btc.Prelude.{
  if◌then◌else◌, ◌-ℤ◌, ◌*ℤ◌, ltb_ℤ, ℤ, any, ◌>>=◌, ◌>>◌, raise_if, Result, str_is_empty, is_finite,
  zero_f, ◌<f◌, ◌≤f◌, ◌+f◌, not_nonnegative, not_probability, Float, pos, ok, fin, String, Bool,
  not, ◌||◌, Option, none, some, [], ◌∷◌,
}
use polymarket_btc.Strategy.Types.{
  StrategyError, slug_required, bad_timestamps, bad_probability, bad_nonnegative, bad_config,
  before_creation,
}
use polymarket_btc.Strategy.Maker.{
  CancelReason, data_gap, data_stale, tick_changed, fee_changed, latency_unhealthy,
  structure_invalid,
}

-- `OpeningMispricingPrediction`
pub record Prediction : Type 0 where
  pub market_slug : String
  pub model_version : String
  pub feature_schema_hash : String
  pub market_window_start_ts_ns : ℤ
  pub trigger_ts_ns : ℤ
  pub p_up : Float
  pub p_boundary_up : Float
  pub p_market_mid_up : Float
  pub data_age_seconds : Float
  pub has_data_gap : Bool
  pub structure_valid : Bool
  pub tick_unchanged : Bool
  pub fee_unchanged : Bool
  pub latency_healthy : Bool

unfoldable pub make_prediction : Prediction → Result StrategyError Prediction
make_prediction p = do
  raise_if
      (str_is_empty p.market_slug
        || str_is_empty p.model_version
        || str_is_empty p.feature_schema_hash)
      slug_required
  raise_if
      (ltb_ℤ p.market_window_start_ts_ns (pos 0)
        || ltb_ℤ p.trigger_ts_ns p.market_window_start_ts_ns)
      bad_timestamps
  raise_if (any not_probability (p.p_up ∷ p.p_boundary_up ∷ p.p_market_mid_up ∷ [])) bad_probability
  raise_if (not_nonnegative p.data_age_seconds) bad_nonnegative
  ok p

-- `BtcOpeningMispricingSignal`
pub record Signal : Type 0 where
  pub market_slug : String
  pub model_version : String
  pub feature_schema_hash : String
  pub market_window_start_ts_ns : ℤ
  pub p_up : Float
  pub p_boundary_up : Float
  pub p_market_mid_up : Float
  pub data_age_seconds : Float
  pub has_data_gap : Bool
  pub structure_valid : Bool
  pub tick_unchanged : Bool
  pub fee_unchanged : Bool
  pub latency_healthy : Bool
  pub ts_event : ℤ
  pub ts_init : ℤ

unfoldable pub to_opening_mispricing_signal : Prediction → Signal
to_opening_mispricing_signal p = record {
  market_slug = p.market_slug;
  model_version = p.model_version;
  feature_schema_hash = p.feature_schema_hash;
  market_window_start_ts_ns = p.market_window_start_ts_ns;
  p_up = p.p_up;
  p_boundary_up = p.p_boundary_up;
  p_market_mid_up = p.p_market_mid_up;
  data_age_seconds = p.data_age_seconds;
  has_data_gap = p.has_data_gap;
  structure_valid = p.structure_valid;
  tick_unchanged = p.tick_unchanged;
  fee_unchanged = p.fee_unchanged;
  latency_healthy = p.latency_healthy;
  ts_event = p.trigger_ts_ns;
  ts_init = p.trigger_ts_ns;
}

unfoldable pub validate_opening_mispricing_signal : Signal → Result StrategyError Unit
validate_opening_mispricing_signal d = do
  raise_if
      (str_is_empty d.market_slug
        || str_is_empty d.model_version
        || str_is_empty d.feature_schema_hash)
      slug_required
  raise_if
      (ltb_ℤ d.market_window_start_ts_ns (pos 0) || ltb_ℤ d.ts_init d.market_window_start_ts_ns)
      bad_timestamps
  raise_if (any not_probability (d.p_up ∷ d.p_boundary_up ∷ d.p_market_mid_up ∷ [])) bad_probability
  raise_if (not_nonnegative d.data_age_seconds) bad_nonnegative

-- `ns / 1_000_000_000`, in units of 1e-12.
abbrev pub seconds_of : ℤ → Float
seconds_of ns = fin (ns *ℤ pos 1000)

unfoldable pub opening_signal_data_age_seconds : Signal → ℤ → Result StrategyError Float
opening_signal_data_age_seconds d now_ts_ns = do
  validate_opening_mispricing_signal d
  raise_if (ltb_ℤ now_ts_ns d.ts_init) before_creation
  ok (d.data_age_seconds +f seconds_of (now_ts_ns -ℤ d.ts_init))

-- The last two returns of the function below.
unfoldable pub stale_reason : Signal → ℤ → Float → Result StrategyError (Option CancelReason)
stale_reason d now_ts_ns stale_after_seconds = do
  age ← opening_signal_data_age_seconds d now_ts_ns
  ok (if stale_after_seconds <f age then some data_stale else none)

-- The tests of the flags.
unfoldable pub flag_reason : Signal → Option CancelReason
flag_reason d =
    if d.has_data_gap
    then some data_gap
    else if not d.structure_valid
    then some structure_invalid
    else if not d.tick_unchanged
    then some tick_changed
    else if not d.fee_unchanged
    then some fee_changed
    else if not d.latency_healthy
    then some latency_unhealthy
    else none

unfoldable pub reason_or :
    Option CancelReason
    → Result StrategyError (Option CancelReason)
    → Result StrategyError (Option CancelReason)
reason_or (some reason) later = ok (some reason)
reason_or none later = later

unfoldable pub opening_signal_entry_rejection_reason :
    Signal → ℤ → Float → Result StrategyError (Option CancelReason)
opening_signal_entry_rejection_reason d now_ts_ns stale_after_seconds = do
  raise_if (stale_after_seconds ≤f zero_f || not (is_finite stale_after_seconds)) bad_config
  reason_or (flag_reason d) (stale_reason d now_ts_ns stale_after_seconds)
