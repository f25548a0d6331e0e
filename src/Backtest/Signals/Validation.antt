-- ===== src/Backtest/Signals/Validation.antt =====
-- btc_short_horizon/backtest/signals.py: the checks of a signal against those of a prediction.
use polymarket_btc.Prelude.{is_ok, string_eq, pair_eq, ◌≡◌, arith}
use polymarket_btc.Backtest.Signals.{
  Prediction, make_prediction, to_opening_mispricing_signal, validate_opening_mispricing_signal,
}

-- The signal of a prediction passes its checks exactly if the prediction passes those of its
-- `__post_init__`, which are written in another module.
validate-to_opening_mispricing_signal :
    (p : Prediction)
    → is_ok (validate_opening_mispricing_signal (to_opening_mispricing_signal p))
      ≡ is_ok (make_prediction p)
unfolding validate_opening_mispricing_signal to_opening_mispricing_signal make_prediction
validate-to_opening_mispricing_signal p = ground arith
