-- ===== src/Live/Risk/Tests.antt =====
-- btc_short_horizon/live/risk.py at concrete inputs.
use polymarket_btc.Prelude.{
  ◌+ℤ◌, ◌-ℤ◌, ◌*ℤ◌, string_eq, pair_eq, scale, units, zero_f, ◌+f◌, negate, ◌*f◌, pos, ok, ◌*◌, ◌≡◌,
  refl, ◌↔◌, true,
}
use polymarket_btc.Live.Risk.{
  TradingSafetyConfig, default_config, make_config, AccountSnapshot, make_account,
  evaluate_order_risk, refuse, trading_disabled, unresolved_notional_limit, allowed,
}
use polymarket_btc.Live.Risk.Bounds.{Allowed, evaluate_order_risk-Allowed}

abbrev enabled : TradingSafetyConfig
enabled = record {
  trading_enabled = true;
  max_working_markets = pos 1;
  max_open_orders = pos 3;
  max_unresolved_notional = units (25 * scale);
  max_balance_fraction = units 50_000_000_000;
  daily_loss_limit = units (10 * scale);
  require_healthy_feeds = true;
  require_geo_eligible = true;
}

-- 100 dollars, of which 5% may be unresolved, and 4 already are.
abbrev account : AccountSnapshot
account = record {
  available_balance = units (100 * scale);
  unresolved_notional = units (4 * scale);
  daily_realized_pnl = zero_f;
  working_markets = pos 0;
  open_orders = pos 0;
  feeds_healthy = true;
  geo_eligible = true;
}

enabled_valid : make_config enabled ≡ ok enabled
unfolding make_config
enabled_valid = refl

account_valid : make_account account ≡ ok account
unfolding make_account
account_valid = refl

default_refuses : evaluate_order_risk default_config account (units scale) ≡ refuse trading_disabled
unfolding evaluate_order_risk default_config
default_refuses = refl

-- One more dollar is the limit, and two are too many.
one_dollar : (evaluate_order_risk enabled account (units scale)).reason ≡ allowed
unfolding evaluate_order_risk negate ◌*f◌ ◌*ℤ◌ ◌-ℤ◌ ◌+f◌ ◌+ℤ◌
one_dollar = refl

two_dollars :
    evaluate_order_risk enabled account (units (2 * scale)) ≡ refuse unresolved_notional_limit
unfolding evaluate_order_risk negate ◌*f◌ ◌*ℤ◌ ◌-ℤ◌ ◌+f◌ ◌+ℤ◌
two_dollars = refl

evaluate_order_risk-Allowed_example :
    ((evaluate_order_risk enabled account (units scale)).is_allowed ≡ true)
    ↔ Allowed enabled account (units scale)
evaluate_order_risk-Allowed_example =
    evaluate_order_risk-Allowed enabled account (units scale) enabled_valid account_valid
