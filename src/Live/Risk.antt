-- ===== src/Live/Risk.antt =====
-- btc_short_horizon/live/risk.py: the limits that every order has to pass.
pub mod Bounds
mod Tests
use polymarket_btc.Prelude.{
  if◌then◌else◌, ltb_ℤ, leb_ℤ, ℤ, ◌>>=◌, ◌>>◌, raise_if, Result, is_finite, scale, units, zero_f,
  one_f, ◌<f◌, ◌≤f◌, ◌+f◌, negate, ◌*f◌, min_f, not_positive, Float, pos, ok, ◌*◌, Bool, true,
  false, not, ◌&&◌, ◌||◌,
}

-- The `ValueError`s of the module.
pub data RiskError : Type 0 where
  limit_below_one bad_limit bad_fraction not_finite negative_balance negative_count : RiskError

pub record TradingSafetyConfig : Type 0 where
  pub trading_enabled : Bool
  pub max_working_markets : ℤ
  pub max_open_orders : ℤ
  pub max_unresolved_notional : Float
  pub max_balance_fraction : Float
  pub daily_loss_limit : Float
  pub require_healthy_feeds : Bool
  pub require_geo_eligible : Bool

-- The defaults of the dataclass.
unfoldable pub default_config : TradingSafetyConfig
default_config = record {
  trading_enabled = false;
  max_working_markets = pos 1;
  max_open_orders = pos 3;
  max_unresolved_notional = units (25 * scale);
  max_balance_fraction = units 50_000_000_000;
  daily_loss_limit = units (10 * scale);
  require_healthy_feeds = true;
  require_geo_eligible = true;
}

-- `TradingSafetyConfig.__post_init__`
unfoldable pub make_config : TradingSafetyConfig → Result RiskError TradingSafetyConfig
make_config c = do
  raise_if (ltb_ℤ c.max_working_markets (pos 1)) limit_below_one
  raise_if (ltb_ℤ c.max_open_orders (pos 1)) limit_below_one
  raise_if (not_positive c.max_unresolved_notional) bad_limit
  raise_if (not_positive c.daily_loss_limit) bad_limit
  raise_if
      (not (is_finite c.max_balance_fraction)
        || not (zero_f <f c.max_balance_fraction && c.max_balance_fraction ≤f one_f))
      bad_fraction
  ok c

pub record AccountSnapshot : Type 0 where
  pub available_balance : Float
  pub unresolved_notional : Float
  pub daily_realized_pnl : Float
  pub working_markets : ℤ
  pub open_orders : ℤ
  pub feeds_healthy : Bool
  pub geo_eligible : Bool

-- `AccountSnapshot.__post_init__`
unfoldable pub make_account : AccountSnapshot → Result RiskError AccountSnapshot
make_account a = do
  raise_if (not (is_finite a.available_balance)) not_finite
  raise_if (not (is_finite a.unresolved_notional)) not_finite
  raise_if (not (is_finite a.daily_realized_pnl)) not_finite
  raise_if (a.available_balance <f zero_f || a.unresolved_notional <f zero_f) negative_balance
  raise_if (ltb_ℤ a.working_markets (pos 0) || ltb_ℤ a.open_orders (pos 0)) negative_count
  ok a

-- `RiskDecision.reason`
pub data RiskReason : Type 0 where
  invalid_order_notional trading_disabled feeds_unhealthy geo_ineligible : RiskReason
  working_market_limit open_order_limit daily_loss_limit_hit : RiskReason
  unresolved_notional_limit allowed : RiskReason

pub record RiskDecision : Type 0 where
  pub is_allowed : Bool
  pub reason : RiskReason

abbrev pub refuse : RiskReason → RiskDecision
refuse r = record { is_allowed = false; reason = r }

unfoldable pub max_notional : TradingSafetyConfig → AccountSnapshot → Float
max_notional c a = min_f c.max_unresolved_notional (a.available_balance *f c.max_balance_fraction)

unfoldable pub evaluate_order_risk : TradingSafetyConfig → AccountSnapshot → Float → RiskDecision
unfolding max_notional
evaluate_order_risk c a order_notional =
    if not_positive order_notional
    then refuse invalid_order_notional
    else if not c.trading_enabled
    then refuse trading_disabled
    else if c.require_healthy_feeds && not a.feeds_healthy
    then refuse feeds_unhealthy
    else if c.require_geo_eligible && not a.geo_eligible
    then refuse geo_ineligible
    else if leb_ℤ c.max_working_markets a.working_markets
    then refuse working_market_limit
    else if leb_ℤ c.max_open_orders a.open_orders
    then refuse open_order_limit
    else if a.daily_realized_pnl ≤f negate c.daily_loss_limit
    then refuse daily_loss_limit_hit
    else if max_notional c a <f a.unresolved_notional +f order_notional
    then refuse unresolved_notional_limit
    else record { is_allowed = true; reason = allowed }
