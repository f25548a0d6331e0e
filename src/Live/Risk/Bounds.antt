-- ===== src/Live/Risk/Bounds.antt =====
-- btc_short_horizon/live/risk.py: what an order that is allowed satisfies.
use polymarket_btc.Prelude.{
  ltb_ℤ, string_eq, pair_eq, is_finite, ◌<f◌, ◌≤f◌, ◌+f◌, negate, ◌*f◌, not_positive, Float,
  is_finite-+f, is_finite-*f, is_finite-negate, is_finite-min_f, positive-is_finite, <f-not-≤f,
  ≤f-min_f, ok, ◌≡◌, ap, ◌∙◌, ◌↔◌, true, false, not, ◌&&◌, arith,
}
use polymarket_btc.Live.Risk.{
  TradingSafetyConfig, make_config, AccountSnapshot, make_account, evaluate_order_risk,
  max_notional,
}

-- What an allowed order has passed.
pub record Allowed (c : TradingSafetyConfig) (a : AccountSnapshot) (n : Float) : Type 0 where
  pub positive : not_positive n ≡ false
  pub enabled : c.trading_enabled ≡ true
  pub feeds : (c.require_healthy_feeds ≡ true) → a.feeds_healthy ≡ true
  pub geo : (c.require_geo_eligible ≡ true) → a.geo_eligible ≡ true
  pub markets : ltb_ℤ a.working_markets c.max_working_markets ≡ true
  pub orders : ltb_ℤ a.open_orders c.max_open_orders ≡ true
  pub loss : (negate c.daily_loss_limit <f a.daily_realized_pnl) ≡ true
  pub notional : ((a.unresolved_notional +f n) ≤f c.max_unresolved_notional) ≡ true
  pub balance :
      ((a.unresolved_notional +f n) ≤f (a.available_balance *f c.max_balance_fraction)) ≡ true

config_finite :
    (c : TradingSafetyConfig)
    → make_config c ≡ ok c
    → (is_finite c.max_unresolved_notional ≡ true)
      × (is_finite c.daily_loss_limit ≡ true)
      × (is_finite c.max_balance_fraction ≡ true)
unfolding make_config
config_finite c v = ground arith

account_finite :
    (a : AccountSnapshot)
    → make_account a ≡ ok a
    → (is_finite a.available_balance ≡ true)
      × (is_finite a.unresolved_notional ≡ true)
      × (is_finite a.daily_realized_pnl ≡ true)
unfolding make_account
account_finite a v = ground arith

module _ (c : TradingSafetyConfig) (a : AccountSnapshot) (n : Float) (vc : make_config c ≡ ok c)
    (va : make_account a ≡ ok a) where
  -- The loss test refuses exactly at or below minus the limit.
  loss_test :
      (negate c.daily_loss_limit <f a.daily_realized_pnl)
      ≡ not (a.daily_realized_pnl ≤f negate c.daily_loss_limit)
  loss_test = <f-not-≤f _ _ (is_finite-negate _ (config_finite c vc).1) (account_finite a va).2

  -- The notional test refuses exactly above one of the two bounds.
  notional_test :
      not_positive n ≡ false
      → (max_notional c a <f a.unresolved_notional +f n)
        ≡ not (
            a.unresolved_notional +f n ≤f c.max_unresolved_notional
            && a.unresolved_notional +f n ≤f a.available_balance *f c.max_balance_fraction)
  unfolding max_notional
  notional_test p =
      let (cu, _, cf) = config_finite c vc in
      let (ab, au, _) = account_finite a va in
      let product = is_finite-*f a.available_balance c.max_balance_fraction ab cf in
      let sum = is_finite-+f a.unresolved_notional n au (positive-is_finite n p) in
      <f-not-≤f _ _ (is_finite-min_f _ _ cu product) sum
      ∙ ap not (≤f-min_f (a.unresolved_notional +f n) _ _ cu product)

  -- For a configuration and an account that passed their checks, an order is allowed exactly if its
  -- notional is positive and finite and every limit holds: no comparison is decided by a NaN.
  pub evaluate_order_risk-Allowed : ((evaluate_order_risk c a n).is_allowed ≡ true) ↔ Allowed c a n
  unfolding evaluate_order_risk
  evaluate_order_risk-Allowed =
      (λ h. ground (arith, loss_test, notional_test), λ h. ground (arith, loss_test, notional_test))
