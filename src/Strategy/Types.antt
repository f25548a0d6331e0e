-- ===== src/Strategy/Types.antt =====
-- btc_short_horizon/strategy/types.py: the validated value types of the maker strategy. A frozen
-- dataclass is a record, and its `__post_init__` a function that returns it or raises.

use polymarket_btc.Prelude.{
  String, ◌||◌, List, [], ◌∷◌, map, any, Result, ok, ◌>>◌, raise_if, str_is_empty, str_eq, Float,
  units, one_f, tolerance, ◌<f◌, ◌+f◌, ◌-f◌, ◌*f◌, halve, sum_f, not_nonnegative, not_positive,
  not_probability, ℤ, pos, ltb_ℤ, leb_ℤ, is_empty,
}

-- The `ValueError`s of the package, one for each message. `attribute_error` is Python's own, for
-- an attribute of `None`.
pub data StrategyError : Type 0 where
  token_id_required bad_probability bad_nonnegative bad_positive crossed_book : StrategyError
  same_tokens slug_required bad_timestamps no_layers edge_below_minimum : StrategyError
  slug_mismatch fill_without_plan fill_above_total placement_used not_monitoring : StrategyError
  fill_not_allowed bad_fill_size fill_above_remaining no_pending_cancel : StrategyError
  not_working not_terminal not_resolved nothing_to_redeem invalid_transition : StrategyError
  bad_config before_creation attribute_error index_error key_error assertion_error
        int_of_non_finite :
      StrategyError

pub data TokenSide : Type 0 where
  up down : TokenSide

pub data LayerStructure : Type 0 where
  single two_level three_level : LayerStructure

-- `LayerStructure.allocations`, in units.
unfoldable pub allocations : LayerStructure → List Float
allocations single = one_f ∷ []
allocations two_level = units 500_000_000_000 ∷ units 500_000_000_000 ∷ []
allocations three_level = units 500_000_000_000 ∷ units 300_000_000_000 ∷ units 200_000_000_000 ∷ []

-- `_require_probability`, `_require_nonnegative`, `_require_positive`.
abbrev pub require_probability : Float → Result StrategyError Unit
require_probability x = raise_if (not_probability x) bad_probability

abbrev pub require_nonnegative : Float → Result StrategyError Unit
require_nonnegative x = raise_if (not_nonnegative x) bad_nonnegative

abbrev pub require_positive : Float → Result StrategyError Unit
require_positive x = raise_if (not_positive x) bad_positive

pub record SideBook : Type 0 where
  pub token_id : String
  pub best_bid : Float
  pub best_ask : Float
  pub tick_size : Float

unfoldable pub make_side_book : SideBook → Result StrategyError SideBook
make_side_book b = do
  raise_if (str_is_empty b.token_id) token_id_required
  require_probability b.best_bid
  require_probability b.best_ask
  require_positive b.tick_size
  raise_if (b.best_ask <f b.best_bid) crossed_book
  ok b

unfoldable pub midpoint : SideBook → Float
midpoint b = halve (b.best_bid +f b.best_ask)

pub record OutcomeBooks : Type 0 where
  pub up_book : SideBook
  pub down_book : SideBook

unfoldable pub make_outcome_books : OutcomeBooks → Result StrategyError OutcomeBooks
make_outcome_books b = do
  raise_if (str_eq b.up_book.token_id b.down_book.token_id) same_tokens
  ok b

unfoldable pub for_side : OutcomeBooks → TokenSide → SideBook
for_side b up = b.up_book
for_side b down = b.down_book

unfoldable pub implied_up_midpoint : OutcomeBooks → Float
unfolding midpoint
implied_up_midpoint b = halve (midpoint b.up_book +f one_f -f midpoint b.down_book)

pub record MakerOrderLayer : Type 0 where
  pub price : Float
  pub size : Float

unfoldable pub make_layer : MakerOrderLayer → Result StrategyError MakerOrderLayer
make_layer l = do require_probability l.price; require_positive l.size; ok l

unfoldable pub notional : MakerOrderLayer → Float
notional l = l.price *f l.size

pub record OrderPlan : Type 0 where
  pub market_slug : String
  pub token_id : String
  pub side : TokenSide
  pub p_fair : Float
  pub p_market : Float
  pub maker_fee_per_share : Float
  pub safety_buffer : Float
  pub minimum_edge : Float
  pub created_ts_ns : ℤ
  pub expires_ts_ns : ℤ
  pub layers : List MakerOrderLayer

-- `OrderPlan.net_edge`, `model_edge`, `total_size`, `total_notional`.
unfoldable pub net_edge : OrderPlan → Float → Float
net_edge p price = p.p_fair -f price -f p.maker_fee_per_share -f p.safety_buffer

unfoldable pub model_edge : OrderPlan → Float
model_edge p = p.p_fair -f p.p_market

unfoldable pub total_size : OrderPlan → Float
total_size p = sum_f (map (λ l. l.size) p.layers)

unfoldable pub total_notional : OrderPlan → Float
unfolding notional
total_notional p = sum_f (map notional p.layers)

unfoldable pub make_plan : OrderPlan → Result StrategyError OrderPlan
unfolding net_edge
make_plan p = do
  raise_if (str_is_empty p.market_slug || str_is_empty p.token_id) slug_required
  require_probability p.p_fair
  require_probability p.p_market
  require_nonnegative p.maker_fee_per_share
  require_nonnegative p.safety_buffer
  require_nonnegative p.minimum_edge
  raise_if (ltb_ℤ p.created_ts_ns (pos 0) || leb_ℤ p.expires_ts_ns p.created_ts_ns) bad_timestamps
  raise_if (is_empty p.layers) no_layers
  raise_if (any (λ l. net_edge p l.price +f tolerance <f p.minimum_edge) p.layers)
      edge_below_minimum
  ok p
