-- ===== src/Strategy/Maker/Planning.antt =====
-- btc_short_horizon/strategy/maker.py: `plan_opening_mispricing_orders`, `_build_layers` and
-- `_snap_down`.
use polymarket_btc.Prelude.{
  ltb, if◌then◌else◌, ◌+ℤ◌, ◌-ℤ◌, ◌*ℤ◌, ltb_ℤ, ℤ, any, ◌>>=◌, ◌>>◌, raise_if, Result, string_eq,
  pair_eq, scale, zero_f, one_f, tolerance, ◌<f◌, ◌≤f◌, ◌+f◌, ◌-f◌, ◌*f◌, not_nonnegative,
  not_probability, ◌==f◌, Float, pos, negsuc, ok, err, fin, nan, ℕ, ◌+◌, ◌*◌, ◌/◌, ◌%◌, String,
  Bool, true, false, not, ◌&&◌, ◌||◌, Option, none, some, List, [], ◌∷◌, ◌++◌,
}
use polymarket_btc.Strategy.Types.{
  StrategyError, bad_timestamps, bad_probability, bad_nonnegative, index_error, int_of_non_finite,
  TokenSide, up, down, SideBook, OutcomeBooks, for_side, allocations, MakerOrderLayer, make_layer,
  OrderPlan, make_plan, net_edge, model_edge,
}
use polymarket_btc.Strategy.Maker.{MakerStrategyConfig}

-- `floor(v / tick) * tick`, for a positive tick.
unfoldable pub floor_ticks : ℤ → ℕ → ℤ
floor_ticks (pos n) tick = pos (n / tick * tick)
floor_ticks (negsuc n) tick = pos 0 -ℤ pos ((n / tick + 1) * tick)

-- `_snap_down`. A `SideBook` has a positive finite tick and finite prices, so no other case is met.
unfoldable pub snap_down : Float → Float → Float
unfolding floor_ticks
snap_down (fin v) (fin (pos tick)) = fin (floor_ticks (v +ℤ pos 1) tick)
snap_down _ _ = nan

-- `float(n)`
abbrev pub float_of : ℤ → Float
float_of n = fin (n *ℤ pos scale)

unfoldable pub layer_price : SideBook → ℤ → Float
layer_price b offset = snap_down (b.best_bid -f float_of offset *f b.tick_size) b.tick_size

-- The price is no passive price below the bound, or another layer has it.
unfoldable pub is_unusable : SideBook → Float → List Float → Float → Bool
is_unusable b maximum_price seen price =
    not (zero_f <f price && price <f b.best_ask)
    || maximum_price +f tolerance <f price
    || any (λ q. q ==f price) seen

-- `MakerOrderLayer(...)`, and its place before the layers that come after it.
unfoldable pub add_layer :
    MakerOrderLayer
    → Result StrategyError (List MakerOrderLayer)
    → Result StrategyError (List MakerOrderLayer)
add_layer layer rest = do l ← make_layer layer; ls ← rest; ok (l ∷ ls)

-- The loop of `_build_layers` over the allocations and the offsets, from the prices seen before.
unfoldable pub layers_from :
    SideBook
    → Float
    → Float
    → List Float
    → List ℤ
    → List Float
    → Result StrategyError (List MakerOrderLayer)
layers_from b maximum_price max_shares [] os seen = ok []
layers_from b maximum_price max_shares (a ∷ as') [] seen = err index_error
layers_from b maximum_price max_shares (a ∷ as') (o ∷ os) seen =
    let price = layer_price b o in
    let rest = layers_from b maximum_price max_shares as' os in
    if is_unusable b maximum_price seen price || max_shares *f a ≤f zero_f
    then rest seen
    else add_layer (record { price = price; size = max_shares *f a }) (rest (price ∷ seen))

-- The highest price that leaves the edge which the configuration asks for.
unfoldable pub maximum_price : Float → MakerStrategyConfig → Float
maximum_price p_fair c = p_fair -f c.maker_fee_per_share -f c.safety_buffer -f c.minimum_edge

-- `_build_layers`
unfoldable pub build_layers :
    Float → SideBook → MakerStrategyConfig → Result StrategyError (List MakerOrderLayer)
build_layers p_fair b c =
    layers_from b (maximum_price p_fair c) c.max_shares (allocations c.structure)
      c.price_level_tick_offsets []

-- `round(seconds * 1_000_000_000)`: to the nearest whole number, a half to the even one.
abbrev pub round_half_even : ℕ → ℕ
round_half_even n =
    if ltb (n % 1000) 500
    then n / 1000
    else if ltb 500 (n % 1000)
    then n / 1000 + 1
    else n / 1000 + (n / 1000) % 2

unfoldable pub round_ns : Float → Result StrategyError ℤ
round_ns (fin (pos n)) = ok (pos (round_half_even n))
round_ns (fin (negsuc n)) = ok (pos 0 -ℤ pos (round_half_even (n + 1)))
round_ns _ = err int_of_non_finite

pub data PlanReason : Type 0 where
  outside_entry_window no_passive_price_with_required_edge accepted : PlanReason

pub record PlanDecision : Type 0 where
  pub plan : Option OrderPlan
  pub reason : PlanReason

-- The probability of a side from that of Up.
abbrev pub of_side : TokenSide → Float → Float
of_side up p = p
of_side down p = one_f -f p

-- What `plan_opening_mispricing_orders` is called with, besides the books and the configuration.
pub record Opening : Type 0 where
  pub market_slug : String
  pub p_up : Float
  pub p_market_mid_up : Float
  pub decision_ts_ns : ℤ
  pub elapsed_seconds : Float

abbrev pub plan_for :
    Opening → OutcomeBooks → MakerStrategyConfig → ℤ → TokenSide → List MakerOrderLayer → OrderPlan
plan_for i b c work side layers = record {
  market_slug = i.market_slug;
  token_id = (for_side b side).token_id;
  side = side;
  p_fair = of_side side i.p_up;
  p_market = of_side side i.p_market_mid_up;
  maker_fee_per_share = c.maker_fee_per_share;
  safety_buffer = c.safety_buffer;
  minimum_edge = c.minimum_edge;
  created_ts_ns = i.decision_ts_ns;
  expires_ts_ns = i.decision_ts_ns +ℤ work;
  layers = layers;
}

unfoldable pub plan_of_layers :
    Opening
    → OutcomeBooks
    → MakerStrategyConfig
    → TokenSide
    → List MakerOrderLayer
    → Result StrategyError (List OrderPlan)
plan_of_layers i b c side [] = ok []
plan_of_layers i b c side (l ∷ ls) = do
  work ← round_ns c.max_work_seconds
  p ← make_plan (plan_for i b c work side (l ∷ ls))
  ok (p ∷ [])

-- One turn of the loop over the sides: at most one candidate.
unfoldable pub candidates_of :
    Opening → OutcomeBooks → MakerStrategyConfig → TokenSide → Result StrategyError (List OrderPlan)
candidates_of i b c side = do
  layers ← build_layers (of_side side i.p_up) (for_side b side) c
  plan_of_layers i b c side layers

-- The first price of a plan, which has layers: `make_plan` checks it.
unfoldable pub first_price : OrderPlan → Float
first_price p = elim p.layers as (λ _. Float) [ [] ↦ nan | l ∷ _ ↦ l.price ]

-- `key(a) < key(b)`: net edge, then model edge, then the side, "down" before "up".
unfoldable pub key_lt : OrderPlan → OrderPlan → Bool
key_lt a b =
    let m = net_edge a (first_price a) in
    let n = net_edge b (first_price b) in
    if m ==f n
    then if model_edge a ==f model_edge b
      then elim a.side [ up ↦ false | down ↦ elim b.side [ up ↦ true | down ↦ false ] ]
      else model_edge a <f model_edge b
    else m <f n

-- `max(candidates, key=...)`: the first of the largest.
unfoldable pub max_plan : OrderPlan → List OrderPlan → OrderPlan
max_plan p [] = p
max_plan p (q ∷ qs) = max_plan (if key_lt p q then q else p) qs

unfoldable pub choose : List OrderPlan → PlanDecision
choose [] = record { plan = none; reason = no_passive_price_with_required_edge }
choose (p ∷ ps) = record { plan = some (max_plan p ps); reason = accepted }

-- What follows the checks of the arguments.
unfoldable pub plan_checked :
    Opening → OutcomeBooks → MakerStrategyConfig → Result StrategyError PlanDecision
plan_checked i b c =
    if not (c.entry_start_seconds ≤f i.elapsed_seconds && i.elapsed_seconds ≤f c.entry_end_seconds)
    then ok (record { plan = none; reason = outside_entry_window })
    else do
      ups ← candidates_of i b c up
      downs ← candidates_of i b c down
      ok (choose (ups ++ downs))

unfoldable pub plan_opening_mispricing_orders :
    Opening → OutcomeBooks → MakerStrategyConfig → Result StrategyError PlanDecision
plan_opening_mispricing_orders i b c = do
  raise_if (ltb_ℤ i.decision_ts_ns (pos 0)) bad_timestamps
  raise_if (not_probability i.p_up) bad_probability
  raise_if (not_probability i.p_market_mid_up) bad_probability
  raise_if (not_nonnegative i.elapsed_seconds) bad_nonnegative
  plan_checked i b c
