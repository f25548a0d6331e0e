-- ===== src/Strategy/Maker/Tests.antt =====
-- btc_short_horizon/strategy/maker.py at concrete inputs.
use polymarket_btc.Prelude.{
  ◌+ℤ◌, ◌-ℤ◌, ◌*ℤ◌, All, string_eq, pair_eq, scale, units, zero_f, one_f, ◌+f◌, ◌-f◌, ◌*f◌, pos, ok,
  ◌*◌, ◌≡◌, refl, ◌↔◌, true, false, some, [], ◌∷◌, arith,
}
use polymarket_btc.Strategy.Types.{
  OrderPlan, TokenSide, single, up, down, make_plan, make_layer, net_edge, allocations, SideBook,
  OutcomeBooks, make_side_book, for_side,
}
use polymarket_btc.Strategy.Lifecycle.Invariant.{IsWellFormed}
use polymarket_btc.Strategy.Maker.{
  MakerStrategyConfig, MarketCheck, continue, make_maker_config, is_sorted, assess, is_exhausted,
  evaluate_cancellation,
}
use polymarket_btc.Strategy.Maker.Planning.{
  Opening, build_layers, plan_opening_mispricing_orders, accepted, candidates_of, plan_of_layers,
  plan_checked, choose, max_plan, layer_price, layers_from, maximum_price, add_layer, is_unusable,
  snap_down, floor_ticks, round_ns,
}
use polymarket_btc.Strategy.Maker.Layers.{IsPassive, AllFresh, build_layers-IsPassive}
use polymarket_btc.Strategy.Maker.Totality.{IsReady}
use polymarket_btc.Strategy.Maker.Choice.{ChosenFrom, plan_opening_mispricing_orders-ChosenFrom}
use polymarket_btc.Strategy.Maker.Cancellation.{Continues, evaluate_cancellation-Continues}

-- The defaults of the dataclass.
abbrev config : MakerStrategyConfig
config = record {
  structure = single;
  max_shares = one_f;
  safety_buffer = units 10_000_000_000;
  minimum_edge = zero_f;
  maker_fee_per_share = zero_f;
  entry_start_seconds = units (3 * scale);
  entry_end_seconds = units (180 * scale);
  edge_persistence_seconds = units (2 * scale);
  max_work_seconds = units (60 * scale);
  stale_after_seconds = one_f;
  cancel_probability_drop = units 30_000_000_000;
  price_level_tick_offsets = pos 0 ∷ pos 1 ∷ pos 2 ∷ [];
}

abbrev plan : OrderPlan
plan = record {
  market_slug = "btc-updown-5m";
  token_id = "up";
  side = up;
  p_fair = units 550_000_000_000;
  p_market = units 500_000_000_000;
  maker_fee_per_share = zero_f;
  safety_buffer = units 10_000_000_000;
  minimum_edge = zero_f;
  created_ts_ns = pos 0;
  expires_ts_ns = pos 60_000_000_000;
  layers = record { price = units 500_000_000_000; size = one_f } ∷ [];
}

abbrev check : MarketCheck
check = record {
  now_ts_ns = pos 1_000_000_000;
  selected_probability = units 540_000_000_000;
  data_age_seconds = units 100_000_000_000;
  has_data_gap = false;
  structure_valid = true;
  tick_unchanged = true;
  fee_unchanged = true;
  latency_healthy = true;
}

plan-IsWellFormed : IsWellFormed plan
unfolding make_plan net_edge make_layer ◌-f◌ ◌+f◌ ◌-ℤ◌ ◌+ℤ◌
plan-IsWellFormed = record { built = refl; layers = (refl, tt) }

config_made : make_maker_config config ≡ ok config
unfolding make_maker_config is_sorted allocations
config_made = refl

check_continues :
    evaluate_cancellation plan config check
    ≡ ok (record { should_cancel = false; reason = continue })
unfolding evaluate_cancellation assess is_exhausted ◌-f◌ ◌-ℤ◌
check_continues = refl

evaluate_cancellation-Continues_example : (false ≡ false) ↔ Continues plan config check
evaluate_cancellation-Continues_example =
    evaluate_cancellation-Continues plan config check
      (record { should_cancel = false; reason = continue }) plan-IsWellFormed config_made
      check_continues

abbrev up_book : SideBook
up_book = record {
  token_id = "up";
  best_bid = units 505_000_000_000;
  best_ask = units 520_000_000_000;
  tick_size = units 10_000_000_000;
}

abbrev books : OutcomeBooks
books = record {
  up_book = up_book;
  down_book = record {
    token_id = "down";
    best_bid = units 480_000_000_000;
    best_ask = units 490_000_000_000;
    tick_size = units 10_000_000_000;
  };
}

abbrev opening : Opening
opening = record {
  market_slug = "btc-updown-5m";
  p_up = units 550_000_000_000;
  p_market_mid_up = units 500_000_000_000;
  decision_ts_ns = pos 0;
  elapsed_seconds = units (10 * scale);
}

opening-IsReady : IsReady opening books config
unfolding make_side_book make_maker_config is_sorted allocations for_side
opening-IsReady = record {
  slug = refl;
  p_up = refl;
  p_market = refl;
  decision = ground arith;
  elapsed = refl;
  books = books_made;
  config = refl;
  work = refl;
}
  where
    books_made :
        (side : TokenSide) → make_side_book (for_side books side) ≡ ok (for_side books side)
    books_made up = refl
    books_made down = refl

-- 0.505 is snapped to 0.50, which leaves the edge that is asked for.
opening_planned :
    plan_opening_mispricing_orders opening books config
    ≡ ok (record { plan = some plan; reason = accepted })
unfolding plan_opening_mispricing_orders plan_checked candidates_of build_layers layers_from
    add_layer is_unusable layer_price snap_down floor_ticks maximum_price plan_of_layers round_ns
    choose max_plan make_layer make_plan net_edge allocations for_side ◌-f◌ ◌+f◌ ◌*f◌ ◌-ℤ◌ ◌+ℤ◌ ◌*ℤ◌
opening_planned = refl

layers_planned : build_layers (units 550_000_000_000) up_book config ≡ ok plan.layers
unfolding build_layers layers_from add_layer is_unusable layer_price snap_down floor_ticks
    maximum_price make_layer allocations ◌-f◌ ◌+f◌ ◌*f◌ ◌-ℤ◌ ◌+ℤ◌ ◌*ℤ◌
layers_planned = refl

build_layers-IsPassive_example :
    All (IsPassive up_book (maximum_price (units 550_000_000_000) config)) plan.layers
    × AllFresh [] plan.layers
build_layers-IsPassive_example =
    build_layers-IsPassive (units 550_000_000_000) up_book config plan.layers refl config_made
      layers_planned

plan_opening_mispricing_orders-ChosenFrom_example : ChosenFrom opening books config plan
plan_opening_mispricing_orders-ChosenFrom_example =
    plan_opening_mispricing_orders-ChosenFrom opening books config
      (record { plan = some plan; reason = accepted }) plan opening-IsReady opening_planned refl
