-- ===== src/Strategy/Maker.antt =====
-- btc_short_horizon/strategy/maker.py: the configuration of the maker strategy, and when a working
-- order is canceled.
pub mod Cancellation
pub mod Planning
pub mod Layers
pub mod Totality
pub mod Ranking
pub mod Choice
mod Tests
use polymarket_btc.Prelude.{
  ltb, if◌then◌else◌, ltb_ℤ, leb_ℤ, ℤ, length, all, any, ◌>>=◌, ◌>>◌, raise_if, Result, zero_f,
  one_f, ◌<f◌, ◌≤f◌, ◌-f◌, not_nonnegative, not_probability, Float, pos, ok, Bool, true, false, not,
  ◌&&◌, ◌||◌, List, [], ◌∷◌,
}
use polymarket_btc.Strategy.Types.{
  StrategyError, LayerStructure, allocations, bad_nonnegative, bad_config, before_creation,
  bad_probability, OrderPlan, MakerOrderLayer,
}

pub record MakerStrategyConfig : Type 0 where
  pub structure : LayerStructure
  pub max_shares : Float
  pub safety_buffer : Float
  pub minimum_edge : Float
  pub maker_fee_per_share : Float
  pub entry_start_seconds : Float
  pub entry_end_seconds : Float
  pub edge_persistence_seconds : Float
  pub max_work_seconds : Float
  pub stale_after_seconds : Float
  pub cancel_probability_drop : Float
  pub price_level_tick_offsets : List ℤ

-- `tuple(sorted(x)) == x`
unfoldable pub is_sorted : List ℤ → Bool
is_sorted [] = true
is_sorted (x ∷ []) = true
is_sorted (x ∷ y ∷ ys) = leb_ℤ x y && is_sorted (y ∷ ys)

-- The ten numbers that have to be finite and not negative.
abbrev config_numbers : MakerStrategyConfig → List Float
config_numbers c =
    c.max_shares ∷ c.safety_buffer ∷ c.minimum_edge ∷ c.maker_fee_per_share ∷ c.entry_start_seconds
    ∷ c.entry_end_seconds ∷ c.edge_persistence_seconds ∷ c.max_work_seconds ∷ c.stale_after_seconds
    ∷ c.cancel_probability_drop ∷ []

-- `MakerStrategyConfig.__post_init__`
unfoldable pub make_maker_config : MakerStrategyConfig → Result StrategyError MakerStrategyConfig
make_maker_config c = do
  raise_if (any not_nonnegative (config_numbers c)) bad_nonnegative
  raise_if (c.max_shares ≤f zero_f || c.entry_start_seconds ≤f zero_f) bad_config
  raise_if (c.entry_end_seconds ≤f c.entry_start_seconds) bad_config
  raise_if (c.max_work_seconds ≤f zero_f || c.stale_after_seconds ≤f zero_f) bad_config
  raise_if (one_f ≤f c.safety_buffer) bad_config
  raise_if (ltb (length c.price_level_tick_offsets) (length (allocations c.structure))) bad_config
  raise_if (any (λ o. ltb_ℤ o (pos 0)) c.price_level_tick_offsets) bad_config
  raise_if (not (is_sorted c.price_level_tick_offsets)) bad_config
  ok c

pub data CancelReason : Type 0 where
  max_work_age data_gap data_stale tick_changed fee_changed latency_unhealthy : CancelReason
  structure_invalid probability_drop edge_exhausted continue : CancelReason

pub record CancellationAssessment : Type 0 where
  pub should_cancel : Bool
  pub reason : CancelReason

-- What `evaluate_cancellation` is told of the market, besides the plan and the configuration.
pub record MarketCheck : Type 0 where
  pub now_ts_ns : ℤ
  pub selected_probability : Float
  pub data_age_seconds : Float
  pub has_data_gap : Bool
  pub structure_valid : Bool
  pub tick_unchanged : Bool
  pub fee_unchanged : Bool
  pub latency_healthy : Bool

abbrev cancel_for : CancelReason → CancellationAssessment
cancel_for r = record { should_cancel = true; reason = r }

-- The edge that is left at the price of a layer is below the minimum.
unfoldable pub is_exhausted : OrderPlan → Float → MakerOrderLayer → Bool
is_exhausted p probability l =
    probability -f l.price -f p.maker_fee_per_share -f p.safety_buffer <f p.minimum_edge

-- What `evaluate_cancellation` decides after its checks of the arguments.
unfoldable pub assess : OrderPlan → MakerStrategyConfig → MarketCheck → CancellationAssessment
assess p c m =
    if leb_ℤ p.expires_ts_ns m.now_ts_ns
    then cancel_for max_work_age
    else if m.has_data_gap
    then cancel_for data_gap
    else if c.stale_after_seconds <f m.data_age_seconds
    then cancel_for data_stale
    else if not m.tick_unchanged
    then cancel_for tick_changed
    else if not m.fee_unchanged
    then cancel_for fee_changed
    else if not m.latency_healthy
    then cancel_for latency_unhealthy
    else if not m.structure_valid
    then cancel_for structure_invalid
    else if m.selected_probability ≤f p.p_fair -f c.cancel_probability_drop
    then cancel_for probability_drop
    else if all (is_exhausted p m.selected_probability) p.layers
    then cancel_for edge_exhausted
    else record { should_cancel = false; reason = continue }

unfoldable pub evaluate_cancellation :
    OrderPlan → MakerStrategyConfig → MarketCheck → Result StrategyError CancellationAssessment
evaluate_cancellation p c m = do
  raise_if (ltb_ℤ m.now_ts_ns p.created_ts_ns) before_creation
  raise_if (not_probability m.selected_probability) bad_probability
  raise_if (not_nonnegative m.data_age_seconds) bad_nonnegative
  ok (assess p c m)
