-- ===== src/Strategy/Maker/Cancellation.antt =====
-- btc_short_horizon/strategy/maker.py: which orders go on working.
use polymarket_btc.Prelude.{
  ltb_ℤ, all, any, All, string_eq, pair_eq, is_finite, ◌<f◌, ◌≤f◌, ◌-f◌, not_nonnegative,
  not_probability, Float, is_finite--f, probability-is_finite, ≤f-not-<f, nonnegative-is_finite,
  <f-not-≤f, ok, ◌≡◌, refl, ◌↔◌, Bool, true, false, not, List, [], ◌∷◌, arith,
}
use polymarket_btc.Strategy.Types.{OrderPlan, MakerOrderLayer, make_layer, make_plan}
use polymarket_btc.Strategy.Lifecycle.Invariant.{IsWellFormed}
use polymarket_btc.Strategy.Maker.{
  MakerStrategyConfig, MarketCheck, CancellationAssessment, make_maker_config, is_exhausted, assess,
  evaluate_cancellation,
}

-- A layer keeps the edge that the plan asks for.
abbrev pub keeps_edge : OrderPlan → Float → MakerOrderLayer → Bool
keeps_edge p x l = p.minimum_edge ≤f x -f l.price -f p.maker_fee_per_share -f p.safety_buffer

-- The market is as it was when the plan was made, and its data are fresh.
pub record Continues (p : OrderPlan) (c : MakerStrategyConfig) (m : MarketCheck) : Type 0 where
  pub unexpired : ltb_ℤ m.now_ts_ns p.expires_ts_ns ≡ true
  pub complete : m.has_data_gap ≡ false
  pub fresh : (m.data_age_seconds ≤f c.stale_after_seconds) ≡ true
  pub same_tick : m.tick_unchanged ≡ true
  pub same_fee : m.fee_unchanged ≡ true
  pub fast : m.latency_healthy ≡ true
  pub sound : m.structure_valid ≡ true
  pub steady : (p.p_fair -f c.cancel_probability_drop <f m.selected_probability) ≡ true
  pub edge : any (keeps_edge p m.selected_probability) p.layers ≡ true

-- The numbers of a plan that was built.
plan_finite :
    (p : OrderPlan)
    → make_plan p ≡ ok p
    → (is_finite p.p_fair ≡ true)
      × (is_finite p.maker_fee_per_share ≡ true)
      × (is_finite p.safety_buffer ≡ true)
      × (is_finite p.minimum_edge ≡ true)
unfolding make_plan
plan_finite p h = (
  probability-is_finite p.p_fair (ground arith),
  nonnegative-is_finite p.maker_fee_per_share (ground arith),
  nonnegative-is_finite p.safety_buffer (ground arith),
  nonnegative-is_finite p.minimum_edge (ground arith),
)

config_finite :
    (c : MakerStrategyConfig)
    → make_maker_config c ≡ ok c
    → (is_finite c.stale_after_seconds ≡ true) × (is_finite c.cancel_probability_drop ≡ true)
unfolding make_maker_config
config_finite c h = (
  nonnegative-is_finite c.stale_after_seconds (ground arith),
  nonnegative-is_finite c.cancel_probability_drop (ground arith),
)

layer_finite : (l : MakerOrderLayer) → make_layer l ≡ ok l → is_finite l.price ≡ true
unfolding make_layer
layer_finite l h = probability-is_finite l.price (ground arith)

-- All layers are exhausted exactly if none keeps its edge.
edge_test :
    (p : OrderPlan) (x : Float) (ls : List MakerOrderLayer)
    → make_plan p ≡ ok p
    → is_finite x ≡ true
    → All (λ (l : MakerOrderLayer). make_layer l ≡ ok l) ls
    → all (is_exhausted p x) ls ≡ not (any (keeps_edge p x) ls)
unfolding is_exhausted
edge_test p x [] h f a = refl
edge_test p x (l ∷ ls) h f a =
    let (_, fee, buffer, minimum) = plan_finite p h in
    let left =
      is_finite--f (x -f l.price -f p.maker_fee_per_share) p.safety_buffer
        (is_finite--f (x -f l.price) p.maker_fee_per_share
          (is_finite--f x l.price f (layer_finite l a.0)) fee)
        buffer in
    ground (
      arith,
      <f-not-≤f (x -f l.price -f p.maker_fee_per_share -f p.safety_buffer) p.minimum_edge left
          minimum,
      edge_test p x ls h f a.1,
    )

checked :
    (p : OrderPlan) (c : MakerStrategyConfig) (m : MarketCheck) (a : CancellationAssessment)
    → evaluate_cancellation p c m ≡ ok a
    → (a ≡ assess p c m)
      × (not_probability m.selected_probability ≡ false)
      × (not_nonnegative m.data_age_seconds ≡ false)
unfolding evaluate_cancellation
checked p c m a h = (ground arith, ground arith, ground arith)

-- For a plan and a configuration that passed their checks, a call of `evaluate_cancellation` that
-- returns lets the orders work on exactly if the plan has not expired, the data are complete and fresh,
-- tick, fee, latency and structure are as they were, the probability is above the drop, and some layer
-- keeps its minimum edge.
pub evaluate_cancellation-Continues :
    (p : OrderPlan) (c : MakerStrategyConfig) (m : MarketCheck) (a : CancellationAssessment)
    → IsWellFormed p
    → make_maker_config c ≡ ok c
    → evaluate_cancellation p c m ≡ ok a
    → (a.should_cancel ≡ false) ↔ Continues p c m
unfolding assess
evaluate_cancellation-Continues p c m a w v h =
    let (same, probability, age) = checked p c m a h in
    let (fair, _, _, _) = plan_finite p w.built in
    let (stale, drop) = config_finite c v in
    let x = probability-is_finite m.selected_probability probability in
    let fresh_test =
      <f-not-≤f c.stale_after_seconds m.data_age_seconds stale (nonnegative-is_finite _ age) in
    let steady_test =
      ≤f-not-<f m.selected_probability (p.p_fair -f c.cancel_probability_drop) x
        (is_finite--f p.p_fair c.cancel_probability_drop fair drop) in
    let edges = edge_test p m.selected_probability p.layers w.built x w.layers in
    (
      λ q. ground (arith, same, fresh_test, steady_test, edges),
      λ q. ground (arith, same, fresh_test, steady_test, edges),
    )
