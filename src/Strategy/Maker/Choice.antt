-- ===== src/Strategy/Maker/Choice.antt =====
-- btc_short_horizon/strategy/maker.py: the plan that is chosen among the candidates.
use polymarket_btc.Prelude.{
  Bool-cases, ℤ, All, All-append, IsMember, bind-ok, Result, string_eq, pair_eq, ◌≤f◌, Float,
  is_finite--f, probability-is_finite, ok, ◌≡◌, inl, inr, not, ◌&&◌, some, List, [], ◌∷◌, ◌++◌,
  arith,
}
use polymarket_btc.Strategy.Types.{
  StrategyError, TokenSide, up, down, OrderPlan, net_edge, model_edge, OutcomeBooks,
  MakerOrderLayer, for_side, make_plan,
}
use polymarket_btc.Strategy.Maker.{MakerStrategyConfig}
use polymarket_btc.Strategy.Maker.Planning.{
  first_price, of_side, plan_for, plan_of_layers, build_layers, maximum_price,
  plan_opening_mispricing_orders, round_ns, choose, PlanDecision, plan_checked, candidates_of,
  Opening,
}
use polymarket_btc.Strategy.Maker.Layers.{
  IsPassive, build_layers-IsPassive, between-is_finite, config_finite,
}
use polymarket_btc.Strategy.Maker.Totality.{IsReady, of_side-probability}
use polymarket_btc.Strategy.Maker.Ranking.{HasKey, IsNoBetter, chosen}

made_plan : (p : OrderPlan) {q : OrderPlan} → make_plan p ≡ ok q → q ≡ p
unfolding make_plan
made_plan p h = ground arith

single_plan :
    (q : OrderPlan) (ps : List OrderPlan)
    → ◌≡◌ {A = Result StrategyError (List OrderPlan)} (ok (q ∷ [])) (ok ps)
    → HasKey q
    → All HasKey ps
single_plan q ps h k = let e : ps ≡ q ∷ [] = ground arith in rw e (k, tt)

module _ (i : Opening) (b : OutcomeBooks) (c : MakerStrategyConfig) (r : IsReady i b c) where
  plan_for-HasKey :
      (side : TokenSide) (w : ℤ) (l : MakerOrderLayer) (ls : List MakerOrderLayer) (maximum : Float)
      → IsPassive (for_side b side) maximum l
      → HasKey (plan_for i b c w side (l ∷ ls))
  unfolding net_edge model_edge first_price
  plan_for-HasKey side w l ls maximum a =
      let (fee, buffer, _) = config_finite c r.config in
      let fair = probability-is_finite _ (of_side-probability side i.p_up r.p_up) in
      let market =
        probability-is_finite _ (of_side-probability side i.p_market_mid_up r.p_market) in
      let price = between-is_finite l.price (for_side b side).best_ask a.positive a.below_ask in
      (
        is_finite--f _ _ (is_finite--f _ _ (is_finite--f _ _ fair price) fee) buffer,
        is_finite--f _ _ fair market,
      )

  plan_of_layers-HasKey :
      (side : TokenSide) (ls : List MakerOrderLayer) (ps : List OrderPlan)
      → All (IsPassive (for_side b side) (maximum_price (of_side side i.p_up) c)) ls
      → plan_of_layers i b c side ls ≡ ok ps
      → All HasKey ps
  unfolding plan_of_layers
  plan_of_layers-HasKey side [] ps a h = let e : ps ≡ [] = ground arith in rw e tt
  plan_of_layers-HasKey side (l ∷ ls) ps a h =
      let (w, _, next) = bind-ok (round_ns c.max_work_seconds) _ h in
      let (q, built, out) = bind-ok (make_plan (plan_for i b c w side (l ∷ ls))) _ next in
      single_plan q ps out (rw (made_plan _ built) (plan_for-HasKey side w l ls _ a.0))

  candidates_of-HasKey :
      (side : TokenSide) (ps : List OrderPlan) → candidates_of i b c side ≡ ok ps → All HasKey ps
  unfolding candidates_of
  candidates_of-HasKey side ps h =
      let (ls, layers, out) =
        bind-ok (build_layers (of_side side i.p_up) (for_side b side) c) _ h in
      plan_of_layers-HasKey side ls ps
        (build_layers-IsPassive (of_side side i.p_up) (for_side b side) c ls
          (of_side-probability side i.p_up r.p_up) r.config layers).0
        out

-- The candidates of both sides, and the plan among them.
abbrev pub ChosenFrom : Opening → OutcomeBooks → MakerStrategyConfig → OrderPlan → Type 0
ChosenFrom i b c p =
    (ups : List OrderPlan) × (downs : List OrderPlan) × (candidates_of i b c up ≡ ok ups)
    × (candidates_of i b c down ≡ ok downs)
    × IsMember p (ups ++ downs)
    × All (λ q. IsNoBetter q p) (ups ++ downs)

plan_checked-ChosenFrom :
    (i : Opening) (b : OutcomeBooks) (c : MakerStrategyConfig) (d : PlanDecision) (p : OrderPlan)
    → IsReady i b c
    → plan_checked i b c ≡ ok d
    → d.plan ≡ some p
    → ChosenFrom i b c p
unfolding plan_checked
plan_checked-ChosenFrom i b c d p r h e =
    elim (Bool-cases (
      not
        (c.entry_start_seconds ≤f i.elapsed_seconds && i.elapsed_seconds ≤f c.entry_end_seconds))) [
          | inl outside ↦ absurd (ground arith)
          | inr inside ↦
              let (ups, eq_up, next) = bind-ok (candidates_of i b c up) _ (rw inside at h) in
              let (downs, eq_down, last) = bind-ok (candidates_of i b c down) _ next in
              let same : choose (ups ++ downs) ≡ d = ground arith in
              let keys =
                All-append HasKey ups downs (candidates_of-HasKey i b c r up ups eq_up)
                  (candidates_of-HasKey i b c r down downs eq_down) in
              let (mem, largest) = chosen (ups ++ downs) p keys (rw same e) in
              (ups, downs, eq_up, eq_down, mem, largest)
        ]

-- For an opening, books and a configuration that passed their own checks, with more than 5e-10 seconds to
-- work: a plan that planning returns is one of the candidates of the two sides, and no candidate is better:
-- each has a smaller net edge at its first price, or the same and a smaller model edge, or both the same
-- and does not win by its side, where UP wins over DOWN.
pub plan_opening_mispricing_orders-ChosenFrom :
    (i : Opening) (b : OutcomeBooks) (c : MakerStrategyConfig) (d : PlanDecision) (p : OrderPlan)
    → IsReady i b c
    → plan_opening_mispricing_orders i b c ≡ ok d
    → d.plan ≡ some p
    → ChosenFrom i b c p
unfolding plan_opening_mispricing_orders
plan_opening_mispricing_orders-ChosenFrom i b c d p r h e =
    plan_checked-ChosenFrom i b c d p r (ground arith) e
