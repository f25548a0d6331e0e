-- ===== src/Strategy/Maker/Totality.antt =====
-- btc_short_horizon/strategy/maker.py: what planning returns on arguments that passed their checks, with a
-- time to work of more than half a nanosecond, in exact numbers.
use polymarket_btc.Prelude.{
  ltb, if_holds, ◌+ℤ◌, ◌-ℤ◌, ◌≤ℤ◌, ltb_ℤ, +ℤ_parts, int_laws, ℤ, length, any, All, ◌>>=◌, is_ok,
  is_ok-value, Result, string_eq, pair_eq, str_is_empty, is_finite, units, zero_f, tolerance, ◌<f◌,
  ◌≤f◌, ◌+f◌, ◌-f◌, ◌*f◌, not_nonnegative, not_probability, Float, probability-is_finite,
  is_finite-*f, nonnegative-is_finite, pos, ok, err, fin, ℕ, ◌%◌, ◌≤◌, ◌<◌, ◌≡◌, refl, true, false,
  ◌||◌, List, [], ◌∷◌, arith,
}
use polymarket_btc.Strategy.Types.{
  StrategyError, TokenSide, up, down, LayerStructure, single, two_level, three_level, SideBook,
  make_side_book, OutcomeBooks, for_side, MakerOrderLayer, make_layer, OrderPlan, make_plan,
  net_edge, allocations,
}
use polymarket_btc.Strategy.Maker.{MakerStrategyConfig, make_maker_config}
use polymarket_btc.Strategy.Maker.Planning.{
  layer_price, is_unusable, add_layer, layers_from, build_layers, maximum_price, round_ns,
  round_half_even, Opening, of_side, plan_for, plan_of_layers, candidates_of, plan_checked,
  plan_opening_mispricing_orders,
}
use polymarket_btc.Strategy.Maker.Layers.{
  IsPassive, usable-IsPassive, build_layers-IsPassive, maximum_price-is_finite, between-is_finite,
  config_finite,
}

add_layer-is_ok :
    (l : MakerOrderLayer) (r : Result StrategyError (List MakerOrderLayer))
    → make_layer l ≡ ok l
    → is_ok r ≡ true
    → is_ok (add_layer l r) ≡ true
unfolding add_layer
add_layer-is_ok l (ok rest) h q = rw (h, add_layer) refl
add_layer-is_ok l (err e) h q = absurd (ground arith)

-- A passive price in a valid book, and a positive size, make a layer.
made :
    (b : SideBook) (maximum : Float) (price size : Float)
    → make_side_book b ≡ ok b
    → IsPassive b maximum (record { price = price; size = size })
    → is_finite size ≡ true
    → (size ≤f zero_f) ≡ false
    → make_layer (record { price = price; size = size })
      ≡ ok (record { price = price; size = size })
unfolding make_side_book make_layer
made b maximum price size h l f s = ground (arith, l.positive, l.below_ask)

module _ (b : SideBook) (maximum m : Float) (book : make_side_book b ≡ ok b)
    (finite : is_finite maximum ≡ true) (shares : is_finite m ≡ true) where
  layers_from-is_ok :
      (as' : List Float) (os : List ℤ) (seen : List Float)
      → length as' ≤ length os
      → All (λ (a : Float). is_finite a ≡ true) as'
      → is_ok (layers_from b maximum m as' os seen) ≡ true
  unfolding layers_from
  layers_from-is_ok [] os seen n h = refl
  layers_from-is_ok (a ∷ as') [] seen n h = absurd (omega arith)
  layers_from-is_ok (a ∷ as') (o ∷ os) seen n h =
      if_holds (λ (r : Result StrategyError (List MakerOrderLayer)). is_ok r ≡ true)
        (is_unusable b maximum seen (layer_price b o) || m *f a ≤f zero_f)
        (λ _. layers_from-is_ok as' os seen (omega (arith, n)) h.1)
        (λ keep.
          add_layer-is_ok _ _
            (made b maximum (layer_price b o) (m *f a) book
              (usable-IsPassive b maximum finite seen o (m *f a) (ground arith))
              (is_finite-*f m a shares h.0) (ground arith))
            (layers_from-is_ok as' os (layer_price b o ∷ seen) (omega (arith, n)) h.1))

allocations-finite : (s : LayerStructure) → All (λ (a : Float). is_finite a ≡ true) (allocations s)
unfolding allocations
allocations-finite single = (refl, tt)
allocations-finite two_level = (refl, (refl, tt))
allocations-finite three_level = (refl, (refl, (refl, tt)))

config_covers :
    (c : MakerStrategyConfig)
    → make_maker_config c ≡ ok c
    → (length (allocations c.structure) ≤ length c.price_level_tick_offsets)
      × (is_finite c.max_shares ≡ true)
unfolding make_maker_config
config_covers c h = (ground arith, nonnegative-is_finite c.max_shares (ground arith))

build_layers-is_ok :
    (p : Float) (b : SideBook) (c : MakerStrategyConfig)
    → not_probability p ≡ false
    → make_side_book b ≡ ok b
    → make_maker_config c ≡ ok c
    → is_ok (build_layers p b c) ≡ true
unfolding build_layers
build_layers-is_ok p b c h k v =
    let (covers, shares) = config_covers c v in
    layers_from-is_ok b (maximum_price p c) c.max_shares k (maximum_price-is_finite p c h v) shares
      (allocations c.structure) c.price_level_tick_offsets [] covers
      (allocations-finite c.structure)

-- A price at most the highest one leaves the edge.
edge_left :
    (x y z w q : ℤ)
    → (fin q ≤f fin x -f fin y -f fin z -f fin w +f tolerance) ≡ true
    → (fin x -f fin q -f fin y -f fin z +f tolerance <f fin w) ≡ false
unfolding ◌-f◌ ◌+f◌
edge_left x y z w q h =
    let below : q ≤ℤ x -ℤ y -ℤ z -ℤ w +ℤ pos 1 = ground arith in
    let above : w ≤ℤ x -ℤ q -ℤ y -ℤ z +ℤ pos 1 = omega int_laws in ground (arith, above)

edge_kept :
    (fair fee buffer minimum price : Float)
    → is_finite fair ≡ true
    → is_finite fee ≡ true
    → is_finite buffer ≡ true
    → is_finite minimum ≡ true
    → is_finite price ≡ true
    → (price ≤f fair -f fee -f buffer -f minimum +f tolerance) ≡ true
    → (fair -f price -f fee -f buffer +f tolerance <f minimum) ≡ false
edge_kept (fin x) (fin y) (fin z) (fin w) (fin q) _ _ _ _ _ h = edge_left x y z w q h
edge_kept fair fee buffer minimum price f g h k l _ = absurd (ground arith)

no_edge_below :
    (b : SideBook) (p : OrderPlan) (ls : List MakerOrderLayer)
    → is_finite p.p_fair ≡ true
    → is_finite p.maker_fee_per_share ≡ true
    → is_finite p.safety_buffer ≡ true
    → is_finite p.minimum_edge ≡ true
    → All (IsPassive b (p.p_fair -f p.maker_fee_per_share -f p.safety_buffer -f p.minimum_edge)) ls
    → any (λ (l : MakerOrderLayer). net_edge p l.price +f tolerance <f p.minimum_edge) ls ≡ false
unfolding net_edge
no_edge_below b p [] f g h k a = refl
no_edge_below b p (l ∷ ls) f g h k a = ground (
  arith,
  edge_kept p.p_fair p.maker_fee_per_share p.safety_buffer p.minimum_edge l.price f g h k
      (between-is_finite l.price b.best_ask a.0.positive a.0.below_ask) a.0.within,
  no_edge_below b p ls f g h k a.1,
)

-- What the caller of the planner has checked.
pub record IsReady (i : Opening) (b : OutcomeBooks) (c : MakerStrategyConfig) : Type 0 where
  pub slug : str_is_empty i.market_slug ≡ false
  pub p_up : not_probability i.p_up ≡ false
  pub p_market : not_probability i.p_market_mid_up ≡ false
  pub decision : pos 0 ≤ℤ i.decision_ts_ns
  pub elapsed : not_nonnegative i.elapsed_seconds ≡ false
  pub books : (side : TokenSide) → make_side_book (for_side b side) ≡ ok (for_side b side)
  pub config : make_maker_config c ≡ ok c
  -- The time to work is not rounded to 0 ns.
  pub work : (units 500 <f c.max_work_seconds) ≡ true

pub of_side-probability :
    (side : TokenSide) (p : Float)
    → not_probability p ≡ false
    → not_probability (of_side side p) ≡ false
unfolding ◌-f◌ ◌-ℤ◌
of_side-probability up p h = h
of_side-probability down p h = ground arith

round_half_even_positive : (n : ℕ) → 500 < n → 1 ≤ round_half_even n
round_half_even_positive n h =
    if_holds (λ (k : ℕ). 1 ≤ k) (ltb (n % 1000) 500)
      (λ low. let below : n % 1000 < 500 = ground arith in omega (arith, below))
      (λ _.
        if_holds (λ (k : ℕ). 1 ≤ k) (ltb 500 (n % 1000)) (λ _. omega arith)
          (λ exact. let half : n % 1000 ≤ 500 = ground arith in omega (arith, half)))

-- A positive time to work is later.
later : (d : ℤ) (w : ℕ) → 1 ≤ w → ltb_ℤ d (d +ℤ pos w) ≡ true
later d w h = let sum = +ℤ_parts d (pos w) in ground (arith, sum)

round_ns-positive :
    (x : Float)
    → not_nonnegative x ≡ false
    → (units 500 <f x) ≡ true
    → (w : ℕ) × (round_ns x ≡ ok (pos w)) × (1 ≤ w)
unfolding round_ns
round_ns-positive (fin (pos n)) h k =
    (round_half_even n, refl, round_half_even_positive n (ground arith))
round_ns-positive x h k = absurd (ground arith)

config_work :
    (c : MakerStrategyConfig)
    → make_maker_config c ≡ ok c
    → not_nonnegative c.max_work_seconds ≡ false
unfolding make_maker_config
config_work c h = ground arith

after_plan :
    (made : Result StrategyError OrderPlan)
    → is_ok made ≡ true
    → is_ok (made >>= λ p. ok (p ∷ [])) ≡ true
after_plan (ok p) h = refl
after_plan (err e) h = h

module _ (i : Opening) (b : OutcomeBooks) (c : MakerStrategyConfig) (r : IsReady i b c)
    (side : TokenSide) where
  plan_passes :
      (w : ℕ) (l : MakerOrderLayer) (ls : List MakerOrderLayer)
      → 1 ≤ w
      → All (IsPassive (for_side b side) (maximum_price (of_side side i.p_up) c)) (l ∷ ls)
      → is_ok (make_plan (plan_for i b c (pos w) side (l ∷ ls))) ≡ true
  unfolding make_plan make_side_book make_maker_config maximum_price
  plan_passes w l ls h a =
      let (fee, buffer, minimum) = config_finite c r.config in
      let fair = of_side-probability side i.p_up r.p_up in
      let p = plan_for i b c (pos w) side (l ∷ ls) in
      let edges =
        no_edge_below (for_side b side) p (l ∷ ls) (probability-is_finite p.p_fair fair) fee buffer
          minimum a in
      ground (
        arith,
        r.slug,
        r.decision,
        r.books side,
        r.config,
        fair,
        of_side-probability side i.p_market_mid_up r.p_market,
        edges,
        later i.decision_ts_ns w h,
      )

  plan_of_layers-is_ok :
      (ls : List MakerOrderLayer)
      → All (IsPassive (for_side b side) (maximum_price (of_side side i.p_up) c)) ls
      → is_ok (plan_of_layers i b c side ls) ≡ true
  unfolding plan_of_layers
  plan_of_layers-is_ok [] a = refl
  plan_of_layers-is_ok (l ∷ ls) a =
      let (w, rounds, positive) =
        round_ns-positive c.max_work_seconds (config_work c r.config) r.work in
      let made = plan_passes w l ls positive a in
      rw rounds (after_plan (make_plan (plan_for i b c (pos w) side (l ∷ ls))) made)

  candidates_of-is_ok : is_ok (candidates_of i b c side) ≡ true
  unfolding candidates_of
  candidates_of-is_ok =
      let fair = of_side-probability side i.p_up r.p_up in
      let (ls, eq) = is_ok-value _ (
        build_layers-is_ok (of_side side i.p_up) (for_side b side) c fair (r.books side)
          r.config) in
      rw eq (
        plan_of_layers-is_ok ls
          (build_layers-IsPassive (of_side side i.p_up) (for_side b side) c ls fair r.config eq).0)

-- For an opening, books and a configuration that passed their own checks, and a time to work of more
-- than half a nanosecond: in exact numbers planning does not raise. It returns a decision, and no plan that it builds
-- is refused by the checks of `OrderPlan` or of `MakerOrderLayer`.
plan_opening_mispricing_orders-is_ok :
    (i : Opening) (b : OutcomeBooks) (c : MakerStrategyConfig)
    → IsReady i b c
    → is_ok (plan_opening_mispricing_orders i b c) ≡ true
unfolding plan_opening_mispricing_orders plan_checked
plan_opening_mispricing_orders-is_ok i b c r =
    let (ups, eq_up) = is_ok-value _ (candidates_of-is_ok i b c r up) in
    let (downs, eq_down) = is_ok-value _ (candidates_of-is_ok i b c r down) in
    ground (arith, r.decision, r.p_up, r.p_market, r.elapsed, eq_up, eq_down)
