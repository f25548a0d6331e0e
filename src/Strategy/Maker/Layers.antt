-- ===== src/Strategy/Maker/Layers.antt =====
-- btc_short_horizon/strategy/maker.py: what the layers of a plan are like.
use polymarket_btc.Prelude.{
  Bool-cases, ◌+ℤ◌, -ℤ_parts, ℤ, all, any, All, Result, string_eq, pair_eq, is_finite, units,
  zero_f, tolerance, ◌<f◌, ◌≤f◌, ◌+f◌, ◌-f◌, ◌*f◌, not_probability, ◌==f◌, Float, is_finite-+f,
  is_finite--f, nonnegative-is_finite, <f-not-≤f, pos, negsuc, ok, err, fin, ℕ, ◌+◌, ◌*◌, ◌/◌, ◌≡◌,
  refl, ap, ◌⊎◌, inl, inr, true, false, ◌||◌, List, [], ◌∷◌, arith,
}
use polymarket_btc.Strategy.Types.{
  StrategyError, SideBook, MakerOrderLayer, make_layer, allocations,
}
use polymarket_btc.Strategy.Maker.{MakerStrategyConfig, make_maker_config}
use polymarket_btc.Strategy.Maker.Planning.{
  floor_ticks, snap_down, layer_price, is_unusable, add_layer, layers_from, build_layers,
  maximum_price, float_of,
}

-- A whole number of ticks.
abbrev pub OnGrid : Float → Float → Type 0
OnGrid tick price = (k : ℕ) × (t : ℕ) × (tick ≡ units t) × (price ≡ units (k * t))

pub record IsPassive (b : SideBook) (maximum : Float) (l : MakerOrderLayer) : Type 0 where
  pub positive : (zero_f <f l.price) ≡ true
  pub below_ask : (l.price <f b.best_ask) ≡ true
  pub within : (l.price ≤f maximum +f tolerance) ≡ true
  pub on_grid : OnGrid b.tick_size l.price

floor_ticks-OnGrid :
    (w : ℤ) (t : ℕ)
    → (zero_f <f fin (floor_ticks w t)) ≡ true
    → (k : ℕ) × (floor_ticks w t ≡ pos (k * t))
unfolding floor_ticks
floor_ticks-OnGrid (pos n) t h = (n / t, refl)
floor_ticks-OnGrid (negsuc n) t h =
    absurd (ground (arith, -ℤ_parts (pos 0) (pos ((n / t + 1) * t))))

-- A positive price that was snapped is a whole number of ticks.
snap_down-OnGrid :
    (x tick : Float) → (zero_f <f snap_down x tick) ≡ true → OnGrid tick (snap_down x tick)
unfolding snap_down
snap_down-OnGrid (fin v) (fin (pos t)) h =
    let (k, e) = floor_ticks-OnGrid (v +ℤ pos 1) t h in (k, t, refl, ap fin e)
snap_down-OnGrid x tick h = absurd (ground arith)

layer_price-OnGrid :
    (b : SideBook) (o : ℤ)
    → (zero_f <f layer_price b o) ≡ true
    → OnGrid b.tick_size (layer_price b o)
unfolding layer_price
layer_price-OnGrid b o p = snap_down-OnGrid (b.best_bid -f float_of o *f b.tick_size) b.tick_size p

pub between-is_finite :
    (x ask : Float) → (zero_f <f x) ≡ true → (x <f ask) ≡ true → is_finite x ≡ true
between-is_finite x ask p q = ground arith

add_layer-ok :
    (l : MakerOrderLayer) (r : Result StrategyError (List MakerOrderLayer))
    (ls : List MakerOrderLayer)
    → add_layer l r ≡ ok ls
    → (rest : List MakerOrderLayer) × (r ≡ ok rest) × (ls ≡ l ∷ rest)
unfolding add_layer make_layer
add_layer-ok l (ok rest) ls h = (rest, refl, ground arith)
add_layer-ok l (err e) ls h = absurd (ground arith)

-- The prices of a list of layers are all different, and different from those before them.
abbrev pub AllFresh : List Float → List MakerOrderLayer → Type 0
AllFresh seen [] = Unit
AllFresh seen (l ∷ ls) = (any (λ q. q ==f l.price) seen ≡ false) × AllFresh (l.price ∷ seen) ls

module _ (b : SideBook) (maximum : Float) (finite : is_finite maximum ≡ true) where
  -- A layer whose price was kept.
  pub usable-IsPassive :
      (seen : List Float) (o : ℤ) (size : Float)
      → is_unusable b maximum seen (layer_price b o) ≡ false
      → IsPassive b maximum (record { price = layer_price b o; size = size })
  unfolding is_unusable
  usable-IsPassive seen o size h =
      let positive : (zero_f <f layer_price b o) ≡ true = ground arith in
      let below : (layer_price b o <f b.best_ask) ≡ true = ground arith in
      let bound =
        <f-not-≤f (maximum +f tolerance) (layer_price b o)
          (is_finite-+f maximum tolerance finite refl)
          (between-is_finite (layer_price b o) b.best_ask positive below) in
      record {
        positive = positive;
        below_ask = below;
        within = ground (arith, bound);
        on_grid = layer_price-OnGrid b o positive;
      }

  is_unusable_seen :
      (seen : List Float) (price : Float)
      → is_unusable b maximum seen price ≡ false
      → any (λ q. q ==f price) seen ≡ false
  unfolding is_unusable
  is_unusable_seen seen price h = ground arith

  step :
      (m : Float) (a : Float) (as' : List Float) (o : ℤ) (os : List ℤ) (seen : List Float)
      (ls : List MakerOrderLayer)
      → layers_from b maximum m (a ∷ as') (o ∷ os) seen ≡ ok ls
      → (layers_from b maximum m as' os seen ≡ ok ls)
        ⊎ ((rest : List MakerOrderLayer) × (is_unusable b maximum seen (layer_price b o) ≡ false)
            × (layers_from b maximum m as' os (layer_price b o ∷ seen) ≡ ok rest)
            × (ls ≡ record { price = layer_price b o; size = m *f a } ∷ rest))
  unfolding layers_from
  step m a as' o os seen ls h =
      elim (Bool-cases (is_unusable b maximum seen (layer_price b o) || m *f a ≤f zero_f)) [
        | inl skip ↦ inl (rw skip at h)
        | inr keep ↦
            let (rest, eq, same) =
              add_layer-ok (record { price = layer_price b o; size = m *f a })
                (layers_from b maximum m as' os (layer_price b o ∷ seen)) ls (rw keep at h) in
            inr (rest, ground arith, eq, same)
      ]

  pub layers_from-IsPassive :
      (m : Float) (as' : List Float) (os : List ℤ) (seen : List Float) (ls : List MakerOrderLayer)
      → layers_from b maximum m as' os seen ≡ ok ls
      → All (IsPassive b maximum) ls × AllFresh seen ls
  unfolding layers_from
  layers_from-IsPassive m [] os seen ls h = let e : ls ≡ [] = ground arith in rw e (tt, tt)
  layers_from-IsPassive m (a ∷ as') [] seen ls h = absurd (ground arith)
  layers_from-IsPassive m (a ∷ as') (o ∷ os) seen ls h = elim (step m a as' o os seen ls h) [
    | inl skipped ↦ layers_from-IsPassive m as' os seen ls skipped
    | inr (rest, usable, eq, same) ↦
        let (all, fresh) = layers_from-IsPassive m as' os (layer_price b o ∷ seen) rest eq in
        rw same (
          (usable-IsPassive seen o (m *f a) usable, all),
          (ground (arith, is_unusable_seen seen (layer_price b o) usable), fresh),
        )
  ]

pub config_finite :
    (c : MakerStrategyConfig)
    → make_maker_config c ≡ ok c
    → (is_finite c.maker_fee_per_share ≡ true)
      × (is_finite c.safety_buffer ≡ true)
      × (is_finite c.minimum_edge ≡ true)
unfolding make_maker_config
config_finite c h = (
  nonnegative-is_finite c.maker_fee_per_share (ground arith),
  nonnegative-is_finite c.safety_buffer (ground arith),
  nonnegative-is_finite c.minimum_edge (ground arith),
)

pub maximum_price-is_finite :
    (p : Float) (c : MakerStrategyConfig)
    → not_probability p ≡ false
    → make_maker_config c ≡ ok c
    → is_finite (maximum_price p c) ≡ true
unfolding maximum_price
maximum_price-is_finite p c h v =
    let (fee, buffer, minimum) = config_finite c v in
    is_finite--f (p -f c.maker_fee_per_share -f c.safety_buffer) c.minimum_edge
      (is_finite--f (p -f c.maker_fee_per_share) c.safety_buffer
        (is_finite--f p c.maker_fee_per_share (ground arith) fee) buffer)
      minimum

-- For a probability and a configuration that passed its checks: every layer that `_build_layers`
-- returns has a price above 0, below the best ask, a whole number of ticks, and at most the highest
-- price that leaves the edge asked for (up to 1e-12); and no two layers have the same price.
pub build_layers-IsPassive :
    (p : Float) (b : SideBook) (c : MakerStrategyConfig) (ls : List MakerOrderLayer)
    → not_probability p ≡ false
    → make_maker_config c ≡ ok c
    → build_layers p b c ≡ ok ls
    → All (IsPassive b (maximum_price p c)) ls × AllFresh [] ls
unfolding build_layers
build_layers-IsPassive p b c ls h v =
    layers_from-IsPassive b (maximum_price p c) (maximum_price-is_finite p c h v) c.max_shares
      (allocations c.structure) c.price_level_tick_offsets [] ls
