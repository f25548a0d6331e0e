-- ===== src/Strategy/Lifecycle/Invariant.antt =====
-- btc_short_horizon/strategy/lifecycle.py: the invariant of a market's execution.
use polymarket_btc.Prelude.{
  ◌+ℤ◌, is_empty, All, string_eq, pair_eq, str_is_empty, units, zero_f, tolerance, ◌<f◌, ◌≤f◌, ◌+f◌,
  sum_f, Float, positive_units, between_units, units-+f, ok, ℕ, ◌+◌, ◌≤◌, String, ◌≡◌, refl, Bool,
  true, false, Option, none, some, List, [], ◌∷◌, map, arith, eq_iff,
}
use mathlib.Core.List.{foldl}
use polymarket_btc.Strategy.Types.{OrderPlan, MakerOrderLayer, make_plan, make_layer, total_size}
use polymarket_btc.Strategy.Lifecycle.{
  StrategyPhase, discovered, monitoring, order_working, cancel_requested, partially_filled, filled,
  canceled, rejected, resolved, redeemed, MarketExecution, fresh, make_execution, remaining_size,
}

-- What Python guarantees of every `OrderPlan` object: it and its layers passed `__post_init__`.
pub record IsWellFormed (p : OrderPlan) : Type 0 where
  pub built : make_plan p ≡ ok p
  pub layers : All (λ (l : MakerOrderLayer). make_layer l ≡ ok l) p.layers

layer_size : (l : MakerOrderLayer) → make_layer l ≡ ok l → (s : ℕ) × (l.size ≡ units s) × (1 ≤ s)
unfolding make_layer
layer_size l h = positive_units l.size (ground arith)

-- A sum of positive sizes grows.
sum_layers :
    (ls : List MakerOrderLayer) (a : ℕ)
    → All (λ (l : MakerOrderLayer). make_layer l ≡ ok l) ls
    → (b : ℕ) × (foldl ◌+f◌ (units a) (map (λ l. l.size) ls) ≡ units b) × (a ≤ b)
sum_layers [] a h = (a, refl, omega arith)
sum_layers (l ∷ ls) a h =
    let (s, e, p) = layer_size l h.0 in
    let (b, f, q) = sum_layers ls (a + s) h.1 in (b, rw (e, units-+f) f, omega arith)

sum_layers_positive :
    (ls : List MakerOrderLayer)
    → is_empty ls ≡ false
    → All (λ (l : MakerOrderLayer). make_layer l ≡ ok l) ls
    → (t : ℕ) × (sum_f (map (λ l. l.size) ls) ≡ units t) × (1 ≤ t)
sum_layers_positive [] h w = absurd (ground arith)
sum_layers_positive (l ∷ ls) h w =
    let (s, e, p) = layer_size l w.0 in
    let (b, f, q) = sum_layers ls (0 + s) w.1 in (b, rw (e, units-+f) f, omega arith)

nonempty_layers : (p : OrderPlan) → make_plan p ≡ ok p → is_empty p.layers ≡ false
unfolding make_plan
nonempty_layers p h = ground arith

-- The total size of a plan is finite and positive.
pub total_size-finite :
    (p : OrderPlan) → IsWellFormed p → (t : ℕ) × (total_size p ≡ units t) × (1 ≤ t)
unfolding total_size
total_size-finite p w = sum_layers_positive p.layers (nonempty_layers p w.built) w.layers

-- A plan for this market, and a filled size between 0 and its total.
abbrev pub Covers : String → Float → Option OrderPlan → Type 0
Covers slug x none = ⊥
Covers slug x (some p) =
    IsWellFormed p × (p.market_slug ≡ slug) × ((zero_f ≤f x) ≡ true) × ((x ≤f total_size p) ≡ true)

abbrev pub Holds : MarketExecution → Bool → Type 0
Holds e done =
    (e.is_placed ≡ true) × (e.is_resolved ≡ done) × Covers e.market_slug e.filled_size e.plan

abbrev pub Empty : MarketExecution → Type 0
Empty e =
    (e.is_placed ≡ false) × (e.is_resolved ≡ false) × (e.plan ≡ none) × (e.filled_size ≡ zero_f)

-- What each phase promises.
abbrev pub Fits : StrategyPhase → MarketExecution → Type 0
Fits discovered e = Empty e
Fits monitoring e = Empty e
Fits order_working e = Holds e false
Fits cancel_requested e = Holds e false
Fits partially_filled e = Holds e false × ((zero_f <f e.filled_size) ≡ true)
Fits filled e = Holds e false × ((remaining_size e ≤f tolerance) ≡ true)
Fits canceled e = Holds e false × ((zero_f <f e.filled_size) ≡ false)
Fits rejected e = Holds e false
Fits resolved e = Holds e true
Fits redeemed e = Holds e true × ((zero_f <f e.filled_size) ≡ true)

pub record IsValid (e : MarketExecution) : Type 0 where
  pub slug : str_is_empty e.market_slug ≡ false
  pub fits : Fits e.phase e

pub fresh-IsValid : (slug : String) → str_is_empty slug ≡ false → IsValid (fresh slug)
unfolding fresh
fresh-IsValid slug h = record { slug = h; fits = (refl, refl, refl, refl) }

-- What `Covers` says in numbers.
pub record Numbers (slug : String) (x : Float) (o : Option OrderPlan) : Type 0 where
  pub of : OrderPlan
  pub total : ℕ
  pub size : ℕ
  pub plan_eq : o ≡ some of
  pub total_eq : total_size of ≡ units total
  pub size_eq : x ≡ units size
  pub size_le : size ≤ total
  pub positive : 1 ≤ total
  pub slug_eq : of.market_slug ≡ slug
  pub well_formed : IsWellFormed of

pub Covers-Numbers :
    (slug : String) (x : Float) (o : Option OrderPlan) → Covers slug x o → Numbers slug x o
Covers-Numbers slug x none h = absurd h
Covers-Numbers slug x (some p) (w, s, lo, hi) =
    let (t, e, q) = total_size-finite p w in
    let (n, f, r) = between_units x t lo (rw e at hi) in
    record {
      of = p;
      total = t;
      size = n;
      plan_eq = refl;
      total_eq = e;
      size_eq = f;
      size_le = r;
      positive = q;
      slug_eq = s;
      well_formed = w;
    }

pub Numbers-Covers :
    (slug : String) (x : Float) (o : Option OrderPlan) → Numbers slug x o → Covers slug x o
Numbers-Covers slug x none n = absurd (ground (arith, n.plan_eq))
Numbers-Covers slug x (some p) n =
    let same : p ≡ n.of = cc (n.plan_eq) in
    rw same (
      n.well_formed,
      n.slug_eq,
      ground (arith, n.size_eq),
      ground (arith, n.size_eq, n.total_eq, n.size_le),
    )

-- `__post_init__` passes a plan for this market that covers the filled size.
pub make_execution-Numbers :
    (e : MarketExecution)
    → str_is_empty e.market_slug ≡ false
    → Numbers e.market_slug e.filled_size e.plan
    → make_execution e ≡ ok e
unfolding make_execution ◌+f◌ ◌+ℤ◌
make_execution-Numbers e h n = ground (arith, eq_iff n.of.market_slug e.market_slug)

pub make_execution-empty :
    (e : MarketExecution)
    → str_is_empty e.market_slug ≡ false
    → e.plan ≡ none
    → e.filled_size ≡ zero_f
    → make_execution e ≡ ok e
unfolding make_execution
make_execution-empty e h p z = ground arith
