-- ===== src/Backtest/Strategy/Fitting.antt =====
-- btc_short_horizon/backtest/strategy.py: a plan that was made to fit the venue.
use polymarket_btc.Prelude.{
  All, bind-ok, Result, string_eq, pair_eq, ok, ◌≡◌, Option, none, some, List, [], ◌∷◌, arith,
}
use polymarket_btc.Strategy.Types.{StrategyError, MakerOrderLayer, make_layer, OrderPlan, make_plan}
use polymarket_btc.Strategy.Lifecycle.Invariant.{IsWellFormed}
use polymarket_btc.Backtest.Strategy.{Instrument}
use polymarket_btc.Backtest.Strategy.Orders.{
  fitted, keep_layer, fitted_layers, with_layers, materialize_plan,
}

-- Every layer has passed its checks.
abbrev AllMade : List MakerOrderLayer → Type 0
AllMade ls = All (λ (l : MakerOrderLayer). make_layer l ≡ ok l) ls

keep_layer-AllMade :
    (o : Option MakerOrderLayer) (r : Result StrategyError (List MakerOrderLayer))
    (ls : List MakerOrderLayer)
    → ((rest : List MakerOrderLayer) → r ≡ ok rest → AllMade rest)
    → keep_layer o r ≡ ok ls
    → AllMade ls
unfolding keep_layer make_layer
keep_layer-AllMade none r ls made h = made ls h
keep_layer-AllMade (some l) r ls made h =
    let (m, eq, next) = bind-ok (make_layer l) _ h in
    let (rest, eq', last) = bind-ok r _ next in
    let all = made rest eq' in
    let head : m ≡ l = ground arith in
    let e : ls ≡ m ∷ rest = ground arith in rw (e, head) (rw head at eq, all)

fitted_layers-AllMade :
    (i : Instrument) (ls : List MakerOrderLayer) (ms : List MakerOrderLayer)
    → fitted_layers i ls ≡ ok ms
    → AllMade ms
unfolding fitted_layers
fitted_layers-AllMade i [] ms h = let e : ms ≡ [] = ground arith in rw e tt
fitted_layers-AllMade i (l ∷ ls) ms h =
    keep_layer-AllMade (fitted i l) (fitted_layers i ls) ms (fitted_layers-AllMade i ls) h

with_layers-IsWellFormed :
    (p : OrderPlan) (ls : List MakerOrderLayer) (q : OrderPlan)
    → AllMade ls
    → with_layers p ls ≡ ok (some q)
    → IsWellFormed q
unfolding with_layers make_plan
with_layers-IsWellFormed p [] q made h = absurd (ground arith)
with_layers-IsWellFormed p (l ∷ ls) q made h =
    let (m, eq, next) = bind-ok (make_plan (record p { layers = l ∷ ls })) _ h in
    let same : m ≡ record p { layers = l ∷ ls } = ground arith in
    let e : q ≡ m = ground arith in rw (e, same) (record { built = rw same at eq; layers = made })

-- A plan that was fitted to the venue has passed its checks.
pub materialize_plan-IsWellFormed :
    (i : Option Instrument) (p q : OrderPlan) → materialize_plan i p ≡ ok (some q) → IsWellFormed q
unfolding materialize_plan
materialize_plan-IsWellFormed none p q h = absurd (ground arith)
materialize_plan-IsWellFormed (some i) p q h =
    let (ls, eq, next) = bind-ok (fitted_layers i p.layers) _ h in
    with_layers-IsWellFormed p ls q (fitted_layers-AllMade i p.layers ls eq) next
