-- ===== src/Backtest/Strategy/Refinement.antt =====
-- btc_short_horizon/backtest/strategy.py: a replay follows the lifecycle of one market, and places its
-- orders once until a reset.
use polymarket_btc.Prelude.{
  All, Bool, if◌then◌else◌, if_holds, ok-inj, ap, sym, Result, bind-ok, string_eq, pair_eq,
  str_is_empty, ok, ◌≡◌, refl, ◌∙◌, true, false, List, [], ◌∷◌, arith,
}
use polymarket_btc.Strategy.Lifecycle.{MarketExecution, fresh}
use polymarket_btc.Strategy.Lifecycle.Invariant.{IsValid, fresh-IsValid}
use polymarket_btc.Strategy.Lifecycle.Runs.{run-IsValid, run-plan}
use polymarket_btc.Backtest.Strategy.{Platform, BtcOpeningMispricingConfig, Adapter, new_adapter}
use polymarket_btc.Backtest.Strategy.Effects.{Follows, Follows-trans, Follows-same, submits}
use polymarket_btc.Backtest.Strategy.HandlerEffects.{is_reset, step-Effect}
use polymarket_btc.Backtest.Strategy.Handlers.{
  ReplayEvent, start_event, stop_event, reset_event, signal_event, deltas_event, filled_event,
  closed_event, on_reset, step, replay,
}
use polymarket_btc.Strategy.Types.{StrategyError}

both-Follows :
    (r : Bool) (new a b : MarketExecution)
    → Follows a b
    → Follows (if r then new else a) (if r then new else b)
both-Follows true new a b h = Follows-same new new refl
both-Follows false new a b h = h

module _ {Book Deltas : Type 0} (v : Platform Book Deltas) (c : BtcOpeningMispricingConfig) where
  -- Where the cycle after the events starts: with a fresh execution if there is a reset among them.
  pub since_reset : List (ReplayEvent Deltas) → MarketExecution → MarketExecution
  since_reset [] e = e
  since_reset (ev ∷ evs) e = since_reset evs (if is_reset ev then fresh c.market_slug else e)

  since_reset-Follows :
      (evs : List (ReplayEvent Deltas)) (a b x : MarketExecution)
      → Follows a b
      → Follows (since_reset evs b) x
      → Follows (since_reset evs a) x
  unfolding since_reset
  since_reset-Follows [] a b x h k = Follows-trans a b x h k
  since_reset-Follows (ev ∷ evs) a b x h k =
      since_reset-Follows evs _ _ x (both-Follows (is_reset ev) (fresh c.market_slug) a b h) k

  since_reset-fresh :
      (evs : List (ReplayEvent Deltas))
      → since_reset evs (fresh c.market_slug) ≡ fresh c.market_slug
  unfolding since_reset
  since_reset-fresh [] = refl
  since_reset-fresh (ev ∷ evs) =
      ap (since_reset evs)
        (if_holds (λ e. e ≡ fresh c.market_slug) (is_reset ev) (λ _. refl) (λ _. refl))
      ∙ since_reset-fresh evs

  on_reset-Follows :
      (s s' : Adapter Book)
      → ◌≡◌ {A = Result StrategyError (Adapter Book)} (ok (on_reset v c s)) (ok s')
      → Follows (fresh c.market_slug) s'.execution
  unfolding on_reset
  on_reset-Follows s s' h =
      Follows-same (fresh c.market_slug) s'.execution
        (ap (λ (t : Adapter Book). t.execution) (sym (ok-inj h)))

  step-Follows :
      (ev : ReplayEvent Deltas) (s s' : Adapter Book)
      → step v c ev s ≡ ok s'
      → Follows (if is_reset ev then fresh c.market_slug else s.execution) s'.execution
  unfolding step
  step-Follows start_event s s' h = (step-Effect v c start_event s s' refl h).follows
  step-Follows stop_event s s' h = (step-Effect v c stop_event s s' refl h).follows
  step-Follows reset_event s s' h = on_reset-Follows s s' h
  step-Follows (signal_event d) s s' h = (step-Effect v c (signal_event d) s s' refl h).follows
  step-Follows (deltas_event id deltas ts) s s' h =
      (step-Effect v c (deltas_event id deltas ts) s s' refl h).follows
  step-Follows (filled_event id size ts) s s' h =
      (step-Effect v c (filled_event id size ts) s s' refl h).follows
  step-Follows (closed_event closing id ts) s s' h =
      (step-Effect v c (closed_event closing id ts) s s' refl h).follows

  -- Whatever events the platform sends, resets included and in any order, and whatever its instruments and
  -- books answer: the execution after a replay is one that calls of the lifecycle, with checked plans only,
  -- make of the execution before it, or of a fresh one of the market if there was a reset.
  pub replay-Follows :
      (evs : List (ReplayEvent Deltas)) (s s' : Adapter Book)
      → replay v c evs s ≡ ok s'
      → Follows (since_reset evs s.execution) s'.execution
  unfolding replay since_reset
  replay-Follows [] s s' h =
      let e : s' ≡ s = ground arith in rw e (Follows-same s.execution s.execution refl)
  replay-Follows (ev ∷ evs) s s' h =
      let (t, eq, next) = bind-ok (step v c ev s) _ h in
      since_reset-Follows evs _ t.execution s'.execution (step-Follows ev s t eq)
        (replay-Follows evs t s' next)

  -- From a new strategy whose market has a slug, every replay that does not raise ends in a valid
  -- execution of that market: its phase, plan, placement and filled size fit together.
  pub replay-IsValid :
      (evs : List (ReplayEvent Deltas)) (s : Adapter Book)
      → str_is_empty c.market_slug ≡ false
      → replay v c evs (new_adapter c) ≡ ok s
      → IsValid s.execution
  unfolding new_adapter
  replay-IsValid evs s slug h =
      let (calls, legal, eq) = replay-Follows evs (new_adapter c) s h in
      rw (eq, since_reset-fresh evs)
        (run-IsValid calls (fresh c.market_slug) legal (fresh-IsValid c.market_slug slug))

  -- Once the market is placed, no sequence of events submits another order or replaces the plan, until the
  -- strategy is reset.
  pub replay-submits :
      (evs : List (ReplayEvent Deltas)) (s s' : Adapter Book)
      → All (λ ev. is_reset ev ≡ false) evs
      → s.execution.is_placed ≡ true
      → replay v c evs s ≡ ok s'
      → (submits s'.calls ≡ submits s.calls)
        × (s'.execution.is_placed ≡ true)
        × (s'.execution.plan ≡ s.execution.plan)
  unfolding replay
  replay-submits [] s s' r p h = let e : s' ≡ s = ground arith in rw e (refl, p, refl)
  replay-submits (ev ∷ evs) s s' r p h =
      let (t, eq, next) = bind-ok (step v c ev s) _ h in
      let effect = step-Effect v c ev s t r.0 eq in
      let (calls, legal, moved) = effect.follows in
      let (placed, plan) = run-plan calls s.execution legal p in
      let (same, placed', plan') = replay-submits evs t s' r.1 (rw moved placed) next in
      (same ∙ effect.quiet p, placed', plan' ∙ rw moved plan)
