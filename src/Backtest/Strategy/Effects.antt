-- ===== src/Backtest/Strategy/Effects.antt =====
-- btc_short_horizon/backtest/strategy.py: what a step of a replay may do to the placement cycle.
use polymarket_btc.Prelude.{
  All, All-append, Result, string_eq, pair_eq, ok, String, ◌≡◌, refl, sym, ◌∙◌, true, List, [], ◌∷◌,
  ◌++◌, arith,
}
use polymarket_btc.Strategy.Types.{StrategyError, MakerOrderLayer}
use polymarket_btc.Strategy.Lifecycle.Spec.{IsLegal}
use polymarket_btc.Strategy.Lifecycle.{MarketExecution, Event, apply, keep, run}
use polymarket_btc.Backtest.Strategy.{Adapter, VenueCall, submit_order, cancel_order, stop}

-- Calls of the lifecycle, with checked plans, lead from one execution to the other.
abbrev pub Follows : MarketExecution → MarketExecution → Type 0
Follows e e' = (evs : List Event) × All IsLegal evs × (e' ≡ run evs e)

run_append : (xs ys : List Event) (e : MarketExecution) → run (xs ++ ys) e ≡ run ys (run xs e)
unfolding run
run_append [] ys e = refl
run_append (x ∷ xs) ys e = run_append xs ys (keep e (apply x e))

pub Follows-trans : (e f g : MarketExecution) → Follows e f → Follows f g → Follows e g
Follows-trans e f g (xs, l, p) (ys, m, q) =
    (xs ++ ys, All-append IsLegal xs ys l m, q ∙ rw (run_append, p) refl)

pub Follows-call :
    (ev : Event) (e f : MarketExecution) → IsLegal ev → apply ev e ≡ ok f → Follows e f
unfolding run keep
Follows-call ev e f l h = (ev ∷ [], (l, tt), rw h refl)

pub Follows-same : (e f : MarketExecution) → f ≡ e → Follows e f
unfolding run
Follows-same e f h = ([], tt, h)

-- The orders that were submitted.
unfoldable pub submits : List VenueCall → List (String × MakerOrderLayer)
submits [] = []
submits (submit_order id l ∷ cs) = (id, l) ∷ submits cs
submits (cancel_order id ∷ cs) = submits cs
submits (stop ∷ cs) = submits cs

pub submits_cancel :
    (cs : List VenueCall) (id : String) → submits (cs ++ cancel_order id ∷ []) ≡ submits cs
unfolding submits
submits_cancel [] id = refl
submits_cancel (submit_order j l ∷ cs) id = rw (submits_cancel cs id) refl
submits_cancel (cancel_order j ∷ cs) id = submits_cancel cs id
submits_cancel (stop ∷ cs) id = submits_cancel cs id

pub submits_stop : (cs : List VenueCall) → submits (cs ++ stop ∷ []) ≡ submits cs
unfolding submits
submits_stop [] = refl
submits_stop (submit_order j l ∷ cs) = rw (submits_stop cs) refl
submits_stop (cancel_order j ∷ cs) = submits_stop cs
submits_stop (stop ∷ cs) = submits_stop cs

-- The execution makes calls of the lifecycle, and a market that is placed gets no more orders.
pub record Effect {Book : Type 0} (s s' : Adapter Book) : Type 0 where
  pub follows : Follows s.execution s'.execution
  pub quiet : s.execution.is_placed ≡ true → submits s'.calls ≡ submits s.calls

module _ {Book : Type 0} where
  pub Effect-same :
      (s s' : Adapter Book)
      → s'.execution ≡ s.execution
      → submits s'.calls ≡ submits s.calls
      → Effect s s'
  Effect-same s s' h k = record {
    follows = Follows-same s.execution s'.execution h;
    quiet = λ _. k;
  }

  pub Effect-idle :
      (s s' : Adapter Book)
      → ◌≡◌ {A = Result StrategyError (Adapter Book)} (ok s) (ok s')
      → Effect s s'
  Effect-idle s s' h = let e : s' ≡ s = ground arith in rw e (Effect-same s s refl refl)

  pub Effect-call :
      (ev : Event) (s s' : Adapter Book)
      → IsLegal ev
      → apply ev s.execution ≡ ok s'.execution
      → submits s'.calls ≡ submits s.calls
      → Effect s s'
  Effect-call ev s s' l h k = record {
    follows = Follows-call ev s.execution s'.execution l h;
    quiet = λ _. k;
  }

  -- A step that does not look at what changed before it.
  pub Effect-after :
      (s t s' : Adapter Book)
      → t.execution ≡ s.execution
      → submits t.calls ≡ submits s.calls
      → Effect t s'
      → Effect s s'
  Effect-after s t s' h k f = record {
    follows = rw (sym h) f.follows;
    quiet = λ placed. f.quiet (rw h placed) ∙ k;
  }
