-- ===== src/Strategy/Lifecycle.antt =====
-- btc_short_horizon/strategy/lifecycle.py: one market's placement cycle. `replace` builds a new
-- frozen value, so it runs `__post_init__` again: every method ends in `make_execution`.
pub mod Invariant
pub mod Spec
pub mod Enabled
pub mod Runs
pub mod Accounts
mod Tests
use polymarket_btc.Prelude.{
  ◌==◌, if◌then◌else◌, any, ◌>>=◌, ◌>>◌, raise_if, Result, str_is_empty, zero_f, tolerance, ◌<f◌,
  ◌≤f◌, ◌+f◌, ◌-f◌, min_f, not_nonnegative, not_positive, ◌==f◌, Float, ok, err, ℕ, String, Bool,
  true, false, not, ◌||◌, Option, none, some, List, [], ◌∷◌, str_eq,
}
use polymarket_btc.Strategy.Types.{
  StrategyError, slug_required, bad_nonnegative, slug_mismatch, fill_without_plan, fill_above_total,
  placement_used, not_monitoring, fill_not_allowed, bad_fill_size, fill_above_remaining,
  no_pending_cancel, not_working, not_terminal, not_resolved, nothing_to_redeem, invalid_transition,
  attribute_error, OrderPlan, total_size,
}

pub data StrategyPhase : Type 0 where
  discovered monitoring order_working cancel_requested partially_filled : StrategyPhase
  filled canceled rejected resolved redeemed : StrategyPhase

pub record MarketExecution : Type 0 where
  pub market_slug : String
  pub phase : StrategyPhase
  pub plan : Option OrderPlan
  pub is_placed : Bool
  pub filled_size : Float
  pub is_resolved : Bool

-- The state of a new market, before `__post_init__`.
unfoldable pub fresh : String → MarketExecution
fresh slug = record {
  market_slug = slug;
  phase = discovered;
  plan = none;
  is_placed = false;
  filled_size = zero_f;
  is_resolved = false;
}

-- The three checks of `__post_init__` that look at the plan.
unfoldable pub check_plan : MarketExecution → Option OrderPlan → Result StrategyError Unit
check_plan e none = raise_if (not (e.filled_size ==f zero_f)) fill_without_plan
check_plan e (some p) = do
  raise_if (not (str_eq p.market_slug e.market_slug)) slug_mismatch
  raise_if (total_size p +f tolerance <f e.filled_size) fill_above_total

-- `MarketExecution.__post_init__`
unfoldable pub make_execution : MarketExecution → Result StrategyError MarketExecution
unfolding check_plan
make_execution e = do
  raise_if (str_is_empty e.market_slug) slug_required
  raise_if (not_nonnegative e.filled_size) bad_nonnegative
  check_plan e e.plan
  ok e

abbrev pub remaining_of : Option OrderPlan → Float → Float
remaining_of none size = zero_f
remaining_of (some p) size = total_size p -f size

unfoldable pub remaining_size : MarketExecution → Float
remaining_size e = remaining_of e.plan e.filled_size

-- `phase is ...`, by the place of the phase in the enumeration.
abbrev pub phase_number : StrategyPhase → ℕ
phase_number discovered = 0
phase_number monitoring = 1
phase_number order_working = 2
phase_number cancel_requested = 3
phase_number partially_filled = 4
phase_number filled = 5
phase_number canceled = 6
phase_number rejected = 7
phase_number resolved = 8
phase_number redeemed = 9

abbrev pub is_phase : StrategyPhase → StrategyPhase → Bool
is_phase p q = phase_number p == phase_number q

unfoldable pub transition :
    StrategyPhase → StrategyPhase → MarketExecution → Result StrategyError MarketExecution
transition source target e = do
  raise_if (not (is_phase e.phase source)) invalid_transition
  make_execution (record e { phase = target })

unfoldable pub begin_monitoring : MarketExecution → Result StrategyError MarketExecution
begin_monitoring = transition discovered monitoring

unfoldable pub submit_plan : OrderPlan → MarketExecution → Result StrategyError MarketExecution
submit_plan p e = do
  raise_if e.is_placed placement_used
  raise_if (not (is_phase e.phase monitoring)) not_monitoring
  raise_if (not (str_eq p.market_slug e.market_slug)) slug_mismatch
  make_execution (record e { phase = order_working; plan = some p; is_placed = true })

unfoldable pub request_cancel : MarketExecution → Result StrategyError MarketExecution
request_cancel = transition order_working cancel_requested

pub reject_cancel : MarketExecution → Result StrategyError MarketExecution
reject_cancel = transition cancel_requested order_working

-- The last part of `record_fill`: with no plan, `self.plan.total_size` is an `AttributeError`.
unfoldable pub after_fill :
    Option OrderPlan → Float → MarketExecution → Result StrategyError MarketExecution
after_fill none size e = err attribute_error
after_fill (some p) size e =
    let filled_size' = min_f (total_size p) (e.filled_size +f size) in
    make_execution (record e {
      phase =
          if total_size p -f tolerance ≤f filled_size'
          then filled
          else if is_phase e.phase cancel_requested
          then cancel_requested
          else order_working;
      filled_size = filled_size';
    })

unfoldable pub record_fill : Float → MarketExecution → Result StrategyError MarketExecution
record_fill size e = do
  raise_if (not (is_phase e.phase order_working || is_phase e.phase cancel_requested))
      fill_not_allowed
  raise_if (not_positive size) bad_fill_size
  raise_if (remaining_size e +f tolerance <f size) fill_above_remaining
  after_fill e.plan size e

-- Where a cycle ends without a full fill.
abbrev pub closing_phase : MarketExecution → StrategyPhase
closing_phase e = if zero_f <f e.filled_size then partially_filled else canceled

unfoldable pub acknowledge_cancel : MarketExecution → Result StrategyError MarketExecution
acknowledge_cancel e = do
  raise_if (not (is_phase e.phase cancel_requested)) no_pending_cancel
  make_execution (record e { phase = closing_phase e })

unfoldable pub reject_order : MarketExecution → Result StrategyError MarketExecution
reject_order e = do
  raise_if (not (is_phase e.phase order_working)) not_working
  make_execution (record e { phase = rejected })

unfoldable pub complete_working_orders : MarketExecution → Result StrategyError MarketExecution
unfolding make_execution
complete_working_orders e = do
  raise_if (not (is_phase e.phase order_working)) not_working
  make_execution (record e { phase = closing_phase e })

pub record_resolution : MarketExecution → Result StrategyError MarketExecution
record_resolution e = do
  raise_if (not (any (is_phase e.phase) (canceled ∷ partially_filled ∷ filled ∷ rejected ∷ [])))
      not_terminal
  make_execution (record e { phase = resolved; is_resolved = true })

pub redeem : MarketExecution → Result StrategyError MarketExecution
redeem e = do
  raise_if (not (is_phase e.phase resolved)) not_resolved
  raise_if (e.filled_size ≤f zero_f) nothing_to_redeem
  make_execution (record e { phase = redeemed })

-- A call of one of the methods above, as a caller may make them in any order.
pub data Event : Type 0 where
  begin_event request_event reject_cancel_event acknowledge_event : Event
  reject_order_event complete_event resolution_event redeem_event : Event
  submit_event : OrderPlan → Event
  fill_event : Float → Event

unfoldable pub apply : Event → MarketExecution → Result StrategyError MarketExecution
apply begin_event = begin_monitoring
apply request_event = request_cancel
apply reject_cancel_event = reject_cancel
apply acknowledge_event = acknowledge_cancel
apply reject_order_event = reject_order
apply complete_event = complete_working_orders
apply resolution_event = record_resolution
apply redeem_event = redeem
apply (submit_event p) = submit_plan p
apply (fill_event size) = record_fill size

-- A caller drops a call that raises, and goes on with the value that it had.
unfoldable pub keep : MarketExecution → Result StrategyError MarketExecution → MarketExecution
keep e (ok e') = e'
keep e (err _) = e

unfoldable pub run : List Event → MarketExecution → MarketExecution
unfolding keep
run [] e = e
run (ev ∷ evs) e = run evs (keep e (apply ev e))
