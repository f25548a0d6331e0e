-- ===== src/Strategy/Lifecycle/Tests.antt =====
-- btc_short_horizon/strategy/lifecycle.py at concrete inputs.
use polymarket_btc.Prelude.{
  ◌+ℤ◌, ◌-ℤ◌, All, is_ok, string_eq, pair_eq, units, zero_f, ◌+f◌, ◌-f◌, pos, ok, ◌≡◌, refl, true,
  some, List, [], ◌∷◌,
}
use polymarket_btc.Strategy.Types.{OrderPlan, up, make_plan, make_layer, total_size}
use polymarket_btc.Strategy.Lifecycle.{
  monitoring, order_working, canceled, redeemed, MarketExecution, Event, begin_event, request_event,
  acknowledge_event, resolution_event, redeem_event, submit_event, fill_event, apply, run, fresh,
  begin_monitoring, submit_plan, request_cancel, record_fill, transition, make_execution,
  after_fill, acknowledge_cancel, record_resolution, redeem, remaining_size,
}
use polymarket_btc.Strategy.Lifecycle.Invariant.{IsWellFormed, IsValid, fresh-IsValid}
use polymarket_btc.Strategy.Lifecycle.Spec.{IsLegal, enabled, apply-IsValid}
use polymarket_btc.Strategy.Lifecycle.Enabled.{LeadsTo, apply-enabled}
use polymarket_btc.Strategy.Lifecycle.Runs.{is_final, run-IsValid, run-plan, run-final}
use polymarket_btc.Strategy.Lifecycle.Accounts.{Accounts, total_accepted, run-fresh-Accounts}

-- A plan to buy two layers, of 0.6 and 0.4 shares, at 0.50 and 0.49, on a fair probability of 0.6.
abbrev test_plan : OrderPlan
test_plan = record {
  market_slug = "btc-updown-15m";
  token_id = "up-token";
  side = up;
  p_fair = units 600_000_000_000;
  p_market = units 500_000_000_000;
  maker_fee_per_share = zero_f;
  safety_buffer = units 10_000_000_000;
  minimum_edge = zero_f;
  created_ts_ns = pos 0;
  expires_ts_ns = pos 60_000_000_000;
  layers =
      record { price = units 500_000_000_000; size = units 600_000_000_000 }
      ∷ record { price = units 490_000_000_000; size = units 400_000_000_000 }
      ∷ [];
}

test_plan-IsWellFormed : IsWellFormed test_plan
unfolding make_plan make_layer ◌-f◌ ◌-ℤ◌ ◌+f◌ ◌+ℤ◌
test_plan-IsWellFormed = record { built = refl; layers = (refl, (refl, tt)) }

abbrev start : MarketExecution
start = fresh "btc-updown-15m"

-- A fill races with the cancellation, and is kept; a call in the wrong phase is dropped.
abbrev race : List Event
race =
    begin_event
    ∷ submit_event test_plan
    ∷ request_event
    ∷ fill_event (units 600_000_000_000)
    ∷ redeem_event
    ∷ acknowledge_event
    ∷ resolution_event
    ∷ redeem_event
    ∷ []

race_ends :
    ((run race start).phase ≡ redeemed) × ((run race start).filled_size ≡ units 600_000_000_000)
unfolding run fresh apply begin_monitoring submit_plan request_cancel record_fill transition
    make_execution after_fill acknowledge_cancel record_resolution redeem total_size ◌+f◌ ◌-f◌ ◌+ℤ◌
    ◌-ℤ◌ remaining_size
race_ends = (refl, refl)

start-IsValid : IsValid start
start-IsValid = fresh-IsValid "btc-updown-15m" refl

race-IsLegal : All IsLegal race
race-IsLegal = (tt, (test_plan-IsWellFormed, (tt, (tt, (tt, (tt, (tt, (tt, tt))))))))

watching : MarketExecution
unfolding fresh
watching = record start { phase = monitoring }

begin_start : apply begin_event start ≡ ok watching
unfolding apply begin_monitoring transition make_execution fresh watching
begin_start = refl

apply-IsValid_example : IsValid watching
apply-IsValid_example = apply-IsValid begin_event tt start-IsValid begin_start

apply-enabled_example :
    (is_ok (apply redeem_event start) ≡ enabled redeem_event start)
    × ((e : MarketExecution) → apply redeem_event start ≡ ok e → LeadsTo redeem_event start e)
apply-enabled_example = apply-enabled redeem_event start tt start-IsValid

run-IsValid_example : IsValid (run race start)
run-IsValid_example = run-IsValid race start race-IsLegal start-IsValid

-- A market whose order is working.
abbrev working : MarketExecution
working = record start { phase = order_working; plan = some test_plan; is_placed = true }

run-plan_example : ((run race working).is_placed ≡ true) × ((run race working).plan ≡ working.plan)
run-plan_example = run-plan race working race-IsLegal refl

abbrev ended : MarketExecution
ended = record working { phase = canceled }

run-final_example :
    (is_final (run race ended).phase ≡ true) × ((run race ended).filled_size ≡ ended.filled_size)
run-final_example = run-final race ended race-IsLegal refl

run-fresh-Accounts_example : Accounts (total_accepted race start) (run race start)
run-fresh-Accounts_example = run-fresh-Accounts "btc-updown-15m" race refl race-IsLegal
