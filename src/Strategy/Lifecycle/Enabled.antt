-- ===== src/Strategy/Lifecycle/Enabled.antt =====
-- btc_short_horizon/strategy/lifecycle.py: which calls succeed.
use polymarket_btc.Prelude.{
  zero_f, ◌⊎◌, Bool-cases, is_ok, string_eq, pair_eq, units, tolerance, ◌<f◌, ◌≤f◌, ◌+f◌,
  not_positive, Float, positive_units, units-+f, ok, ℕ, ◌≡◌, refl, ap, inl, inr, Bool, true, false,
  not, some, arith, eq_iff,
}
use polymarket_btc.Strategy.Types.{OrderPlan}
use polymarket_btc.Strategy.Lifecycle.{
  StrategyPhase, discovered, monitoring, order_working, cancel_requested, partially_filled,
  canceled, rejected, resolved, redeemed, MarketExecution, make_execution, check_plan,
  closing_phase, remaining_size, transition, begin_monitoring, submit_plan, request_cancel,
  reject_cancel, record_fill, acknowledge_cancel, reject_order, complete_working_orders,
  record_resolution, redeem, Event, after_fill, begin_event, request_event, reject_cancel_event,
  acknowledge_event, reject_order_event, complete_event, resolution_event, redeem_event,
  submit_event, fill_event, apply,
}
use polymarket_btc.Strategy.Lifecycle.Invariant.{
  IsWellFormed, Covers, IsValid, Numbers, Covers-Numbers, make_execution-Numbers, total_size-finite,
}
use polymarket_btc.Strategy.Lifecycle.Spec.{
  is_open, enabled, IsLegal, after, after-Numbers, open-Numbers, after-units, remaining_units,
  Filled, record_fill-Filled,
}

abbrev is_new : StrategyPhase → Bool
is_new discovered = true
is_new monitoring = true
is_new _ = false

placed-Covers :
    (e : MarketExecution)
    → IsValid e
    → is_new e.phase ≡ false
    → Covers e.market_slug e.filled_size e.plan
placed-Covers e v p = ground arith

-- `__post_init__` passes any change of the phase and of the resolution of a placed market.
placed_passes :
    (e : MarketExecution) (q : StrategyPhase) (r : Bool)
    → IsValid e
    → is_new e.phase ≡ false
    → make_execution (record e { phase = q; is_resolved = r })
      ≡ ok (record e { phase = q; is_resolved = r })
placed_passes e q r v p =
    make_execution-Numbers (record e { phase = q; is_resolved = r }) v.slug
      (Covers-Numbers _ _ _ (placed-Covers e v p))

new_passes :
    (e : MarketExecution) (q : StrategyPhase)
    → IsValid e
    → is_new e.phase ≡ true
    → make_execution (record e { phase = q }) ≡ ok (record e { phase = q })
unfolding make_execution
new_passes e q v p = ground arith

new-Numbers :
    (e : MarketExecution) (p : OrderPlan)
    → IsValid e
    → IsWellFormed p
    → is_new e.phase ≡ true
    → p.market_slug ≡ e.market_slug
    → Numbers e.market_slug e.filled_size (some p)
new-Numbers e p v w n s =
    let (t, q, o) = total_size-finite p w in
    record {
      of = p;
      total = t;
      size = 0;
      plan_eq = refl;
      total_eq = q;
      size_eq = ground arith;
      size_le = omega arith;
      positive = o;
      slug_eq = s;
      well_formed = w;
    }

submitted_passes :
    (e : MarketExecution) (p : OrderPlan)
    → IsValid e
    → IsWellFormed p
    → is_new e.phase ≡ true
    → p.market_slug ≡ e.market_slug
    → is_ok (make_execution (record e { phase = order_working; plan = some p; is_placed = true }))
      ≡ true
submitted_passes e p v w n s = ap is_ok (
    make_execution-Numbers (record e { phase = order_working; plan = some p; is_placed = true })
      v.slug (new-Numbers e p v w n s))

after_fill_passes :
    (e : MarketExecution) (size : Float) (m : ℕ)
    → (n : Numbers e.market_slug e.filled_size e.plan) → IsValid e
    → is_open e.phase ≡ true
    → size ≡ units m
    → is_ok (after_fill e.plan size e) ≡ true
after_fill_passes e size m n v o q =
    let done : after_fill e.plan size e ≡ ok (after n.total n.size m e) = cc (
      n.plan_eq,
      after-units e n.total n.size m n.of o n.total_eq n.size_eq,
      make_execution-Numbers (after n.total n.size m e) v.slug (after-Numbers e m n),
    ) in
    ap is_ok done

-- Too large a fill is one that is not at most the remaining size and the tolerance.
room_test :
    (e : MarketExecution) (size : Float) (m : ℕ)
    → Numbers e.market_slug e.filled_size e.plan
    → size ≡ units m
    → (remaining_size e +f tolerance <f size) ≡ not (size ≤f remaining_size e +f tolerance)
room_test e size m n q = rw (remaining_units e n, units-+f, q) (ground arith)

fill-enabled :
    (e : MarketExecution) (size : Float)
    → IsValid e
    → is_ok (record_fill size e) ≡ enabled (fill_event size) e
unfolding record_fill
fill-enabled e size v = elim (Bool-cases (is_open e.phase)) [
  | inr shut ↦ ground arith
  | inl o ↦ elim (Bool-cases (not_positive size)) [
    | inl bad ↦ ground arith
    | inr p ↦
        let n = open-Numbers e v o in
        let (m, q, _) = positive_units size p in
        ground (arith, room_test e size m n q, after_fill_passes e size m n v o q)
  ]
]

make_execution-same : (e e' : MarketExecution) → make_execution e ≡ ok e' → e' ≡ e
unfolding make_execution check_plan
make_execution-same e e' h = ground arith

-- Where a cycle ends without a full fill: it is partly filled exactly if something was filled.
Closes : MarketExecution → MarketExecution → Type 0
Closes e e' =
    (((zero_f <f e.filled_size) ≡ true) × (e' ≡ record e { phase = partially_filled }))
    ⊎ (((zero_f <f e.filled_size) ≡ false) × (e' ≡ record e { phase = canceled }))

closing-Closes :
    (e e' : MarketExecution)
    → make_execution (record e { phase = closing_phase e }) ≡ ok e'
    → Closes e e'
unfolding Closes
closing-Closes e e' h =
    let same = make_execution-same (record e { phase = closing_phase e }) e' h in
    elim (Bool-cases (zero_f <f e.filled_size)) [
      | inl some_fill ↦ inl (some_fill, rw some_fill at same)
      | inr no_fill ↦ inr (no_fill, rw no_fill at same)
    ]

-- What a call that succeeds leads to.
pub LeadsTo : Event → MarketExecution → MarketExecution → Type 0
LeadsTo begin_event e e' = e' ≡ record e { phase = monitoring }
LeadsTo request_event e e' = e' ≡ record e { phase = cancel_requested }
LeadsTo reject_cancel_event e e' = e' ≡ record e { phase = order_working }
LeadsTo acknowledge_event e e' = Closes e e'
LeadsTo reject_order_event e e' = e' ≡ record e { phase = rejected }
LeadsTo complete_event e e' = Closes e e'
LeadsTo resolution_event e e' = e' ≡ record e { phase = resolved; is_resolved = true }
LeadsTo redeem_event e e' = e' ≡ record e { phase = redeemed }
LeadsTo (submit_event p) e e' =
    e' ≡ record e { phase = order_working; plan = some p; is_placed = true }
LeadsTo (fill_event size) e e' = Filled size e e'

apply-LeadsTo :
    (ev : Event) (e e' : MarketExecution) → IsValid e → apply ev e ≡ ok e' → LeadsTo ev e e'
unfolding LeadsTo apply begin_monitoring request_cancel reject_cancel acknowledge_cancel
    reject_order complete_working_orders record_resolution redeem submit_plan transition
apply-LeadsTo begin_event e e' v h =
    ground (arith, make_execution-same (record e { phase = monitoring }) e')
apply-LeadsTo request_event e e' v h =
    ground (arith, make_execution-same (record e { phase = cancel_requested }) e')
apply-LeadsTo reject_cancel_event e e' v h =
    ground (arith, make_execution-same (record e { phase = order_working }) e')
apply-LeadsTo acknowledge_event e e' v h = ground (arith, closing-Closes e e')
apply-LeadsTo reject_order_event e e' v h =
    ground (arith, make_execution-same (record e { phase = rejected }) e')
apply-LeadsTo complete_event e e' v h = ground (arith, closing-Closes e e')
apply-LeadsTo resolution_event e e' v h =
    ground (arith, make_execution-same (record e { phase = resolved; is_resolved = true }) e')
apply-LeadsTo redeem_event e e' v h =
    ground (arith, make_execution-same (record e { phase = redeemed }) e')
apply-LeadsTo (submit_event p) e e' v h = ground (
  arith,
  make_execution-same (record e { phase = order_working; plan = some p; is_placed = true }) e',
)
apply-LeadsTo (fill_event size) e e' v h = record_fill-Filled size e v h

apply-is_ok :
    (ev : Event) (e : MarketExecution) → IsLegal ev → IsValid e → is_ok (apply ev e) ≡ enabled ev e
unfolding apply begin_monitoring request_cancel reject_cancel acknowledge_cancel reject_order
    complete_working_orders record_resolution redeem submit_plan transition
apply-is_ok begin_event e l v = ground (arith, new_passes e monitoring v)
apply-is_ok request_event e l v = ground (arith, placed_passes e cancel_requested e.is_resolved v)
apply-is_ok reject_cancel_event e l v =
    ground (arith, placed_passes e order_working e.is_resolved v)
apply-is_ok acknowledge_event e l v =
    ground (arith, placed_passes e (closing_phase e) e.is_resolved v)
apply-is_ok reject_order_event e l v = ground (arith, placed_passes e rejected e.is_resolved v)
apply-is_ok complete_event e l v = ground (arith, placed_passes e (closing_phase e) e.is_resolved v)
apply-is_ok resolution_event e l v = ground (arith, placed_passes e resolved true v)
apply-is_ok redeem_event e l v = ground (arith, placed_passes e redeemed e.is_resolved v)
apply-is_ok (submit_event p) e l v =
    ground (arith, submitted_passes e p v l, eq_iff p.market_slug e.market_slug)
apply-is_ok (fill_event size) e l v = fill-enabled e size v

-- On a valid execution a call, whose plan has passed its own checks if it has one, succeeds exactly when
-- `enabled` says so: its phase allows it, and its plan, size or filled amount passes. Where it succeeds, the
-- execution is the one before with the phase, and the plan, the flags or the filled size, that the call is
-- for; a cycle that closes without a full fill is PARTIALLY_FILLED exactly if something was filled, and
-- CANCELED otherwise.
pub apply-enabled :
    (ev : Event) (e : MarketExecution)
    → IsLegal ev
    → IsValid e
    → (is_ok (apply ev e) ≡ enabled ev e)
      × ((e' : MarketExecution) → apply ev e ≡ ok e' → LeadsTo ev e e')
apply-enabled ev e l v = (apply-is_ok ev e l v, λ e' h. apply-LeadsTo ev e e' v h)
