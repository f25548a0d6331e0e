-- ===== src/Strategy/Lifecycle/Spec.antt =====
-- btc_short_horizon/strategy/lifecycle.py: which call each phase allows, and what it leads to. On a
-- valid execution the methods do exactly this: `__post_init__` never raises after a guard has passed.
use polymarket_btc.Prelude.{
  ltb, leb, if◌then◌else◌, string_eq, pair_eq, units, zero_f, tolerance, ◌<f◌, ◌≤f◌, ◌+f◌,
  not_positive, Float, positive_units, units-+f, units--f, units-tolerance-≤f, ok, ℕ, ◌+◌, ◌-◌, ◌≤◌,
  ◌≡◌, refl, ap, Bool, true, false, not, ◌&&◌, some, arith, str_eq, eq_iff,
}
use polymarket_btc.Strategy.Types.{OrderPlan, total_size}
use polymarket_btc.Strategy.Lifecycle.{
  StrategyPhase, discovered, monitoring, order_working, cancel_requested, partially_filled, filled,
  canceled, rejected, resolved, MarketExecution, make_execution, is_phase, remaining_size,
  transition, begin_monitoring, submit_plan, request_cancel, reject_cancel, record_fill, after_fill,
  acknowledge_cancel, reject_order, complete_working_orders, record_resolution, redeem, Event,
  begin_event, request_event, reject_cancel_event, acknowledge_event, reject_order_event,
  complete_event, resolution_event, redeem_event, submit_event, fill_event, apply,
}
use polymarket_btc.Strategy.Lifecycle.Invariant.{
  IsWellFormed, Fits, Holds, Covers, IsValid, Numbers, Covers-Numbers, total_size-finite,
  make_execution-Numbers, Numbers-Covers,
}

-- The phases in which an order may still fill.
abbrev pub is_open : StrategyPhase → Bool
is_open order_working = true
is_open cancel_requested = true
is_open _ = false

abbrev is_closed : StrategyPhase → Bool
is_closed partially_filled = true
is_closed filled = true
is_closed canceled = true
is_closed rejected = true
is_closed _ = false

abbrev pub enabled : Event → MarketExecution → Bool
enabled begin_event e = is_phase e.phase discovered
enabled request_event e = is_phase e.phase order_working
enabled reject_cancel_event e = is_phase e.phase cancel_requested
enabled acknowledge_event e = is_phase e.phase cancel_requested
enabled reject_order_event e = is_phase e.phase order_working
enabled complete_event e = is_phase e.phase order_working
enabled resolution_event e = is_closed e.phase
enabled redeem_event e = is_phase e.phase resolved && zero_f <f e.filled_size
enabled (submit_event p) e = is_phase e.phase monitoring && str_eq p.market_slug e.market_slug
enabled (fill_event size) e =
    is_open e.phase && not (not_positive size) && size ≤f remaining_size e +f tolerance

-- The plan of a legal submission is an `OrderPlan` object.
abbrev pub IsLegal : Event → Type 0
IsLegal (submit_event p) = IsWellFormed p
IsLegal _ = Unit

open-Covers :
    (e : MarketExecution)
    → IsValid e
    → is_open e.phase ≡ true
    → Covers e.market_slug e.filled_size e.plan
open-Covers e v o = ground arith

pub open-Numbers :
    (e : MarketExecution)
    → IsValid e
    → is_open e.phase ≡ true
    → Numbers e.market_slug e.filled_size e.plan
open-Numbers e v o = Covers-Numbers _ _ _ (open-Covers e v o)

-- The filled size after a fill of `m` units, of `t` planned with `k` filled before.
abbrev pub filled_after : ℕ → ℕ → ℕ → ℕ
filled_after t k m = if ltb (k + m) t then k + m else t

abbrev pub after : (t k m : ℕ) → MarketExecution → MarketExecution
after t k m e = record e {
  phase = if leb t (filled_after t k m + 1) then filled else e.phase;
  filled_size = units (filled_after t k m);
}

guards_fill :
    (size : Float) (e : MarketExecution) {e' : MarketExecution}
    → record_fill size e ≡ ok e'
    → (is_open e.phase ≡ true)
      × (not_positive size ≡ false)
      × ((remaining_size e +f tolerance <f size) ≡ false)
      × (after_fill e.plan size e ≡ ok e')
unfolding record_fill
guards_fill size e h = ground arith

pub remaining_units :
    (e : MarketExecution)
    → (n : Numbers e.market_slug e.filled_size e.plan) → remaining_size e ≡ units (n.total - n.size)
unfolding remaining_size
remaining_units e n = ground (arith, units--f n.total n.size)

-- What an accepted fill leads to, in units.
pub after-units :
    (e : MarketExecution) (t k m : ℕ) (p : OrderPlan)
    → is_open e.phase ≡ true
    → total_size p ≡ units t
    → e.filled_size ≡ units k
    → after_fill (some p) (units m) e ≡ make_execution (after t k m e)
unfolding after_fill
after-units e t k m p o te ke =
    ap make_execution (ground (arith, units-+f k m, units-tolerance-≤f t (filled_after t k m)))

pub after-Numbers :
    (e : MarketExecution) (m : ℕ)
    → (n : Numbers e.market_slug e.filled_size e.plan)
    → Numbers e.market_slug (units (filled_after n.total n.size m)) e.plan
after-Numbers e m n = record {
  of = n.of;
  total = n.total;
  size = filled_after n.total n.size m;
  plan_eq = n.plan_eq;
  total_eq = n.total_eq;
  size_eq = refl;
  size_le = ground arith;
  positive = n.positive;
  slug_eq = n.slug_eq;
  well_formed = n.well_formed;
}

fill_room :
    (size : Float) (e : MarketExecution) (m : ℕ)
    → (n : Numbers e.market_slug e.filled_size e.plan) → size ≡ units m
    → (remaining_size e +f tolerance <f size) ≡ false
    → n.size + m ≤ n.total + 1
fill_room size e m n q h =
    let sm = n.size_le in ground (arith, remaining_units e n, units-+f (n.total - n.size) 1)

fill_next :
    (size : Float) (e : MarketExecution) {e' : MarketExecution} (m : ℕ)
    → (n : Numbers e.market_slug e.filled_size e.plan) → IsValid e
    → is_open e.phase ≡ true
    → size ≡ units m
    → after_fill e.plan size e ≡ ok e'
    → e' ≡ after n.total n.size m e
fill_next size e m n v o q h = cc (
  n.plan_eq,
  after-units e n.total n.size m n.of o n.total_eq n.size_eq,
  make_execution-Numbers (after n.total n.size m e) v.slug (after-Numbers e m n),
)

-- What an accepted fill leads to, on a valid execution.
pub record Filled (size : Float) (e e' : MarketExecution) : Type 0 where
  pub before : Numbers e.market_slug e.filled_size e.plan
  pub units_of : ℕ
  pub size_eq : size ≡ units units_of
  pub positive : 1 ≤ units_of
  pub room : before.size + units_of ≤ before.total + 1
  pub open_phase : is_open e.phase ≡ true
  pub next : e' ≡ after before.total before.size units_of e

pub record_fill-Filled :
    (size : Float) (e : MarketExecution) {e' : MarketExecution}
    → IsValid e
    → record_fill size e ≡ ok e'
    → Filled size e e'
record_fill-Filled size e v h =
    let (o, ps, r, a) = guards_fill size e h in
    let n = open-Numbers e v o in
    let (m, q, p) = positive_units size ps in
    record {
      before = n;
      units_of = m;
      size_eq = q;
      positive = p;
      room = fill_room size e m n q r;
      open_phase = o;
      next = fill_next size e m n v o q a;
    }

open-flags :
    (e : MarketExecution)
    → IsValid e
    → is_open e.phase ≡ true
    → (e.is_placed ≡ true) × (e.is_resolved ≡ false)
open-flags e v o = ground arith

after-Holds :
    (e : MarketExecution) (m : ℕ)
    → (n : Numbers e.market_slug e.filled_size e.plan) → is_open e.phase ≡ true
    → IsValid e
    → Holds (after n.total n.size m e) false
after-Holds e m n o v =
    let f = open-flags e v o in (f.0, f.1, Numbers-Covers _ _ _ (after-Numbers e m n))

-- An open phase stays, or the order is full.
open-Fits :
    (q : StrategyPhase) (full : Bool) (e : MarketExecution)
    → is_open q ≡ true
    → Holds e false
    → (full ≡ true → (remaining_size e ≤f tolerance) ≡ true)
    → Fits (if full then filled else q) e
open-Fits order_working false e o h r = h
open-Fits cancel_requested false e o h r = h
open-Fits order_working true e o h r = (h, r refl)
open-Fits cancel_requested true e o h r = (h, r refl)
open-Fits discovered full e o h r = absurd (ground arith)
open-Fits _ full e o h r = absurd (ground arith)

after-IsValid :
    (e : MarketExecution) (m : ℕ)
    → (n : Numbers e.market_slug e.filled_size e.plan) → is_open e.phase ≡ true
    → IsValid e
    → IsValid (after n.total n.size m e)
after-IsValid e m n o v = record {
  slug = v.slug;
  fits =
      open-Fits e.phase (leb n.total (filled_after n.total n.size m + 1)) (after n.total n.size m e)
        o (after-Holds e m n o v)
        (λ full.
          rw (remaining_units (after n.total n.size m e) (after-Numbers e m n)) (ground arith));
}

-- A fill that is accepted leaves the filled size between 0 and the total.
fill-IsValid :
    (size : Float) {e e' : MarketExecution} → IsValid e → record_fill size e ≡ ok e' → IsValid e'
fill-IsValid size {e} v h =
    let f = record_fill-Filled size e v h in
    rw f.next (after-IsValid e f.units_of f.before f.open_phase v)

-- Every call that succeeds, in whatever order, keeps the invariant.
pub apply-IsValid :
    (ev : Event) {e e' : MarketExecution} → IsLegal ev → IsValid e → apply ev e ≡ ok e' → IsValid e'
unfolding apply begin_monitoring request_cancel reject_cancel acknowledge_cancel reject_order
    complete_working_orders record_resolution redeem submit_plan transition make_execution
apply-IsValid begin_event l v h = ground arith
apply-IsValid request_event l v h = ground arith
apply-IsValid reject_cancel_event l v h = ground arith
apply-IsValid acknowledge_event l v h = ground arith
apply-IsValid reject_order_event l v h = ground arith
apply-IsValid complete_event l v h = ground arith
apply-IsValid resolution_event l v h = ground arith
apply-IsValid redeem_event l v h = ground arith
apply-IsValid (submit_event p) {e} l v h =
    ground (arith, eq_iff p.market_slug e.market_slug, total_size-finite p l)
apply-IsValid (fill_event size) l v h = fill-IsValid size v h
