-- ===== src/Backtest/Strategy/Orders.antt =====
-- btc_short_horizon/backtest/strategy.py: making a plan fit the venue, and its orders.
use polymarket_btc.Prelude.{
  if◌then◌else◌, ℤ, is_empty, ◌>>=◌, ◌>>?◌, Result, string_eq, pair_eq, Dict, insert, has_key,
  remove, zero_f, tolerance, ◌<f◌, ◌≤f◌, ◌+f◌, ◌==f◌, Float, pos, negsuc, ok, err, ℕ, suc, String,
  Bool, true, false, not, ◌&&◌, ◌||◌, Option, none, some, List, [], ◌∷◌, ◌++◌,
}
use polymarket_btc.Strategy.Types.{
  StrategyError, key_error, MakerOrderLayer, make_layer, OrderPlan, make_plan,
}
use polymarket_btc.Strategy.Lifecycle.{
  MarketExecution, order_working, cancel_requested, is_phase, reject_order, acknowledge_cancel,
  complete_working_orders,
}
use polymarket_btc.Strategy.Lifecycle.{request_cancel as cancel_execution}
use polymarket_btc.Backtest.Strategy.{
  Instrument, Platform, Adapter, AuditType, submitted, cancel_requested_of, record_audit,
  submit_order, cancel_order,
}

-- The layer as the venue rounds it, or none where it is skipped.
unfoldable pub fitted : Instrument → MakerOrderLayer → Option MakerOrderLayer
fitted i l = i.make_qty l.size >>? λ size. i.make_price l.price >>? λ price.
    if size ≤f zero_f || l.price +f tolerance <f price
    then none
    else some (record { price = price; size = size })

-- `MakerOrderLayer(...)` for a layer that is kept, before those that come after it.
unfoldable pub keep_layer :
    Option MakerOrderLayer
    → Result StrategyError (List MakerOrderLayer)
    → Result StrategyError (List MakerOrderLayer)
keep_layer none rest = rest
keep_layer (some l) rest = do made ← make_layer l; ls ← rest; ok (made ∷ ls)

unfoldable pub fitted_layers :
    Instrument → List MakerOrderLayer → Result StrategyError (List MakerOrderLayer)
fitted_layers i [] = ok []
fitted_layers i (l ∷ ls) = keep_layer (fitted i l) (fitted_layers i ls)

-- `replace(plan, layers=...) if layers else None`
unfoldable pub with_layers :
    OrderPlan → List MakerOrderLayer → Result StrategyError (Option OrderPlan)
with_layers p [] = ok none
with_layers p (l ∷ ls) = do made ← make_plan (record p { layers = l ∷ ls }); ok (some made)

-- `_materialize_plan`
unfoldable pub materialize_plan :
    Option Instrument → OrderPlan → Result StrategyError (Option OrderPlan)
materialize_plan none p = err key_error
materialize_plan (some i) p = do ls ← fitted_layers i p.layers; with_layers p ls

-- The orders that could be made, with their ids, and the number of orders made until then.
abbrev pub Pending : Type 0
Pending = List (String × MakerOrderLayer) × ℕ

abbrev pub with_order : Option String → MakerOrderLayer → Pending → Pending
with_order none l (orders, n) = (orders, n)
with_order (some id) l (orders, n) = ((id, l) ∷ orders, n)

abbrev pub has_value : Option Float → Bool
has_value none = false
has_value (some _) = true

unfoldable pub pending_orders :
    (ℕ → MakerOrderLayer → Option String) → Instrument → ℕ → List MakerOrderLayer → Pending
pending_orders limit i n [] = ([], n)
pending_orders limit i n (l ∷ ls) =
    if has_value (i.make_qty l.size) && has_value (i.make_price l.price)
    then with_order (limit n l) l (pending_orders limit i (suc n) ls)
    else pending_orders limit i n ls

-- The loop that submits the orders: a call of the venue, an active order, and a record of the audit.
unfoldable pub submit_all :
    {Book : Type 0}
    → ℤ
    → List (String × MakerOrderLayer)
    → Adapter Book
    → Result StrategyError (Adapter Book)
submit_all ts [] s = ok s
submit_all ts ((id, l) ∷ orders) s = do
  audit ←
      record_audit (record { event_type = submitted; ts_ns = ts; client_order_id = some id })
        s.order_audit
  submit_all ts orders (record s {
    active_orders = insert id l s.active_orders;
    order_audit = audit;
    calls = s.calls ++ submit_order id l ∷ [];
  })

unfoldable pub submit_pending :
    {Book : Type 0} → ℤ → Pending → Adapter Book → Result StrategyError (Adapter Book)
submit_pending ts ([], n) s = do
  execution ← reject_order s.execution
  ok (record s { execution = execution; orders_made = n })
submit_pending ts (o ∷ orders, n) s = submit_all ts (o ∷ orders) (record s { orders_made = n })

-- `_submit_orders`
unfoldable pub submit_orders :
    {Book Deltas : Type 0}
    → Platform Book Deltas
    → Option Instrument
    → OrderPlan
    → Adapter Book
    → Result StrategyError (Adapter Book)
submit_orders v none p s = err key_error
submit_orders v (some i) p s =
    submit_pending p.created_ts_ns
      (pending_orders (λ n l. v.limit n p.side l) i s.orders_made p.layers) s

-- The loop of `_request_cancel` over the active orders.
unfoldable pub cancel_each :
    {Book : Type 0}
    → ℤ
    → Dict String MakerOrderLayer
    → Adapter Book
    → Result StrategyError (Adapter Book)
cancel_each ts [] s = ok s
cancel_each ts ((id, l) ∷ orders) s = do
  audit ←
      record_audit
        (record { event_type = cancel_requested_of; ts_ns = ts; client_order_id = some id })
        s.order_audit
  cancel_each ts orders (record s { order_audit = audit; calls = s.calls ++ cancel_order id ∷ [] })

-- `max(0, now)`
abbrev pub at_least_zero : ℤ → ℤ
at_least_zero (pos n) = pos n
at_least_zero (negsuc n) = pos 0

-- `_request_cancel`
unfoldable pub request_cancel_all :
    {Book : Type 0} → ℤ → Adapter Book → Result StrategyError (Adapter Book)
request_cancel_all now s = if not (is_phase s.execution.phase order_working) then ok s else do
  execution ← cancel_execution s.execution
  cancel_each (at_least_zero now) s.active_orders (record s { execution = execution })

-- What the last order that closes does to the execution.
unfoldable pub close_execution : Bool → MarketExecution → Result StrategyError MarketExecution
close_execution rejected e =
    if is_phase e.phase cancel_requested
    then acknowledge_cancel e
    else if is_phase e.phase order_working
    then (if rejected && e.filled_size ==f zero_f
        then reject_order e
        else complete_working_orders e)
    else ok e

unfoldable pub after_removal :
    {Book : Type 0} → Bool → Adapter Book → Result StrategyError (Adapter Book)
after_removal rejected s = if not (is_empty s.active_orders) then ok s else do
  execution ← close_execution rejected s.execution
  ok (record s { execution = execution })

-- `_close_order_event`
unfoldable pub close_order_event :
    {Book : Type 0}
    → AuditType
    → Bool
    → String
    → ℤ
    → Adapter Book
    → Result StrategyError (Adapter Book)
close_order_event kind rejected id ts s = if not (has_key id s.active_orders) then ok s else do
  audit ←
      record_audit (record { event_type = kind; ts_ns = ts; client_order_id = some id })
        s.order_audit
  after_removal rejected
      (record s { order_audit = audit; active_orders = remove id s.active_orders })
