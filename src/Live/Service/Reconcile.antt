-- ===== src/Live/Service/Reconcile.antt =====
-- btc_short_horizon/live/service.py: `resolve_submission_unknown` and the reports of the user
-- channel. A report comes as a record of the fields that the service reads: `str(x or "")` of a
-- missing field is the empty text.
use polymarket_btc.Prelude.{
  if◌then◌else◌, ltb_ℤ, ℤ, any, Result, string_eq, pair_eq, str_is_empty, lookup, insert, discard,
  zero_f, ◌<f◌, ◌≤f◌, ◌-f◌, not_nonnegative, not_positive, Float, pos, ok, err, ◌+◌, String, Bool,
  true, false, not, Option, none, some, List, [], ◌∷◌,
}
use polymarket_btc.Live.State.{
  LiveOrder, LiveTrade, LiveOrderStatus, LiveTradeStatus, transition_order, transition_trade,
  make_trade, record_match, live, not_canceled, cancel_requested, unknown, canceled, rejected,
  submitted, matched, is_status, is_trade_status, StateError,
}
use polymarket_btc.Live.Service.{
  ServiceError, negative_ts, key_error, one_of_two_required, only_unknown_resolved,
  matched_size_decreased, bad_matched_amount, bad_trade_price, state_error, order_submission_found,
  order_submission_confirmed_absent, user_order, user_trade, Action, pure, raise, next, bind, write,
  order_note, put, transitioned,
}

-- `_record_cumulative_match`
unfoldable pub record_cumulative_match : LiveOrder → Float → Result ServiceError LiveOrder
record_cumulative_match o cumulative =
    if cumulative <f o.matched_size
    then err matched_size_decreased
    else elim (record_match (cumulative -f o.matched_size) o) [
      | ok o' ↦ ok o'
      | err e ↦ err (state_error e)
    ]

-- The `type` of an order event, in upper case.
pub data OrderEventKind : Type 0 where
  placement update cancellation other_kind : OrderEventKind

-- An order event: the venue's `id`, `type`, and `size_matched` as a number.
pub record OrderEvent : Type 0 where
  pub id : String
  pub kind : OrderEventKind
  pub size_matched : Float

-- The status that an event leads to, if it leads to another one.
unfoldable pub event_status : OrderEventKind → LiveOrderStatus → Option LiveOrderStatus
event_status cancellation s =
    if any (is_status s) (live ∷ cancel_requested ∷ not_canceled ∷ unknown ∷ [])
    then some canceled
    else none
event_status other_kind s = none
event_status _ s = if is_status s submitted then some live else none

unfoldable pub moved_to : Option LiveOrderStatus → LiveOrder → Result StateError LiveOrder
moved_to none o = ok o
moved_to (some s) o = transition_order s none o

-- A maker order of a trade event: its `order_id`, `matched_amount` and `price` as numbers.
pub record MakerOrder : Type 0 where
  pub order_id : String
  pub matched_amount : Float
  pub price : Float

-- A trade event: `id`, `status` if it names one, and the maker orders.
pub record TradeEvent : Type 0 where
  pub id : String
  pub status : Option LiveTradeStatus
  pub maker_orders : List MakerOrder

abbrev pub new_trade : String → String → MakerOrder → LiveTrade
new_trade id client m = record {
  trade_id = id;
  client_order_id = client;
  price = m.price;
  size = m.matched_amount;
  status = matched;
  transaction_hash = none;
}

-- An identifier of the venue that is not empty.
abbrev pub given : Option String → Option String
given none = none
given (some venue) = if str_is_empty venue then none else some venue

module _ {G : Type 0} where
  -- The end of `_reconcile_order`.
  unfoldable pub keep_order : ℤ → LiveOrder → Action G Unit
  keep_order ts o s =
      let left =
        if is_status o.status unknown
        then s.ambiguous_markets
        else discard o.market_id s.ambiguous_markets in
      write (order_note user_order ts o)
        (record (put o.client_order_id o s) { ambiguous_markets = left })

  unfoldable pub reconcile_matched : OrderEvent → ℤ → Result ServiceError LiveOrder → Action G Unit
  reconcile_matched ev ts (err e) = raise e
  reconcile_matched ev ts (ok o) =
      transitioned (moved_to (event_status ev.kind o.status) o) (keep_order ts)

  unfoldable pub reconcile_found : OrderEvent → ℤ → Option LiveOrder → Action G Unit
  reconcile_found ev ts none s = (err key_error, s)
  reconcile_found ev ts (some o) s =
      if not_nonnegative ev.size_matched
      then (err bad_matched_amount, s)
      else reconcile_matched ev ts (record_cumulative_match o ev.size_matched) s

  unfoldable pub reconcile_known : OrderEvent → ℤ → Option String → Action G Unit
  reconcile_known ev ts none s = (ok tt, s)
  reconcile_known ev ts (some client) s = reconcile_found ev ts (lookup client s.orders) s

  -- `_reconcile_order`, with `_order_for_venue_event`
  unfoldable pub reconcile_order : OrderEvent → ℤ → Action G Unit
  reconcile_order ev ts s = reconcile_known ev ts (lookup ev.id s.client_order_by_venue) s

  -- The end of `_reconcile_trade` for one maker order: the trade takes the status of the event.
  unfoldable pub keep_trade :
      String × String → LiveTradeStatus → ℤ → LiveOrder → LiveTrade → Action G Unit
  keep_trade key status ts o t s =
      elim (if is_trade_status status t.status then ok t else transition_trade status none t) [
        | ok t' ↦
            write (record (order_note user_trade ts o) { trade = some t' })
              (record s { trades = insert key t' s.trades })
        | err e ↦ (err (state_error e), s)
      ]

  -- The first report of a trade: the match is recorded before the trade is built.
  unfoldable pub open_trade :
      String → TradeEvent → LiveTradeStatus → MakerOrder → ℤ → LiveOrder → Action G Unit
  open_trade client ev status m ts o = transitioned (record_match m.matched_amount o) (λ o' s.
      let s' = put client o' s in
      if not_positive m.price
      then (err bad_trade_price, s')
      else elim (make_trade (new_trade ev.id client m)) [
        | ok t ↦
            keep_trade (ev.id, client) status ts o' t
              (record s' { progress = record s'.progress { fills = s'.progress.fills + 1 } })
        | err e ↦ (err (state_error e), s')
      ])

  unfoldable pub trade_for :
      String
      → TradeEvent
      → LiveTradeStatus
      → MakerOrder
      → ℤ
      → LiveOrder
      → Option LiveTrade
      → Action G Unit
  trade_for client ev status m ts o (some t) s = keep_trade (ev.id, client) status ts o t s
  trade_for client ev status m ts o none s =
      if m.matched_amount ≤f zero_f then (ok tt, s) else open_trade client ev status m ts o s

  unfoldable pub maker_found :
      TradeEvent → LiveTradeStatus → MakerOrder → ℤ → String → Option LiveOrder → Action G Unit
  maker_found ev status m ts client none s = (err key_error, s)
  maker_found ev status m ts client (some o) s =
      if not_nonnegative m.matched_amount
      then (err bad_matched_amount, s)
      else trade_for client ev status m ts o (lookup (ev.id, client) s.trades) s

  unfoldable pub maker_known :
      TradeEvent → LiveTradeStatus → MakerOrder → ℤ → Option String → Action G Unit
  maker_known ev status m ts none s = (ok tt, s)
  maker_known ev status m ts (some client) s =
      maker_found ev status m ts client (lookup client s.orders) s

  -- The loop over the maker orders: an error in one ends it.
  unfoldable pub reconcile_makers :
      TradeEvent → LiveTradeStatus → List MakerOrder → ℤ → Action G Unit
  reconcile_makers ev status [] ts s = (ok tt, s)
  reconcile_makers ev status (m ∷ ms) ts s =
      next (λ _. reconcile_makers ev status ms ts)
        (maker_known ev status m ts (lookup m.order_id s.client_order_by_venue) s)

  unfoldable pub reconcile_status : TradeEvent → Option LiveTradeStatus → ℤ → Action G Unit
  reconcile_status ev none ts s = (ok tt, s)
  reconcile_status ev (some status) ts s = reconcile_makers ev status ev.maker_orders ts s

  -- `_reconcile_trade`
  unfoldable pub reconcile_trade : TradeEvent → ℤ → Action G Unit
  reconcile_trade ev ts s =
      if str_is_empty ev.id then (ok tt, s) else reconcile_status ev ev.status ts s

  -- The venue knows the order, or has confirmed that it does not.
  unfoldable pub resolve_as : String → LiveOrder → ℤ → Option String → Action G LiveOrder
  resolve_as id o ts (some venue) = transitioned (transition_order live (some venue) o) (λ r s.
      bind (write (order_note order_submission_found ts r)) (λ _. pure r)
        (record (put id r s) {
          client_order_by_venue = insert venue id s.client_order_by_venue;
          ambiguous_markets = discard o.market_id s.ambiguous_markets;
        }))
  resolve_as id o ts none = transitioned (transition_order rejected none o) (λ r s.
      bind (write (order_note order_submission_confirmed_absent ts r)) (λ _. pure r)
        (record (put id r s) { ambiguous_markets = discard o.market_id s.ambiguous_markets }))

  unfoldable pub resolve_found : String → ℤ → Option String → Option LiveOrder → Action G LiveOrder
  resolve_found id ts venue none s = (err key_error, s)
  resolve_found id ts venue (some o) s =
      if not (is_status o.status unknown)
      then (err only_unknown_resolved, s)
      else resolve_as id o ts venue s

  -- `resolve_submission_unknown`
  unfoldable pub resolve_submission_unknown : String → ℤ → Option String → Bool → Action G LiveOrder
  resolve_submission_unknown id ts venue confirmed_absent s =
      if ltb_ℤ ts (pos 0)
      then (err negative_ts, s)
      else if same (is_given (given venue)) confirmed_absent
      then (err one_of_two_required, s)
      else resolve_found id ts (given venue) (lookup id s.orders) s
    where
      is_given : Option String → Bool
      is_given (some _) = true
      is_given none = false

      same : Bool → Bool → Bool
      same true b = b
      same false b = not b
