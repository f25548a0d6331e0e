-- ===== src/Live/State.antt =====
-- btc_short_horizon/live/state.py: the lifecycle of a live order and of a trade.
pub mod Orders
pub mod Matches
pub mod Endings
mod Tests
use polymarket_btc.Prelude.{
  ◌==◌, if◌then◌else◌, any, ◌>>=◌, ◌>>◌, raise_if, Result, str_is_empty, zero_f, tolerance, ◌<f◌,
  ◌≤f◌, ◌+f◌, ◌-f◌, min_f, not_nonnegative, not_positive, not_probability, Float, ok, ℕ, String,
  Bool, not, Option, none, some, List, [], ◌∷◌,
}

-- The `ValueError`s of the module, one for each message.
pub data StateError : Type 0 where
  identifier_required bad_price bad_number size_not_positive matched_above_size : StateError
  invalid_order_transition match_above_size bad_trade_size invalid_trade_transition : StateError

pub data LiveOrderStatus : Type 0 where
  created signed submitted live rejected unknown cancel_requested canceled not_canceled :
      LiveOrderStatus

pub data LiveTradeStatus : Type 0 where
  matched mined confirmed retrying failed : LiveTradeStatus

abbrev pub order_number : LiveOrderStatus → ℕ
order_number created = 0
order_number signed = 1
order_number submitted = 2
order_number live = 3
order_number rejected = 4
order_number unknown = 5
order_number cancel_requested = 6
order_number canceled = 7
order_number not_canceled = 8

abbrev pub is_status : LiveOrderStatus → LiveOrderStatus → Bool
is_status s t = order_number s == order_number t

abbrev pub trade_number : LiveTradeStatus → ℕ
trade_number matched = 0
trade_number mined = 1
trade_number confirmed = 2
trade_number retrying = 3
trade_number failed = 4

abbrev pub is_trade_status : LiveTradeStatus → LiveTradeStatus → Bool
is_trade_status s t = trade_number s == trade_number t

-- `_ORDER_TRANSITIONS`
unfoldable pub order_transitions : LiveOrderStatus → List LiveOrderStatus
order_transitions created = signed ∷ rejected ∷ []
order_transitions signed = submitted ∷ rejected ∷ []
order_transitions submitted = live ∷ rejected ∷ unknown ∷ []
order_transitions live = cancel_requested ∷ canceled ∷ not_canceled ∷ unknown ∷ []
order_transitions cancel_requested = canceled ∷ not_canceled ∷ unknown ∷ []
order_transitions not_canceled = cancel_requested ∷ canceled ∷ unknown ∷ []
order_transitions unknown = live ∷ canceled ∷ rejected ∷ []
order_transitions rejected = []
order_transitions canceled = []

-- `_TRADE_TRANSITIONS`
unfoldable pub trade_transitions : LiveTradeStatus → List LiveTradeStatus
trade_transitions matched = mined ∷ retrying ∷ failed ∷ []
trade_transitions mined = confirmed ∷ retrying ∷ failed ∷ []
trade_transitions retrying = mined ∷ confirmed ∷ failed ∷ []
trade_transitions confirmed = []
trade_transitions failed = []

pub record LiveOrder : Type 0 where
  pub client_order_id : String
  pub market_id : String
  pub token_id : String
  pub price : Float
  pub size : Float
  pub status : LiveOrderStatus
  pub venue_order_id : Option String
  pub matched_size : Float

-- `LiveOrder.__post_init__`, which `replace` runs again.
unfoldable pub make_order : LiveOrder → Result StateError LiveOrder
make_order o = do
  raise_if (str_is_empty o.client_order_id) identifier_required
  raise_if (str_is_empty o.market_id) identifier_required
  raise_if (str_is_empty o.token_id) identifier_required
  raise_if (not_probability o.price) bad_price
  raise_if (not_nonnegative o.size) bad_number
  raise_if (not_nonnegative o.matched_size) bad_number
  raise_if (o.size ≤f zero_f) size_not_positive
  raise_if (o.size <f o.matched_size) matched_above_size
  ok o

-- `a or b` of optional texts: the empty text counts as absent.
abbrev pub text_or : Option String → Option String → Option String
text_or none b = b
text_or (some s) b = if str_is_empty s then b else some s

-- `LiveOrder.transition`
unfoldable pub transition_order :
    LiveOrderStatus → Option String → LiveOrder → Result StateError LiveOrder
transition_order status venue o = if is_status status o.status then ok o else do
  raise_if (not (any (is_status status) (order_transitions o.status))) invalid_order_transition
  make_order (record o { status = status; venue_order_id = text_or venue o.venue_order_id })

-- `LiveOrder.record_match`
unfoldable pub record_match : Float → LiveOrder → Result StateError LiveOrder
record_match matched_size o = do
  raise_if (not_nonnegative matched_size) bad_number
  raise_if (o.size +f tolerance <f o.matched_size +f matched_size) match_above_size
  make_order (record o { matched_size = min_f o.size (o.matched_size +f matched_size) })

unfoldable pub order_remaining_size : LiveOrder → Float
order_remaining_size o = o.size -f o.matched_size

pub record LiveTrade : Type 0 where
  pub trade_id : String
  pub client_order_id : String
  pub price : Float
  pub size : Float
  pub status : LiveTradeStatus
  pub transaction_hash : Option String

-- `LiveTrade.__post_init__`
unfoldable pub make_trade : LiveTrade → Result StateError LiveTrade
make_trade t = do
  raise_if (str_is_empty t.trade_id) identifier_required
  raise_if (str_is_empty t.client_order_id) identifier_required
  raise_if (not_probability t.price) bad_price
  raise_if (not_positive t.size) bad_trade_size
  ok t

unfoldable pub is_terminal : LiveTrade → Bool
is_terminal t = any (is_trade_status t.status) (confirmed ∷ failed ∷ [])

-- `LiveTrade.transition`
unfoldable pub transition_trade :
    LiveTradeStatus → Option String → LiveTrade → Result StateError LiveTrade
transition_trade status hash t = if is_trade_status status t.status then ok t else do
  raise_if (not (any (is_trade_status status) (trade_transitions t.status)))
      invalid_trade_transition
  make_trade (record t { status = status; transaction_hash = text_or hash t.transaction_hash })
