-- ===== src/Backtest/Strategy.antt =====
-- btc_short_horizon/backtest/strategy.py and audit.py: the strategy that trades one market in a
-- replay. A handler takes the state to a new one or raises, which ends the replay. The calls that it
-- makes of the trading platform are kept in their order.
pub mod Orders
pub mod Entry
pub mod Handlers
pub mod Effects
pub mod Fitting
pub mod OrderEffects
pub mod PlanEffects
pub mod HandlerEffects
pub mod Refinement
pub mod Persistence
pub mod KeptCandidate
pub mod Candidates
pub mod Canceling
pub mod Scenario
mod Tests
use polymarket_btc.Prelude.{
  if◌then◌else◌, ltb_ℤ, ℤ, ◌>>=◌, ◌>>◌, ◌>>?◌, raise_if, Result, Dict, Float, pos, ok, err, ℕ,
  String, Bool, true, false, Option, none, some, List, [], ◌∷◌, ◌++◌, str_eq,
}
use polymarket_btc.Strategy.Types.{
  StrategyError, bad_timestamps, TokenSide, up, down, MakerOrderLayer, SideBook, make_side_book,
  OutcomeBooks, make_outcome_books,
}
use polymarket_btc.Strategy.Maker.{MakerStrategyConfig}
use polymarket_btc.Strategy.Lifecycle.{MarketExecution, fresh}
use polymarket_btc.Backtest.Signals.{Signal}

-- An instrument of the platform: the step of its prices, and the quantity and the price that it
-- makes of a number, or none for a `ValueError`.
pub record Instrument : Type 0 where
  pub price_increment : Option Float
  pub make_qty : Float → Option Float
  pub make_price : Float → Option Float

-- What the strategy uses of the platform. `limit` is the client order id of the next limit order,
-- from the number of those made before, or none for a `ValueError`.
pub record Platform (Book Deltas : Type 0) : Type 0 where
  pub new_book : Book
  pub apply_deltas : Deltas → Book → Book
  pub best_bid_price : Book → Option Float
  pub best_ask_price : Book → Option Float
  pub instrument : TokenSide → Option Instrument
  pub limit : ℕ → TokenSide → MakerOrderLayer → Option String

-- `BtcOpeningMispricingConfig`, with the configuration that `maker_config` makes of its fields.
pub record BtcOpeningMispricingConfig : Type 0 where
  pub market_slug : String
  pub up_instrument_id : String
  pub down_instrument_id : String
  pub maker : MakerStrategyConfig

pub data AuditType : Type 0 where
  plan_made fill_seen submitted cancel_requested_of cancel_ack expired rejected_by denied :
      AuditType

pub record AuditRecord : Type 0 where
  pub event_type : AuditType
  pub ts_ns : ℤ
  pub client_order_id : Option String

-- `OrderAuditTrail.record`, less the details.
unfoldable pub record_audit :
    AuditRecord → List AuditRecord → Result StrategyError (List AuditRecord)
record_audit r records = do raise_if (ltb_ℤ r.ts_ns (pos 0)) bad_timestamps; ok (records ++ r ∷ [])

pub data VenueCall : Type 0 where
  submit_order : String → MakerOrderLayer → VenueCall
  cancel_order : String → VenueCall
  stop : VenueCall

pub record Adapter (Book : Type 0) : Type 0 where
  pub execution : MarketExecution
  pub instruments : TokenSide → Option Instrument
  pub books : TokenSide → Option Book
  pub latest_signal : Option Signal
  pub active_orders : Dict String MakerOrderLayer
  pub candidate_side : Option TokenSide
  pub candidate_since_ts_ns : Option ℤ
  pub order_audit : List AuditRecord
  -- The limit orders made, and the calls of the platform.
  pub orders_made : ℕ
  pub calls : List VenueCall

-- `__init__`
unfoldable pub new_adapter : {Book : Type 0} → BtcOpeningMispricingConfig → Adapter Book
new_adapter c = record {
  execution = fresh c.market_slug;
  instruments = λ _. none;
  books = λ _. none;
  latest_signal = none;
  active_orders = [];
  candidate_side = none;
  candidate_since_ts_ns = none;
  order_audit = [];
  orders_made = 0;
  calls = [];
}

-- `_event_ts_ns`, of the two times that an event may have.
unfoldable pub event_ts_ns : Option ℤ → Option ℤ → ℤ
event_ts_ns (some (pos n)) ts_event = pos n
event_ts_ns ts_init (some (pos n)) = pos n
event_ts_ns ts_init ts_event = pos 0

-- A call whose `ValueError` is caught.
abbrev pub value_or_none : {A : Type 0} → Result StrategyError A → Option A
value_or_none (ok value) = some value
value_or_none (err raised) = none

unfoldable pub side_for_instrument : BtcOpeningMispricingConfig → String → Option TokenSide
side_for_instrument c id =
    if str_eq id c.up_instrument_id
    then some up
    else if str_eq id c.down_instrument_id
    then some down
    else none

unfoldable pub instrument_id_for : BtcOpeningMispricingConfig → TokenSide → String
instrument_id_for c up = c.up_instrument_id
instrument_id_for c down = c.down_instrument_id

abbrev pub same_side : TokenSide → TokenSide → Bool
same_side up up = true
same_side down down = true
same_side _ _ = false

module _ {Book Deltas : Type 0} (v : Platform Book Deltas) (c : BtcOpeningMispricingConfig) where
  -- `_side_book`
  unfoldable pub side_book : TokenSide → Adapter Book → Option SideBook
  unfolding instrument_id_for
  side_book side s = s.books side >>? λ book. s.instruments side >>? λ instrument.
      v.best_bid_price book >>? λ best_bid. v.best_ask_price book >>? λ best_ask.
      instrument.price_increment >>? λ tick_size. value_or_none (
        make_side_book (record {
          token_id = instrument_id_for c side;
          best_bid = best_bid;
          best_ask = best_ask;
          tick_size = tick_size;
        }))

  -- `_outcome_books`
  unfoldable pub outcome_books : Adapter Book → Option OutcomeBooks
  outcome_books s = side_book up s >>? λ up_book. side_book down s >>? λ down_book.
      value_or_none (make_outcome_books (record { up_book = up_book; down_book = down_book }))
