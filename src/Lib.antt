-- ===== src/Lib.antt =====
-- polymarket_btc: the trading logic of the short-horizon bitcoin markets
--
-- This library models the parts of btc_short_horizon/ that decide about money and data: the
-- placement cycle of a market, the planning of its orders and the strategy that trades it in a
-- replay, the states of live orders and trades, the limits that an order has to pass, the order
-- service, the order books of the exchanges and the collector that stores their events with the validator
-- in front of it, and the splits and gates of research.
--
-- The program and its model
--   * Strategy/Types: the value types of btc_short_horizon/strategy/types.py. A frozen dataclass is
--     a record, and its `__post_init__` a function `make_...` that returns the value or raises.
--   * Strategy/Lifecycle: `MarketExecution` of btc_short_horizon/strategy/lifecycle.py. Every method
--     is a function into `Result`; `replace` runs `__post_init__` again, so every method ends in
--     `make_execution`. Enabled says which calls succeed, Runs and Accounts what a sequence of
--     calls keeps.
--   * Strategy/Maker: the configuration and `evaluate_cancellation` of
--     btc_short_horizon/strategy/maker.py, which judge the plans of Strategy/Types. Planning holds
--     `plan_opening_mispricing_orders` with its layers; Layers, Totality and Choice say what it returns,
--     Ranking in which order plans come.
--   * Backtest/Signals: the signal of btc_short_horizon/backtest/signals.py, and the prediction of
--     models/opening_mispricing.py that it is made of.
--   * Backtest/Strategy: `BtcOpeningMispricingStrategy` of btc_short_horizon/backtest/strategy.py, with
--     the audit trail of audit.py. Orders holds what fits, submits, cancels and closes orders, Entry the
--     way from a signal to them, Handlers the handlers and `replay`, any list of events,
--     resets included; Candidates follows the side that is the candidate over the signals. The trading
--     platform (books, instruments, the order factory) is a record of functions, a parameter; the calls
--     that a handler makes of it are kept in order, and what it calls back is an event of its own, after
--     the handler. The strategy plans with Strategy/Maker and moves the execution of Strategy/Lifecycle;
--     the files named Effects follow each handler down to the calls of the lifecycle.
--   * Live/State: `LiveOrder` and `LiveTrade` of btc_short_horizon/live/state.py with both tables
--     of transitions.
--   * Live/Risk: `evaluate_order_risk` of btc_short_horizon/live/risk.py.
--   * Live/Gateway: the request and the protocol of btc_short_horizon/live/gateway.py. The gateway is a
--     record of operations on a state of its own: a parameter of the service. Paper is
--     `PaperOrderGateway`, which fills it.
--   * Live/Service: `LiveExecutionService` of btc_short_horizon/live/service.py. A method is an action
--     on the attributes, which keeps what it changed when it raises. Submit holds `submit`, Cancel the
--     cancellations and the kill switch, Heartbeats the heartbeats, Reconcile the reports of the venue, Restore
--     the reading of the log at a restart;
--     Guards says what reaches the gateway, Commands what any sequence of calls keeps. The service judges
--     with Live/Risk and moves orders with Live/State. The log is a list of records with the parts of the
--     payload that are read again.
--   * Data/Quality: `EventQualityValidator` of btc_short_horizon/data/quality.py, and of
--     data/contracts.py the fields of `TimedMarketEvent`. Streams feeds it a list of events and of
--     declared gaps, and collects what a caller stores.
--   * Data/Events: `make_event`, the checks that `TimedMarketEvent` of btc_short_horizon/data/contracts.py makes.
--   * Data/Books: the levels of a book, its top, and in Views what it is to be the venue's book, or to lead to it.
--   * Data/Binance: the depth book of btc_short_horizon/data/binance.py, its levels and the chain of its
--     updates. Synchronizer holds `BinanceDepthSynchronizer`, which buffers updates until a snapshot comes,
--     Normalization the events it makes. Truth is the venue's side of the stream, an order book that
--     changes with the updates, and snapshots of a range of its prices, since the venue sends a limited
--     number of levels; Faithful and Completeness compare the synchronizer with it.
--   * Data/Okx: the book of btc_short_horizon/data/okx.py with its sequence numbers; Truth is the
--     venue's side again, Clocks what the local clock does to an update.
--   * Data/Forward: of btc_short_horizon/data/forward.py the collector with its buffers, Handlers
--     the routes of the Binance and OKX books into it. A flush, in Flush, is three steps, since handlers run between them:
--     it takes the events that wait, then their quality counts, and then the writer stores them, or raises
--     after some partitions, which stay stored, and all of the events come back. Runs plays any sequence of these steps and of messages. The times, the
--     writer's outcome and the payloads come with the steps.
--   * Data/Contracts: the families of markets and their slugs, and in Windows the windows of
--     btc_short_horizon/data/contracts.py with their checks. A slug is read as its pattern does; texts are
--     normalized (`strip` and `casefold` are not modelled).
--   * Data/Catalog: `MarketCatalog` of btc_short_horizon/data/market_catalog.py, which resolves slugs with
--     the families and windows of Data/Contracts.
--   * Research/Gates: the direction gate, the opening gate and the maker gate of btc_short_horizon/research/gates.py.
--   * Research/WalkForward: samples, configuration, folds and groups of
--     btc_short_horizon/research/walk_forward.py; Plan holds `build_walk_forward_plan`. An index is kept
--     with its sample. The loop over the folds runs on fuel, the microseconds between the first test and
--     the holdout and one more: each turn advances by a step of at least one.
--   * Prelude: Boolean tests, integers, lists, results, dictionaries, sets, decimal digits and the numbers below.
--
-- Numbers
--   A `float` is a `Float`: a whole number of units of 1e-12, an infinity or a NaN. The program
--   compares sizes up to 1e-12, which is one unit here, and its prices, sizes and money are
--   decimal fractions that the units hold exactly. A comparison with a NaN is false, as in Python.
--   Addition and subtraction are exact, a product is cut to a unit; the rounding of
--   binary floating point is not modelled. It decides a branch of the program in three places: the size
--   of a repeated report (live/service.py, `_record_cumulative_match`), the edge of a layer at its limit
--   (`_build_layers` of strategy/maker.py against the check of `OrderPlan`), and a probability within the
--   rounding of 1 (the other side of `plan_opening_mispricing_orders`). An `int` is a natural number or a ℤ, without a bound, as in Python.
--   A `datetime` is in UTC, in microseconds from the epoch. An integer or a number of a venue's payload is
--   what `int` or `float` makes of it, `none` where they raise; a text of a payload is already stripped.
--
-- Errors and mutation
--   A `raise` is an `err` of a type with one constructor for each message. A call on a frozen value
--   that raises leaves the caller with the value that it had. An object with state is a record that each
--   method takes and returns. Where a sequence of calls is modelled, it is any list of calls.
--   A handler of the replay that raises ends the replay.
--
-- Not modelled
--   The exchange adapters but for their depth books (trades, candles, tickers, the books of Polymarket), the
--   collector's health, connections and configuration, storage, models and features (numbers of third-party libraries), the
--   dashboard, reports, scripts, the set-up of the backtest engine and the strategies for other
--   markets, and the decoders in Rust. Log messages and the details of audit records.
pub mod Prelude
pub mod Strategy
pub mod Backtest
pub mod Live
pub mod Data
pub mod Research
