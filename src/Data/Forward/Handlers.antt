-- ===== src/Data/Forward/Handlers.antt =====
-- btc_short_horizon/data/forward.py: the handlers of depth messages.
use polymarket_btc.Prelude.{
  if◌then◌else◌, ℤ, Result, nat_eq, string_eq, pair_eq, insert, pos, ok, err, String, not, Option,
  none, some, List, [], ◌∷◌,
}
use polymarket_btc.Data.Quality.{TimedMarketEvent}
use polymarket_btc.Data.Books.{
  DepthUpdateStatus, applied, DepthReason, DepthError, bad_source, DepthApplyResult,
}
use polymarket_btc.Data.Binance
use polymarket_btc.Data.Binance.Normalization.{
  normalize_binance_depth_update, normalize_binance_depth_snapshot,
}
use polymarket_btc.Data.Binance.Synchronizer
use polymarket_btc.Data.Binance.Synchronizer.{is_gap_status}
use polymarket_btc.Data.Okx
use polymarket_btc.Data.Okx.{normalize_okx_book_update, snapshot, update, other_action}
use polymarket_btc.Data.Forward.{
  StreamKey, depth, depth_status, raises, not_an_object, CollectorIngressResult, nothing, merged,
  rejected, RawPayload, binance_payload, okx_payload, Collector, mark_gap, is_binance,
  depth_synchronizer, okx_book_synchronizer, ingest,
}

-- `_with_depth_status`
unfoldable pub with_depth_status :
    CollectorIngressResult → DepthUpdateStatus → Option DepthReason → CollectorIngressResult
with_depth_status outcome applied reason = outcome
with_depth_status outcome status (some reason) =
    merged outcome (record nothing { reasons = depth reason ∷ [] })
with_depth_status outcome status none =
    merged outcome (record nothing { reasons = depth_status status ∷ [] })

-- What follows the call of a synchronizer that did not raise.
unfoldable pub after_result :
    TimedMarketEvent
    → String
    → RawPayload
    → StreamKey
    → DepthApplyResult
    → Collector
    → CollectorIngressResult × Collector
after_result timing event_type payload key r c =
    let marked = if is_gap_status r.status then mark_gap key c else c in
    let done = ingest timing event_type payload key.1 marked in
    (with_depth_status done.0 r.status r.reason, done.1)

unfoldable pub after_call :
    TimedMarketEvent
    → String
    → RawPayload
    → StreamKey
    → Result DepthError DepthApplyResult
    → Collector
    → CollectorIngressResult × Collector
after_call timing event_type payload key (err e) c = (rejected (raises e), c)
after_call timing event_type payload key (ok r) c = after_result timing event_type payload key r c

-- The synchronizer of the key is called, and keeps what it changed.
unfoldable pub put_depth :
    String × String
    → Result DepthError DepthApplyResult × Synchronizer.Synchronizer
    → Collector
    → Collector
put_depth key (r, s) c = record c { binance_depth = insert key s c.binance_depth }

unfoldable pub depth_called :
    TimedMarketEvent
    → String
    → Binance.Payload
    → String × String
    → Result DepthError DepthApplyResult × Synchronizer.Synchronizer
    → Collector
    → CollectorIngressResult × Collector
depth_called timing event_type p key x c =
    after_call timing event_type (binance_payload p) (key, "depth") x.0 (put_depth key x c)

-- `_handle_binance_depth_update`
unfoldable pub depth_update_with :
    Binance.Payload
    → ℤ
    → String
    → Result DepthError TimedMarketEvent
    → Collector
    → CollectorIngressResult × Collector
depth_update_with p receive_ts source (err e) c = (rejected (raises e), c)
depth_update_with p receive_ts source (ok timing) c =
    if not (is_binance source)
    then (rejected (raises bad_source), c)
    else depth_called timing "depth_update" p (source, timing.instrument)
        (Synchronizer.observe_delta (record { payload = p; collector_receive_ts = some receive_ts })
          (depth_synchronizer (source, timing.instrument) c))
        c

unfoldable pub handle_binance_depth_update :
    Binance.Payload → ℤ → String → Collector → CollectorIngressResult × Collector
handle_binance_depth_update p receive_ts source c =
    depth_update_with p receive_ts source
      (normalize_binance_depth_update p (some receive_ts) source (pos 0)) c

-- `handle_binance_depth_snapshot`
unfoldable pub depth_snapshot_with :
    String
    → Binance.Payload
    → ℤ
    → String
    → Result DepthError TimedMarketEvent
    → Collector
    → CollectorIngressResult × Collector
depth_snapshot_with instrument p receive_ts source (err e) c = (rejected (raises e), c)
depth_snapshot_with instrument p receive_ts source (ok timing) c =
    if not (is_binance source)
    then (rejected (raises bad_source), c)
    else depth_called timing "depth_snapshot" p (source, instrument)
        (Synchronizer.apply_snapshot p receive_ts (depth_synchronizer (source, instrument) c)) c

unfoldable pub handle_binance_depth_snapshot :
    String → Binance.Payload → ℤ → String → Collector → CollectorIngressResult × Collector
handle_binance_depth_snapshot instrument p receive_ts source c =
    depth_snapshot_with instrument p receive_ts source
      (normalize_binance_depth_snapshot p instrument receive_ts source) c

abbrev pub books_event : Okx.Action → String
books_event snapshot = "books_snapshot"
books_event update = "books_update"
books_event other_action = "books_"

unfoldable pub put_okx :
    String × String → Result DepthError DepthApplyResult × Okx.Synchronizer → Collector → Collector
put_okx key (r, s) c = record c { okx_books = insert key s c.okx_books }

unfoldable pub okx_called :
    TimedMarketEvent
    → Okx.Action
    → Okx.Payload
    → String × String
    → Result DepthError DepthApplyResult × Okx.Synchronizer
    → Collector
    → CollectorIngressResult × Collector
okx_called timing action p key x c =
    after_call timing (books_event action) (okx_payload p) (key, "book") x.0 (put_okx key x c)

unfoldable pub okx_item_with :
    Okx.Action
    → Okx.Payload
    → String × String
    → Option ℤ
    → Result DepthError TimedMarketEvent
    → Collector
    → CollectorIngressResult × Collector
okx_item_with action p key receive_ts (err e) c = (rejected (raises e), c)
okx_item_with action p key receive_ts (ok timing) c =
    okx_called timing action p key (Okx.apply action p receive_ts (okx_book_synchronizer key c)) c

-- One turn of the loop over the data of a message. An item is an object, or not.
unfoldable pub okx_item :
    Okx.Action
    → String × String
    → Option ℤ
    → Option Okx.Payload
    → Collector
    → CollectorIngressResult × Collector
okx_item action key receive_ts none c = (rejected not_an_object, c)
okx_item action key receive_ts (some p) c =
    okx_item_with action p key receive_ts
      (normalize_okx_book_update p action key.1 receive_ts key.0) c

unfoldable pub okx_items :
    Okx.Action
    → String × String
    → Option ℤ
    → List (Option Okx.Payload)
    → CollectorIngressResult
    → Collector
    → CollectorIngressResult × Collector
okx_items action key receive_ts [] outcome c = (outcome, c)
okx_items action key receive_ts (i ∷ items) outcome c =
    let done = okx_item action key receive_ts i c in
    okx_items action key receive_ts items (merged outcome done.0) done.1

-- `_handle_okx_books`. The synchronizer of the key is there, or made, before the loop.
unfoldable pub handle_okx_books :
    List (Option Okx.Payload)
    → Okx.Action
    → String × String
    → ℤ
    → Collector
    → CollectorIngressResult × Collector
handle_okx_books items action key receive_ts c =
    okx_items action key (some receive_ts) items nothing
      (record c { okx_books = insert key (okx_book_synchronizer key c) c.okx_books })

-- `invalidate_binance_depth`
unfoldable pub invalidate_binance_depth : String × String → Collector → Collector
invalidate_binance_depth key c = record c {
  binance_depth = insert key (Synchronizer.invalidate (depth_synchronizer key c)) c.binance_depth;
}
