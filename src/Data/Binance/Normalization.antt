-- ===== src/Data/Binance/Normalization.antt =====
-- btc_short_horizon/data/binance.py: the normalization of depth messages before they reach the book.
use polymarket_btc.Prelude.Digits.{show, text_append}
use polymarket_btc.Prelude.{
  ℤ, ◌>>=◌, ◌>>◌, raise_if, bind-ok, Result, nat_eq, string_eq, pair_eq, str_is_empty, ok, String,
  ◌≡◌, ap, ◌∙◌, Option, none, some, [],
}
use polymarket_btc.Data.Contracts.{show_int}
use polymarket_btc.Data.Quality.{TimedMarketEvent}
use polymarket_btc.Data.Events.{make_event, required_text, make_event-ok, required_text-ok}
use polymarket_btc.Data.Books.{DepthError, instrument_required, rows, datetime_to_ns}
use polymarket_btc.Data.Binance.{
  Payload, nonnegative_int, levels, get_levels, timestamp_from_millis, available_time,
}

-- `normalize_binance_depth_update`
unfoldable pub normalize_binance_depth_update :
    Payload → Option ℤ → String → ℤ → Result DepthError TimedMarketEvent
normalize_binance_depth_update p receive_ts source delay = do
  symbol ← required_text p.symbol
  first ← nonnegative_int p.first_update_id
  final ← nonnegative_int p.final_update_id
  bids ← levels (get_levels p.b (rows []))
  asks ← levels (get_levels p.a (rows []))
  source_ts ← timestamp_from_millis p.event_time none
  make_event (record {
    source_ts = source_ts;
    collector_receive_ts = receive_ts;
    available_ts = available_time source_ts receive_ts delay;
    sequence_or_hash = show final;
    source = source;
    instrument = symbol;
    schema_version = "binance-depth-update-v1";
    ingest_version = "btc-short-horizon-v1";
  })

-- `normalize_binance_depth_snapshot`
unfoldable pub normalize_binance_depth_snapshot :
    Payload → String → ℤ → String → Result DepthError TimedMarketEvent
normalize_binance_depth_snapshot p instrument receive_ts source = do
  raise_if (str_is_empty instrument) instrument_required
  update_id ← nonnegative_int p.last_update_id
  bids ← levels (get_levels p.bids (get_levels p.b (rows [])))
  asks ← levels (get_levels p.asks (get_levels p.a (rows [])))
  make_event (record {
    source_ts = receive_ts;
    collector_receive_ts = some receive_ts;
    available_ts = receive_ts;
    sequence_or_hash =
        text_append "snapshot:"
          (text_append (show update_id) (text_append ":" (show_int (datetime_to_ns receive_ts))));
    source = source;
    instrument = instrument;
    schema_version = "binance-depth-snapshot-receive-v1";
    ingest_version = "btc-short-horizon-v1";
  })

-- The event is of the symbol that the message names.
pub normalize_binance_depth_update-symbol :
    (p : Payload) (receive_ts : Option ℤ) (source : String) (delay : ℤ) (e : TimedMarketEvent)
    → normalize_binance_depth_update p receive_ts source delay ≡ ok e
    → p.symbol ≡ some e.instrument
unfolding normalize_binance_depth_update
normalize_binance_depth_update-symbol p receive_ts source delay e h =
    let (symbol, hs, h1) = bind-ok (required_text p.symbol) _ h in
    let (first, hf, h2) = bind-ok (nonnegative_int p.first_update_id) _ h1 in
    let (final, hl, h3) = bind-ok (nonnegative_int p.final_update_id) _ h2 in
    let (bids, hb, h4) = bind-ok (levels (get_levels p.b (rows []))) _ h3 in
    let (asks, ha, h5) = bind-ok (levels (get_levels p.a (rows []))) _ h4 in
    let (source_ts, ht, h6) = bind-ok (timestamp_from_millis p.event_time none) _ h5 in
    required_text-ok p.symbol symbol hs
    ∙ ap (λ (x : TimedMarketEvent). some x.instrument) (make_event-ok _ e h6)
