-- ===== src/Data/Forward.antt =====
-- btc_short_horizon/data/forward.py: the part of `BtcForwardCollector` that keeps events. An event passes
-- the validator of its stream, waits in memory, and is written by a flush. The normalizers of Polymarket
-- tokens are not modelled: the streams are those of the exchanges, whose books are in memory too.
pub mod Handlers
pub mod Flush
pub mod Growth
pub mod Conservation
pub mod Depth
pub mod Runs
mod Tests
use polymarket_btc.Prelude.{
  ◌==◌, if◌then◌else◌, ℤ, nat_eq, string_eq, pair_eq, Dict, get_or, insert, remove, pos, negsuc, ℕ,
  ◌+◌, ◌/◌, String, Bool, false, ◌&&◌, ◌||◌, none, some, List, [], ◌∷◌, ◌++◌, str_eq,
}
use polymarket_btc.Data.Contracts.{show_int}
use polymarket_btc.Data.Quality.{
  TimedMarketEvent, Validator, initial, after_gap, Reason, duplicate, out_of_order,
  DataQualityDecision, observe,
}
use polymarket_btc.Data.Quality
use polymarket_btc.Data.Books.{DepthError, DepthReason, DepthUpdateStatus}
use polymarket_btc.Data.Binance
use polymarket_btc.Data.Binance.Synchronizer
use polymarket_btc.Data.Binance.Synchronizer.{invalidate}
use polymarket_btc.Data.Okx
use polymarket_btc.Data.Okx.{reset}

-- (source, instrument) and stream
abbrev pub StreamKey : Type 0
StreamKey = (String × String) × String

-- (source, instrument), the date and the hour, (schema_version, ingest_version)
abbrev pub PartitionKey : Type 0
PartitionKey = (String × String) × (String × (String × String))

-- What a reason of a result tells.
pub data IngressReason : Type 0 where
  quality : Reason → IngressReason
  depth : DepthReason → IngressReason
  depth_status : DepthUpdateStatus → IngressReason
  raises : DepthError → IngressReason
  not_an_object : IngressReason

pub record CollectorIngressResult : Type 0 where
  pub accepted_events : ℕ
  pub rejected_events : ℕ
  pub stale_events : ℕ
  pub reasons : List IngressReason

abbrev pub nothing : CollectorIngressResult
nothing = record { accepted_events = 0; rejected_events = 0; stale_events = 0; reasons = [] }

-- `merged`
unfoldable pub merged : CollectorIngressResult → CollectorIngressResult → CollectorIngressResult
merged r other = record {
  accepted_events = r.accepted_events + other.accepted_events;
  rejected_events = r.rejected_events + other.rejected_events;
  stale_events = r.stale_events + other.stale_events;
  reasons = r.reasons ++ other.reasons;
}

-- `_rejected`
unfoldable pub rejected : IngressReason → CollectorIngressResult
rejected reason = record nothing { rejected_events = 1; reasons = reason ∷ [] }

pub data RawPayload : Type 0 where
  binance_payload : Binance.Payload → RawPayload
  okx_payload : Okx.Payload → RawPayload

pub record RawCollectorEvent : Type 0 where
  pub timing : TimedMarketEvent
  pub event_type : String
  pub payload : RawPayload
  pub epoch_id : ℕ

-- The attributes that the streams of the exchanges use.
pub record Collector : Type 0 where
  pub ingest_version : String
  pub epoch_id_offset : ℕ
  pub binance_depth : Dict (String × String) Synchronizer.Synchronizer
  pub okx_books : Dict (String × String) Okx.Synchronizer
  pub validators : Dict StreamKey Validator
  pub pending : List RawCollectorEvent
  pub pending_quality_counts : Dict PartitionKey (ℕ × ℕ)
  pub unattributed_gaps : Dict StreamKey ℕ
  pub last_feed_event_at : Dict StreamKey ℤ

-- What `__init__` leaves in them.
unfoldable pub new_collector : String → ℕ → Collector
new_collector ingest_version offset = record {
  ingest_version = ingest_version;
  epoch_id_offset = offset;
  binance_depth = [];
  okx_books = [];
  validators = [];
  pending = [];
  pending_quality_counts = [];
  unattributed_gaps = [];
  last_feed_event_at = [];
}

-- `_validator`: a new one has the default limits.
unfoldable pub validator_of : StreamKey → Collector → Validator
validator_of key c = get_or key (initial (pos 100_000) (pos 1_000_000)) c.validators

-- The hours since 1970, which tell the date and the hour.
unfoldable pub hour_of : ℤ → ℤ
hour_of (pos n) = pos (n / 3_600_000_000)
hour_of (negsuc n) = negsuc (n / 3_600_000_000)

-- `_partition_key`
unfoldable pub partition_key : TimedMarketEvent → PartitionKey
partition_key e = (
  (e.source, e.instrument),
  (show_int (hour_of e.available_ts), (e.schema_version, e.ingest_version)),
)

-- `_add_quality_counts`
unfoldable pub add_quality_counts :
    PartitionKey → ℕ → ℕ → Dict PartitionKey (ℕ × ℕ) → Dict PartitionKey (ℕ × ℕ)
add_quality_counts key duplicates gaps d =
    let previous = get_or key (0, 0) d in insert key (previous.0 + duplicates, previous.1 + gaps) d

-- `_record_unattributed_gap`
unfoldable pub record_unattributed_gap : StreamKey → Collector → Collector
record_unattributed_gap key c = record c {
  unattributed_gaps = insert key (get_or key 0 c.unattributed_gaps + 1) c.unattributed_gaps;
}

-- `mark_gap`, with a reason and a key whose texts are not empty.
unfoldable pub mark_gap : StreamKey → Collector → Collector
mark_gap key c =
    record_unattributed_gap key
      (record c { validators = insert key (after_gap (validator_of key c)) c.validators })

abbrev pub is_binance : String → Bool
is_binance source = str_eq source "binance_spot" || str_eq source "binance_perp"

abbrev pub is_okx : String → Bool
is_okx source = str_eq source "okx_spot" || str_eq source "okx_swap"

-- `BinanceDepthSynchronizer(instrument=instrument, source=source)`
abbrev pub new_depth : String × String → Synchronizer.Synchronizer
new_depth (source, instrument) = record {
  instrument = instrument;
  source = source;
  availability_delay = pos 0;
  max_buffered_events = 10_000;
  book = Binance.empty_book instrument source (pos 0);
  buffer = [];
  is_synchronized = false;
}

-- `OkxBookSynchronizer(instrument=instrument, source=source)`
abbrev pub new_okx : String × String → Okx.Synchronizer
new_okx (source, instrument) = record {
  instrument = instrument;
  source = source;
  bids = [];
  asks = [];
  last_seq_id = none;
  is_synchronized = false;
}

-- `_depth_synchronizer` and `_okx_book_synchronizer`, for a source that they allow.
unfoldable pub depth_synchronizer : String × String → Collector → Synchronizer.Synchronizer
depth_synchronizer key c = get_or key (new_depth key) c.binance_depth

unfoldable pub okx_book_synchronizer : String × String → Collector → Okx.Synchronizer
okx_book_synchronizer key c = get_or key (new_okx key) c.okx_books

-- `_invalidate_state_after_quality_gap`
unfoldable pub invalidate_after_gap : TimedMarketEvent → String → Collector → Collector
invalidate_after_gap e stream c =
    let key : String × String = (e.source, e.instrument) in
    if is_binance e.source && str_eq stream "depth"
    then record c {
      binance_depth = insert key (invalidate (depth_synchronizer key c)) c.binance_depth;
    }
    else if is_okx e.source && str_eq stream "book"
    then record c { okx_books = insert key (reset (okx_book_synchronizer key c)) c.okx_books }
    else c

-- The gaps that wait for an event of their stream go to the partition of the event.
unfoldable pub attribute_gaps : StreamKey → PartitionKey → Collector → Collector
attribute_gaps key partition c =
    let gaps = get_or key 0 c.unattributed_gaps in
    record c {
      unattributed_gaps = remove key c.unattributed_gaps;
      pending_quality_counts =
          if gaps == 0
          then c.pending_quality_counts
          else add_quality_counts partition 0 gaps c.pending_quality_counts;
    }

-- The time at which a feed was last alive.
abbrev pub seen_at : TimedMarketEvent → ℤ
seen_at e = elim e.collector_receive_ts [ none ↦ e.available_ts | some t ↦ t ]

-- What `_ingest` does with an event that the validator accepts, and with one that it rejects.
unfoldable pub keep :
    TimedMarketEvent → String → RawPayload → StreamKey → DataQualityDecision → Collector → Collector
keep e event_type payload key d c =
    let c' = attribute_gaps key (partition_key e) c in
    record c' {
      pending =
          c'.pending
          ++ record {
            timing = e;
            event_type = event_type;
            payload = payload;
            epoch_id = c'.epoch_id_offset + d.epoch_id;
          }
            ∷ [];
      last_feed_event_at = insert key (seen_at e) c'.last_feed_event_at;
    }

unfoldable pub refuse : TimedMarketEvent → StreamKey → Reason → Collector → Collector
refuse e key duplicate c = record c {
  pending_quality_counts = add_quality_counts (partition_key e) 1 0 c.pending_quality_counts;
}
refuse e key out_of_order c = record_unattributed_gap key (invalidate_after_gap e key.1 c)
refuse e key _ c = c

abbrev pub accepted_result : Bool → CollectorIngressResult
accepted_result stale = record nothing {
  accepted_events = 1;
  stale_events = if stale then 1 else 0;
}

unfoldable pub decided :
    TimedMarketEvent
    → String
    → RawPayload
    → StreamKey
    → DataQualityDecision
    → Collector
    → CollectorIngressResult × Collector
decided e event_type payload key d c =
    if d.is_accepted
    then (accepted_result d.is_stale, keep e event_type payload key d c)
    else (rejected (quality d.reason), refuse e key d.reason c)

unfoldable pub judged :
    TimedMarketEvent
    → String
    → RawPayload
    → StreamKey
    → Collector
    → CollectorIngressResult × Collector
judged e event_type payload key c =
    let (d, v) = observe e (validator_of key c) in
    decided e event_type payload key d (record c { validators = insert key v c.validators })

-- `_ingest`, for an event that passed its checks.
unfoldable pub ingest :
    TimedMarketEvent → String → RawPayload → String → Collector → CollectorIngressResult × Collector
ingest timing event_type payload stream c =
    let e = record timing { ingest_version = c.ingest_version } in
    judged e event_type payload ((e.source, e.instrument), stream) c
