-- ===== src/Data/Forward/Flush.antt =====
-- btc_short_horizon/data/forward.py: the flush. It runs beside the handlers: it takes the events and
-- then their counts, each under the lock, writes them, and puts all of them back if the writer raises.
-- `_flush_lock` lets one flush run at a time. `PartitionedRawEventWriter.write` of data/collector.py
-- stores one partition after the other: where it raises, those that it has stored stay stored.
use polymarket_btc.Prelude.{
  if◌then◌else◌, ℤ, is_empty, nat_eq, string_eq, pair_eq, Dict, member, lookup, insert, remove, ℕ,
  ◌+◌, String, Option, none, some, List, [], ◌∷◌, ◌++◌,
}
use polymarket_btc.Data.Binance
use polymarket_btc.Data.Okx
use polymarket_btc.Data.Okx.{normalize_okx_book_update, snapshot, update, other_action}
use polymarket_btc.Data.Forward.{
  StreamKey, PartitionKey, CollectorIngressResult, nothing, RawCollectorEvent, Collector,
  partition_key, add_quality_counts, mark_gap,
}
use polymarket_btc.Data.Forward.Handlers.{
  handle_binance_depth_update, handle_binance_depth_snapshot, handle_okx_books,
  invalidate_binance_depth,
}

-- How far a flush is: not running, with the events taken, or with their counts taken too.
pub data Flush : Type 0 where
  idle : Flush
  events_taken : List RawCollectorEvent → Flush
  counts_taken : List RawCollectorEvent → Dict PartitionKey (ℕ × ℕ) → Flush

-- The counts of the partitions of the events, and those that stay.
unfoldable pub take_counts :
    List RawCollectorEvent
    → Dict PartitionKey (ℕ × ℕ)
    → Dict PartitionKey (ℕ × ℕ)
    → Dict PartitionKey (ℕ × ℕ) × Dict PartitionKey (ℕ × ℕ)
take_counts [] taken left = (taken, left)
take_counts (e ∷ es) taken left =
    let key = partition_key e.timing in
    elim (lookup key left) [
      | none ↦ take_counts es taken left
      | some n ↦ take_counts es (insert key n taken) (remove key left)
    ]

unfoldable pub add_all_counts :
    Dict PartitionKey (ℕ × ℕ) → Dict PartitionKey (ℕ × ℕ) → Dict PartitionKey (ℕ × ℕ)
add_all_counts [] d = d
add_all_counts ((key, n) ∷ counts) d = add_all_counts counts (add_quality_counts key n.0 n.1 d)

-- The collector, its flush, what writes that returned have stored, in order, and what writes that raised
-- have stored.
pub record World : Type 0 where
  pub collector : Collector
  pub flush : Flush
  pub stored : List RawCollectorEvent
  pub left_behind : List RawCollectorEvent

-- How `write` ends: it has stored every partition, or raises after it has stored the given ones.
pub data WriterOutcome : Type 0 where
  returned : WriterOutcome
  raises_after : List PartitionKey → WriterOutcome

-- The events of the given partitions.
unfoldable pub events_of : List PartitionKey → List RawCollectorEvent → List RawCollectorEvent
events_of keys [] = []
events_of keys (e ∷ es) =
    let rest = events_of keys es in if member (partition_key e.timing) keys then e ∷ rest else rest

-- `events = tuple(self._pending)` and `self._pending.clear()`
unfoldable pub flush_begin : World → Flush → World
flush_begin w idle = if is_empty w.collector.pending then w else record w {
  collector = record w.collector { pending = [] };
  flush = events_taken w.collector.pending;
}
flush_begin w _ = w

-- The second block under the lock.
unfoldable pub flush_counts : World → Flush → World
flush_counts w (events_taken events) =
    let split = take_counts events [] w.collector.pending_quality_counts in
    record w {
      collector = record w.collector { pending_quality_counts = split.1 };
      flush = counts_taken events split.0;
    }
flush_counts w _ = w

-- The writer returns, or raises.
unfoldable pub flush_end : WriterOutcome → World → Flush → World
flush_end returned w (counts_taken events counts) = record w {
  flush = idle;
  stored = w.stored ++ events;
}
flush_end (raises_after keys) w (counts_taken events counts) = record w {
  collector = record w.collector {
    pending = events ++ w.collector.pending;
    pending_quality_counts = add_all_counts counts w.collector.pending_quality_counts;
  };
  flush = idle;
  left_behind = w.left_behind ++ events_of keys events;
}
flush_end _ w _ = w

-- What happens to a collector, one thing at a time.
pub data Step : Type 0 where
  depth_update : Binance.Payload → ℤ → String → Step
  depth_snapshot : String → Binance.Payload → ℤ → String → Step
  okx_books : List (Option Okx.Payload) → Okx.Action → String × String → ℤ → Step
  depth_invalidated : String × String → Step
  gap_marked : StreamKey → Step
  flush_begins flush_counted : Step
  flush_ends : WriterOutcome → Step

abbrev with_collector : World → CollectorIngressResult × Collector → CollectorIngressResult × World
with_collector w (r, c) = (r, record w { collector = c })

unfoldable pub step : Step → World → CollectorIngressResult × World
step (depth_update p t source) w =
    with_collector w (handle_binance_depth_update p t source w.collector)
step (depth_snapshot instrument p t source) w =
    with_collector w (handle_binance_depth_snapshot instrument p t source w.collector)
step (okx_books items action key t) w =
    with_collector w (handle_okx_books items action key t w.collector)
step (depth_invalidated key) w =
    (nothing, record w { collector = invalidate_binance_depth key w.collector })
step (gap_marked key) w = (nothing, record w { collector = mark_gap key w.collector })
step flush_begins w = (nothing, flush_begin w w.flush)
step flush_counted w = (nothing, flush_counts w w.flush)
step (flush_ends done) w = (nothing, flush_end done w w.flush)

-- A run, with the number of events that its results say were accepted.
unfoldable pub run : List Step → World → ℕ × World
run [] w = (0, w)
run (x ∷ xs) w = let (r, w') = step x w in let (n, end) = run xs w' in (r.accepted_events + n, end)
