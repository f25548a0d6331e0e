-- ===== src/Data/Binance/Tests.antt =====
-- A snapshot of Binance and two updates, and what the synchronizer makes of them.
use Prim.Native.Nat.{max}
use polymarket_btc.Prelude.{
  ◌+ℤ◌, ◌*ℤ◌, Result, nat_eq, string_eq, pair_eq, lookup, insert, pos, ok, err, ◌≤◌, ◌≡◌, refl,
  true, false, Option, none, some, List, [], ◌∷◌, arith,
}
use polymarket_btc.Data.Books.{
  DepthError, finite_of, RawLevel, row, RawLevels, rows, Levels, DepthApplyResult, size_at, gap,
  applied, stale, awaiting_snapshot, previous_update_id_mismatch, snapshot_too_old,
  DepthUpdateStatus, DepthReason,
}
use polymarket_btc.Data.Books
use polymarket_btc.Data.Binance
use polymarket_btc.Data.Binance.Synchronizer
use polymarket_btc.Data.Binance.{Payload, nonnegative_int, levels, DiffDepthBook}
use polymarket_btc.Data.Binance.Truth.{Agrees}
use polymarket_btc.Data.Binance.Faithful.{perform_all-Agrees}
use polymarket_btc.Data.Binance.Buffering.{perform_all-buffered_event_count}
use polymarket_btc.Data.Binance.Chains.{Spans}
use polymarket_btc.Data.Binance.Completeness.{Settles, apply_snapshot-Settles}
use polymarket_btc.Data.Binance.Synchronizer.{
  BufferedDepthUpdate, Synchronizer, new_synchronizer, buffered_event_count, observe_delta,
  apply_snapshot, Call, observe, snapshot, invalidated, perform_all,
}
use polymarket_btc.Data.Binance.Scenario.{
  snapshot_at_5, delta_to_7, venue, delta-IsTrueDelta, snapshot-IsTrueSnapshot,
}

abbrev item : Payload → BufferedDepthUpdate
item p = record { payload = p; collector_receive_ts = some (pos 2_000_000) }

abbrev fresh : Synchronizer
fresh = record {
  instrument = "BTCUSDT";
  source = "binance_spot";
  availability_delay = pos 0;
  max_buffered_events = 2;
  book = record {
    instrument = "BTCUSDT";
    source = "binance_spot";
    availability_delay = pos 0;
    bids = [];
    asks = [];
    last_update_id = none;
    is_synchronized = false;
  };
  buffer = [];
  is_synchronized = false;
}

fresh_new : new_synchronizer "BTCUSDT" "binance_spot" (pos 0) (pos 2) ≡ ok fresh
unfolding new_synchronizer Binance.new_book
fresh_new = refl

-- The update comes before the snapshot that it follows on.
abbrev calls : List Call
calls = observe (item delta_to_7) ∷ snapshot snapshot_at_5 (pos 3_000_000) ∷ []

runs : (perform_all calls fresh).is_synchronized ≡ true
unfolding Books.finite_of Books.timestamp_of Books.datetime_to_ns Books.book_top Books.make_book_top
    Books.max_price Books.min_price Books.size_at Books.update_all Books.apply_levels Books.change
    Books.pop Binance.nonnegative_int Binance.level_of Binance.levels_of_rows Binance.levels
    Binance.timestamp_from_millis Binance.available_time Binance.applied_result
    Binance.snapshot_parts Binance.reset_to Binance.snapshot_with Binance.apply_snapshot
    Binance.gap_result Binance.previous_differs Binance.continuity Binance.verdict_between
    Binance.verdict_of Binance.change_asks Binance.change_sides Binance.act_on Binance.delta_after
    Binance.apply_delta Synchronizer.fresh_book Synchronizer.buffer_update Synchronizer.after_delta
    Synchronizer.observe_delta Synchronizer.retained_after Synchronizer.is_too_old
    Synchronizer.replay_step Synchronizer.replay Synchronizer.replay_after Synchronizer.adopt
    Synchronizer.snapshot_over Synchronizer.retained_for Synchronizer.apply_snapshot
    Synchronizer.perform Synchronizer.perform_all lookup insert ◌+ℤ◌ ◌*ℤ◌
runs = refl

perform_all-Agrees_example : Agrees venue (perform_all calls fresh).book
perform_all-Agrees_example =
    perform_all-Agrees venue "BTCUSDT" "binance_spot" (pos 0) (pos 2) fresh calls fresh_new
      (delta-IsTrueDelta, (snapshot-IsTrueSnapshot, tt)) runs

abbrev flood : List Call
flood = observe (item delta_to_7) ∷ observe (item delta_to_7) ∷ observe (item delta_to_7) ∷ []

perform_all-buffered_event_count_example :
    (buffered_event_count (perform_all flood fresh) ≤ 2)
    × ((perform_all flood fresh).is_synchronized ≡ true
        → buffered_event_count (perform_all flood fresh) ≡ 0)
perform_all-buffered_event_count_example =
    perform_all-buffered_event_count "BTCUSDT" "binance_spot" (pos 0) (pos 2) fresh flood fresh_new

-- An update after the snapshot, and one that begins before it.
abbrev waiting : Synchronizer
waiting = record fresh { buffer = item delta_to_7 ∷ [] }

delta-Spans : Spans (item delta_to_7) 6 7
unfolding nonnegative_int
delta-Spans = record { starts = refl; ends = refl; unnamed = refl }

read_id : nonnegative_int snapshot_at_5.last_update_id ≡ ok 5
unfolding nonnegative_int
read_id = refl

apply_snapshot-Settles_example :
    Settles waiting (max 5 7) (apply_snapshot snapshot_at_5 (pos 3_000_000) waiting)
apply_snapshot-Settles_example =
    apply_snapshot-Settles snapshot_at_5 (pos 3_000_000) waiting 5 5 7 read_id (omega arith)
      (7, delta-Spans, omega arith, refl)

-- The update of a futures stream, which names the update before it, over a snapshot in its middle.
abbrev named : Payload
named = record delta_to_7 { first_update_id = some (pos 4); previous_final = some (some (pos 3)) }

abbrev reason_of : Result DepthError DepthApplyResult → Option DepthReason
reason_of (ok r) = r.reason
reason_of (err e) = none

refuses_named :
    reason_of
      (apply_snapshot snapshot_at_5 (pos 3_000_000) (record fresh { buffer = item named ∷ [] })).0
    ≡ some previous_update_id_mismatch
unfolding Books.finite_of Books.timestamp_of Books.datetime_to_ns Books.book_top Books.make_book_top
    Books.max_price Books.min_price Books.size_at Books.update_all Books.apply_levels Books.change
    Books.pop Binance.nonnegative_int Binance.level_of Binance.levels_of_rows Binance.levels
    Binance.timestamp_from_millis Binance.available_time Binance.applied_result
    Binance.snapshot_parts Binance.reset_to Binance.snapshot_with Binance.apply_snapshot
    Binance.gap_result Binance.previous_differs Binance.continuity Binance.verdict_between
    Binance.verdict_of Binance.change_asks Binance.change_sides Binance.act_on Binance.delta_after
    Binance.apply_delta Synchronizer.fresh_book Synchronizer.buffer_update Synchronizer.after_delta
    Synchronizer.observe_delta Synchronizer.retained_after Synchronizer.is_too_old
    Synchronizer.replay_step Synchronizer.replay Synchronizer.replay_after Synchronizer.adopt
    Synchronizer.snapshot_over Synchronizer.retained_for Synchronizer.apply_snapshot
    Synchronizer.perform Synchronizer.perform_all lookup insert ◌+ℤ◌ ◌*ℤ◌
refuses_named = refl
