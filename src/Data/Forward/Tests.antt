-- ===== src/Data/Forward/Tests.antt =====
-- A collector that takes an update, begins a flush, takes a snapshot, and meets a writer that raises.
use polymarket_btc.Prelude.Digits.{show}
use polymarket_btc.Prelude.{
  ◌+ℤ◌, ◌*ℤ◌, nat_eq, string_eq, pair_eq, lookup, insert, remove, member, add, pos, String, ◌≡◌,
  refl, true, List, [], ◌∷◌,
}
use polymarket_btc.Data.Books
use polymarket_btc.Prelude.Digits.{show_from, digit}
use polymarket_btc.Data.Contracts.{show_int}
use polymarket_btc.Data.Events.{make_event, precedes_receipt}
use polymarket_btc.Data.Quality.{observe, remember}
use polymarket_btc.Data.Books.Views.{Venue}
use polymarket_btc.Data.Binance
use polymarket_btc.Data.Binance.Truth.{Agrees}
use polymarket_btc.Data.Binance.Normalization.{normalize_binance_depth_snapshot}
use polymarket_btc.Data.Binance.Scenario.{snapshot_at_5, delta_to_7, venue, snapshot-IsTrueSnapshot}
use polymarket_btc.Data.Binance.Synchronizer
use polymarket_btc.Data.Forward.{
  PartitionKey, new_collector, depth_synchronizer, ingest, judged, decided, keep, refuse,
  attribute_gaps, validator_of,
}
use polymarket_btc.Data.Forward.Handlers.{
  handle_binance_depth_snapshot, depth_snapshot_with, depth_called, put_depth, after_call,
  after_result, with_depth_status,
}
use polymarket_btc.Data.Forward.Flush.{
  raises_after, World, Step, depth_update, depth_snapshot, flush_begins, flush_counted, flush_ends,
  step, run,
}
use polymarket_btc.Data.Forward.Conservation.{Extends, run-held}
use polymarket_btc.Data.Forward.Runs.{begun, run-Agrees}

-- The partition of the update, in the first hour of 1970.
abbrev first_partition : PartitionKey
first_partition =
    (("binance_spot", "BTCUSDT"), ("0", ("binance-depth-update-v1", "btc-short-horizon-v1")))

abbrev steps : List Step
steps =
    depth_update delta_to_7 (pos 2_000_000) "binance_spot"
    ∷ flush_begins
    ∷ depth_snapshot "BTCUSDT" snapshot_at_5 (pos 3_000_000) "binance_spot"
    ∷ flush_counted
    ∷ flush_ends (raises_after (first_partition ∷ []))
    ∷ []

abbrev start : World
start = begun "btc-short-horizon-v1" 0

run-held_example : Extends start (run steps start)
run-held_example = run-held steps start

abbrev every_venue : String × String → Venue
every_venue key = venue

abbrev btc : String × String
btc = ("binance_spot", "BTCUSDT")

abbrev one_snapshot : List Step
one_snapshot = depth_snapshot "BTCUSDT" snapshot_at_5 (pos 0) "binance_spot" ∷ []

runs : (depth_synchronizer btc (run one_snapshot start).1.collector).is_synchronized ≡ true
unfolding Books.finite_of Books.timestamp_of Books.datetime_to_ns Books.book_top Books.make_book_top
    Books.max_price Books.min_price Books.size_at Books.update_all Books.apply_levels Books.change
    Books.pop Binance.nonnegative_int Binance.level_of Binance.levels_of_rows Binance.levels
    Binance.timestamp_from_millis Binance.available_time Binance.applied_result
    Binance.snapshot_parts Binance.reset_to Binance.snapshot_with Binance.apply_snapshot
    Synchronizer.fresh_book Synchronizer.retained_after Synchronizer.is_too_old
    Synchronizer.replay_step Synchronizer.replay Synchronizer.replay_after Synchronizer.adopt
    Synchronizer.snapshot_over Synchronizer.retained_for Synchronizer.apply_snapshot lookup insert
    remove ◌+ℤ◌ ◌*ℤ◌ run step handle_binance_depth_snapshot depth_snapshot_with depth_called
    put_depth after_call after_result with_depth_status depth_synchronizer new_collector ingest
    judged decided keep attribute_gaps refuse normalize_binance_depth_snapshot make_event
    precedes_receipt validator_of observe remember member add pair_eq show show_from digit show_int
runs = refl

run-Agrees_example : Agrees venue (depth_synchronizer btc (run one_snapshot start).1.collector).book
run-Agrees_example =
    run-Agrees every_venue "btc-short-horizon-v1" 0 one_snapshot btc (snapshot-IsTrueSnapshot, tt)
      runs
