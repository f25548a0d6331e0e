-- ===== src/Data/Okx/Tests.antt =====
-- A snapshot of OKX and the update that follows it.
use polymarket_btc.Prelude.{
  leb, ◌==◌, if◌then◌else◌, ◌+ℤ◌, ◌*ℤ◌, is_ok, ok-inj, nat_eq, string_eq, pair_eq, lookup, insert,
  pos, negsuc, ok, fin, ℕ, ◌≡◌, refl, sym, subst, ◌∙◌, true, false, none, some, List, [], ◌∷◌,
  arith,
}
use polymarket_btc.Data.Books
use polymarket_btc.Data.Books.{RawLevel, row, RawLevels, rows, bad_event}
use polymarket_btc.Data.Books.Views.{VenueBook, overlay}
use polymarket_btc.Data.Okx
use polymarket_btc.Data.Okx.{
  Action, snapshot, update, Payload, Synchronizer, new_synchronizer, require_source, Message,
  message_of, normalize_okx_book_update, Call, applies, resets, perform_all,
}
use polymarket_btc.Data.Okx.Truth.{IsTrueCall, IsCurrent, perform_all-IsCurrent}
use polymarket_btc.Data.Okx.Clocks.{normalize_okx_book_update-is_ok}

abbrev raw : ℕ → ℕ → RawLevel
raw price size = row (some (fin (pos price)) ∷ some (fin (pos size)) ∷ some (fin (pos 0)) ∷ [])

abbrev snapshot_at_5 : Payload
snapshot_at_5 = record {
  sequence = some (pos 5);
  previous_sequence = some (negsuc 0);
  ts = some (pos 1_000);
  bids = rows (raw 100 5 ∷ []);
  asks = rows (raw 200 7 ∷ []);
}

abbrev update_to_9 : Payload
update_to_9 = record {
  sequence = some (pos 9);
  previous_sequence = some (pos 5);
  ts = some (pos 2_000);
  bids = rows (raw 100 0 ∷ raw 99 3 ∷ []);
  asks = rows [];
}

abbrev calls : List Call
calls = applies snapshot snapshot_at_5 none ∷ applies update update_to_9 none ∷ []

abbrev fresh : Synchronizer
fresh = record {
  instrument = "BTC-USDT";
  source = "okx_spot";
  bids = [];
  asks = [];
  last_seq_id = none;
  is_synchronized = false;
}

fresh_new : new_synchronizer "BTC-USDT" "okx_spot" ≡ ok fresh
unfolding new_synchronizer require_source
fresh_new = refl

abbrev venue : ℕ → VenueBook
venue n = record {
  bids = λ p. if leb n 5 then (if p == 100 then 5 else 0) else (if p == 99 then 3 else 0);
  asks = λ p. if p == 200 then 7 else 0;
}

abbrev message_9 : Message
message_9 = record {
  sequence = 9;
  previous_sequence = pos 5;
  new_bids = (100, 0) ∷ (99, 3) ∷ [];
  new_asks = [];
  source_ts = pos 2_000_000;
}

read_9 : message_of update_to_9 ≡ ok message_9
unfolding Okx.message_of Okx.nonnegative Okx.signed_integer Okx.levels Okx.levels_of_rows
    Okx.level_of Books.finite_of Books.timestamp_of
read_9 = refl

update-bids :
    (n r : ℕ)
    → pos 5 ≡ pos n
    → overlay ((100, 0) ∷ (99, 3) ∷ []) (venue n).bids r ≡ (venue 9).bids r
update-bids n r e = let five : 5 ≡ n = ground arith in ground arith

snapshot_read :
    message_of snapshot_at_5
    ≡ ok (record {
      sequence = 5;
      previous_sequence = negsuc 0;
      new_bids = (100, 5) ∷ [];
      new_asks = (200, 7) ∷ [];
      source_ts = pos 1_000_000;
    })
unfolding Okx.message_of Okx.nonnegative Okx.signed_integer Okx.levels Okx.levels_of_rows
    Okx.level_of Books.finite_of Books.timestamp_of
snapshot_read = refl

snapshot-IsTrueCall : IsTrueCall venue (applies snapshot snapshot_at_5 none)
snapshot-IsTrueCall m h r =
    subst
      (λ (x : Message).
        (overlay x.new_bids (λ q. 0) r ≡ (venue x.sequence).bids r)
        × (overlay x.new_asks (λ q. 0) r ≡ (venue x.sequence).asks r))
      (ok-inj (sym snapshot_read ∙ h)) (ground arith, ground arith)

update-IsTrueCall : IsTrueCall venue (applies update update_to_9 none)
update-IsTrueCall m h =
    subst
      (λ (x : Message).
        (n : ℕ)
        → x.previous_sequence ≡ pos n
        → (r : ℕ)
        → (overlay x.new_bids (venue n).bids r ≡ (venue x.sequence).bids r)
          × (overlay x.new_asks (venue n).asks r ≡ (venue x.sequence).asks r))
      (ok-inj (sym read_9 ∙ h)) (λ n e r. (update-bids n r e, refl))

runs : (perform_all calls fresh).is_synchronized ≡ true
unfolding Books.finite_of Books.timestamp_of Books.datetime_to_ns Books.book_top Books.make_book_top
    Books.max_price Books.min_price Books.size_at Books.update_all Books.apply_levels Books.change
    Books.pop Okx.signed_integer Okx.nonnegative Okx.level_of Okx.levels_of_rows Okx.levels
    Okx.available_time Okx.message_of Okx.applied_result Okx.apply_snapshot Okx.verdict_of
    Okx.act_on Okx.update_after Okx.apply_message Okx.apply Okx.perform Okx.perform_all Okx.reset
    lookup insert ◌+ℤ◌ ◌*ℤ◌
runs = refl

perform_all-IsCurrent_example : IsCurrent venue (perform_all calls fresh)
perform_all-IsCurrent_example =
    perform_all-IsCurrent venue "BTC-USDT" "okx_spot" fresh calls fresh_new
      (snapshot-IsTrueCall, (update-IsTrueCall, tt)) runs

allowed : require_source "okx_spot" ≡ ok tt
unfolding require_source
allowed = refl

-- A local clock that is one millisecond behind the exchange.
normalize_okx_book_update-is_ok_example :
    is_ok
      (normalize_okx_book_update update_to_9 update "BTC-USDT" (some (pos 1_999_000)) "okx_spot")
    ≡ false
normalize_okx_book_update-is_ok_example =
    normalize_okx_book_update-is_ok update_to_9 update "BTC-USDT" "okx_spot" (some (pos 1_999_000))
      message_9 allowed refl refl read_9
