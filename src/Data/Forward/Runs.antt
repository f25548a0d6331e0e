-- ===== src/Data/Forward/Runs.antt =====
-- The Binance books of the collector over a run.
use polymarket_btc.Prelude.{
  if_holds, ℤ, is_empty, all, All, Result, nat_eq, string_eq, pair_eq, lookup, pos, ok, err, ℕ,
  String, ◌≡◌, true, Option, none, some, List, [], ◌∷◌,
}
use polymarket_btc.Data.Quality.{TimedMarketEvent}
use polymarket_btc.Data.Books.{DepthError}
use polymarket_btc.Data.Books.Views.{Venue}
use polymarket_btc.Data.Binance.Truth.{IsTrueDelta, IsTrueSnapshot, Agrees}
use polymarket_btc.Data.Binance.Normalization.{
  normalize_binance_depth_update, normalize_binance_depth_snapshot,
  normalize_binance_depth_update-symbol,
}
use polymarket_btc.Data.Binance.Synchronizer.{invalidate}
use polymarket_btc.Data.Okx
use polymarket_btc.Data.Forward.{
  CollectorIngressResult, nothing, merged, okx_payload, Collector, new_collector,
  depth_synchronizer,
}
use polymarket_btc.Data.Forward.Handlers.{
  handle_binance_depth_update, handle_binance_depth_snapshot, put_okx, okx_called, okx_item_with,
  okx_item, okx_items, handle_okx_books, invalidate_binance_depth,
}
use polymarket_btc.Data.Forward.Flush.{
  WriterOutcome, returned, raises_after, Flush, idle, events_taken, counts_taken, World,
  flush_begin, flush_counts, flush_end, Step, depth_update, depth_snapshot, okx_books,
  depth_invalidated, gap_marked, flush_begins, flush_counted, flush_ends, step, run,
}
use polymarket_btc.Data.Forward.Depth.{
  AllFaithful, insert-AllFaithful, invalidate-IsFaithful, mark_gap-AllFaithful,
  after_call-AllFaithful, depth_update_with-AllFaithful, depth_snapshot_with-AllFaithful,
}

-- A new collector with no flush, and nothing stored.
abbrev pub begun : String → ℕ → World
begun version offset = record {
  collector = new_collector version offset;
  flush = idle;
  stored = [];
  left_behind = [];
}

-- The venue of each source and instrument.
module _ (venue : String × String → Venue) where
  -- The messages of OKX change no book of Binance.
  okx_item_with-AllFaithful :
      (action : Okx.Action) (p : Okx.Payload) (key : String × String) (t : Option ℤ)
      (x : Result DepthError TimedMarketEvent) (c : Collector)
      → AllFaithful venue c
      → AllFaithful venue (okx_item_with action p key t x c).1
  unfolding okx_item_with okx_called put_okx depth_synchronizer
  okx_item_with-AllFaithful action p key t (err e) c all = all
  okx_item_with-AllFaithful action p key t (ok timing) c all =
      after_call-AllFaithful venue timing _ (okx_payload p) (key, "book") _ _ all

  okx_item-AllFaithful :
      (action : Okx.Action) (key : String × String) (t : Option ℤ) (i : Option Okx.Payload)
      (c : Collector)
      → AllFaithful venue c
      → AllFaithful venue (okx_item action key t i c).1
  unfolding okx_item
  okx_item-AllFaithful action key t none c all = all
  okx_item-AllFaithful action key t (some p) c all =
      okx_item_with-AllFaithful action p key t
        (Okx.normalize_okx_book_update p action key.1 t key.0) c all

  okx_items-AllFaithful :
      (action : Okx.Action) (key : String × String) (t : Option ℤ)
      (items : List (Option Okx.Payload)) (outcome : CollectorIngressResult) (c : Collector)
      → AllFaithful venue c
      → AllFaithful venue (okx_items action key t items outcome c).1
  unfolding okx_items
  okx_items-AllFaithful action key t [] outcome c all = all
  okx_items-AllFaithful action key t (i ∷ items) outcome c all =
      okx_items-AllFaithful action key t items (merged outcome (okx_item action key t i c).0)
        (okx_item action key t i c).1 (okx_item-AllFaithful action key t i c all)

  -- What the venue sent. An update is of the symbol that it names.
  abbrev pub IsTrueStep : Step → Type 0
  IsTrueStep (depth_update p t source) =
      (symbol : String) → p.symbol ≡ some symbol → IsTrueDelta (venue (source, symbol)) p
  IsTrueStep (depth_snapshot instrument p t source) = IsTrueSnapshot (venue (source, instrument)) p
  IsTrueStep _ = Unit

  flush_begin-AllFaithful :
      (w : World) (f : Flush)
      → AllFaithful venue w.collector
      → AllFaithful venue (flush_begin w f).collector
  unfolding flush_begin depth_synchronizer
  flush_begin-AllFaithful w idle all =
      if_holds (λ (v : World). AllFaithful venue v.collector) (is_empty w.collector.pending)
        (λ _. all) (λ _. all)
  flush_begin-AllFaithful w (events_taken es) all = all
  flush_begin-AllFaithful w (counts_taken es ns) all = all

  flush_counts-AllFaithful :
      (w : World) (f : Flush)
      → AllFaithful venue w.collector
      → AllFaithful venue (flush_counts w f).collector
  unfolding flush_counts depth_synchronizer
  flush_counts-AllFaithful w idle all = all
  flush_counts-AllFaithful w (events_taken es) all = all
  flush_counts-AllFaithful w (counts_taken es ns) all = all

  flush_end-AllFaithful :
      (done : WriterOutcome) (w : World) (f : Flush)
      → AllFaithful venue w.collector
      → AllFaithful venue (flush_end done w f).collector
  unfolding flush_end depth_synchronizer
  flush_end-AllFaithful returned w idle all = all
  flush_end-AllFaithful (raises_after keys) w idle all = all
  flush_end-AllFaithful returned w (events_taken es) all = all
  flush_end-AllFaithful (raises_after keys) w (events_taken es) all = all
  flush_end-AllFaithful returned w (counts_taken es ns) all = all
  flush_end-AllFaithful (raises_after keys) w (counts_taken es ns) all = all

  step-AllFaithful :
      (x : Step) (w : World)
      → IsTrueStep x
      → AllFaithful venue w.collector
      → AllFaithful venue (step x w).1.collector
  unfolding step handle_binance_depth_update handle_binance_depth_snapshot handle_okx_books
      invalidate_binance_depth depth_synchronizer
  step-AllFaithful (depth_update p t source) w d all =
      depth_update_with-AllFaithful venue p t source
        (normalize_binance_depth_update p (some t) source (pos 0)) w.collector
        (λ timing h.
          d timing.instrument
            (normalize_binance_depth_update-symbol p (some t) source (pos 0) timing h))
        all
  step-AllFaithful (depth_snapshot instrument p t source) w d all =
      depth_snapshot_with-AllFaithful venue instrument p t source
        (normalize_binance_depth_snapshot p instrument t source) w.collector d all
  step-AllFaithful (okx_books items action key t) w d all =
      okx_items-AllFaithful action key (some t) items nothing _ all
  step-AllFaithful (depth_invalidated key) w d all =
      insert-AllFaithful venue key (invalidate (depth_synchronizer key w.collector)) w.collector
        (invalidate-IsFaithful venue key _ (all key)) all
  step-AllFaithful (gap_marked key) w d all = mark_gap-AllFaithful venue key w.collector all
  step-AllFaithful flush_begins w d all = flush_begin-AllFaithful w w.flush all
  step-AllFaithful flush_counted w d all = flush_counts-AllFaithful w w.flush all
  step-AllFaithful (flush_ends done) w d all = flush_end-AllFaithful done w w.flush all

  run-AllFaithful :
      (xs : List Step) (w : World)
      → All IsTrueStep xs
      → AllFaithful venue w.collector
      → AllFaithful venue (run xs w).1.collector
  unfolding run
  run-AllFaithful [] w d all = all
  run-AllFaithful (x ∷ xs) w d all =
      run-AllFaithful xs (step x w).1 d.1 (step-AllFaithful x w d.0 all)

  new_collector-AllFaithful :
      (version : String) (offset : ℕ) → AllFaithful venue (new_collector version offset)
  unfolding new_collector depth_synchronizer lookup
  new_collector-AllFaithful version offset key = record {
    kept_are_true = tt;
    book_agrees = λ e. cc;
  }

  -- From a new collector, after any messages of both exchanges, gaps, invalidations and steps of flushes, in
  -- any order, of which every Binance message is one that the venue sent for its own source and symbol:
  -- every Binance synchronizer that says it is synchronized has the book of its own source and symbol
  -- after some update, on both sides and at every price in the range of all its snapshots.
  pub run-Agrees :
      (version : String) (offset : ℕ) (xs : List Step) (key : String × String)
      → All IsTrueStep xs
      → (depth_synchronizer key (run xs (begun version offset)).1.collector).is_synchronized ≡ true
      → Agrees (venue key) (depth_synchronizer key (run xs (begun version offset)).1.collector).book
  run-Agrees version offset xs key d =
      (run-AllFaithful xs (begun version offset) d (new_collector-AllFaithful version offset)
        key).book_agrees
