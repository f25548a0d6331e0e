-- ===== src/Data/Binance/Synchronizer.antt =====
-- btc_short_horizon/data/binance.py: `BinanceDepthSynchronizer`, which keeps updates until a snapshot
-- covers the first of them.
use polymarket_btc.Prelude.{
  ltb, leb, if◌then◌else◌, pos_part, ltb_ℤ, ℤ, length, ◌>>=◌, ◌>>◌, raise_if, Result, nat_eq,
  string_eq, pair_eq, pos, ok, err, ℕ, ◌+◌, String, Bool, true, false, not, ◌&&◌, Option, none,
  List, [], ◌∷◌, ◌++◌,
}
use polymarket_btc.Data.Books.{
  DepthUpdateStatus, gap, awaiting_snapshot, snapshot_required, snapshot_too_old,
  snapshot_buffer_overflow, DepthError, bad_limit, DepthApplyResult, refused,
}
use polymarket_btc.Data.Binance.{
  Payload, nonnegative_int, DiffDepthBook, new_book, empty_book, apply_delta,
}
use polymarket_btc.Data.Binance

-- `_BufferedDepthUpdate`
pub record BufferedDepthUpdate : Type 0 where
  pub payload : Payload
  pub collector_receive_ts : Option ℤ

-- The attributes of `BinanceDepthSynchronizer`. The deque has its oldest update first.
pub record Synchronizer : Type 0 where
  pub instrument : String
  pub source : String
  pub availability_delay : ℤ
  pub max_buffered_events : ℕ
  pub book : DiffDepthBook
  pub buffer : List BufferedDepthUpdate
  pub is_synchronized : Bool

-- `BinanceDepthSynchronizer.__init__`
unfoldable pub new_synchronizer : String → String → ℤ → ℤ → Result DepthError Synchronizer
new_synchronizer instrument source delay limit = do
  raise_if (ltb_ℤ limit (pos 1)) bad_limit
  book ← new_book instrument source delay
  ok (record {
    instrument = instrument;
    source = source;
    availability_delay = delay;
    max_buffered_events = pos_part limit;
    book = book;
    buffer = [];
    is_synchronized = false;
  })

-- `_new_book`: the arguments are those that `__init__` has checked.
unfoldable pub fresh_book : Synchronizer → DiffDepthBook
fresh_book s = empty_book s.instrument s.source s.availability_delay

unfoldable pub needs_snapshot : Synchronizer → Bool
needs_snapshot s = not s.is_synchronized

unfoldable pub buffered_event_count : Synchronizer → ℕ
buffered_event_count s = length s.buffer

abbrev pub unsynchronized : List BufferedDepthUpdate → Synchronizer → Synchronizer
unsynchronized items s = record s { book = fresh_book s; buffer = items; is_synchronized = false }

-- `invalidate`
unfoldable pub invalidate : Synchronizer → Synchronizer
invalidate s = unsynchronized [] s

-- `_buffer_update`
unfoldable pub buffer_update : BufferedDepthUpdate → Synchronizer → DepthApplyResult × Synchronizer
buffer_update item s =
    if leb (length (s.buffer ++ item ∷ [])) s.max_buffered_events
    then (
      refused awaiting_snapshot none snapshot_required,
      record s { buffer = s.buffer ++ item ∷ [] },
    )
    else (refused gap none snapshot_buffer_overflow, record s { buffer = [] })

abbrev pub is_gap_status : DepthUpdateStatus → Bool
is_gap_status gap = true
is_gap_status _ = false

-- What `observe_delta` does with the result of the book and the book that is left.
unfoldable pub after_delta :
    BufferedDepthUpdate
    → Synchronizer
    → Result DepthError DepthApplyResult × DiffDepthBook
    → Result DepthError DepthApplyResult × Synchronizer
after_delta item s (err e, k) = (err e, record s { book = k })
after_delta item s (ok r, k) =
    if is_gap_status r.status
    then (ok r, unsynchronized (item ∷ []) s)
    else (ok r, record s { book = k })

-- `observe_delta`
unfoldable pub observe_delta :
    BufferedDepthUpdate → Synchronizer → Result DepthError DepthApplyResult × Synchronizer
observe_delta item s =
    if s.is_synchronized
    then after_delta item s (apply_delta item.payload item.collector_receive_ts s.book)
    else let (r, s') = buffer_update item s in (ok r, s')

-- The updates that end after the snapshot.
unfoldable pub retained_after :
    ℕ → List BufferedDepthUpdate → Result DepthError (List BufferedDepthUpdate)
retained_after n [] = ok []
retained_after n (item ∷ items) = do
  final ← nonnegative_int item.payload.final_update_id
  rest ← retained_after n items
  ok (if ltb n final then item ∷ rest else rest)

-- The first update that is kept does not follow on the snapshot.
unfoldable pub is_too_old : ℕ → List BufferedDepthUpdate → Result DepthError Bool
is_too_old n [] = ok false
is_too_old n (item ∷ items) = do
  first ← nonnegative_int item.payload.first_update_id
  final ← nonnegative_int item.payload.final_update_id
  ok (not (leb first (n + 1) && leb (n + 1) final))

-- The end of the loop over the updates that are kept: the candidate with the last result, a gap with
-- the updates from there on, or a raise.
pub data ReplayEnd : Type 0 where
  replayed : DepthApplyResult → DiffDepthBook → ReplayEnd
  gap_at : DepthApplyResult → List BufferedDepthUpdate → ReplayEnd
  raised : DepthError → ReplayEnd

unfoldable pub replay_step :
    (DepthApplyResult → DiffDepthBook → ReplayEnd)
    → List BufferedDepthUpdate
    → Result DepthError DepthApplyResult × DiffDepthBook
    → ReplayEnd
replay_step rest items (err e, k) = raised e
replay_step rest items (ok r, k) = if is_gap_status r.status then gap_at r items else rest r k

unfoldable pub replay : List BufferedDepthUpdate → DepthApplyResult → DiffDepthBook → ReplayEnd
replay [] r k = replayed r k
replay (item ∷ items) r k =
    replay_step (replay items) (item ∷ items) (apply_delta item.payload item.collector_receive_ts k)

unfoldable pub replay_after :
    List BufferedDepthUpdate → Result DepthError DepthApplyResult × DiffDepthBook → ReplayEnd
replay_after items (err e, k) = raised e
replay_after items (ok r, k) = replay items r k

-- How `apply_snapshot` ends. The candidate is its own, so that a raise changes nothing.
unfoldable pub adopt : ReplayEnd → Synchronizer → Result DepthError DepthApplyResult × Synchronizer
adopt (raised e) s = (err e, s)
adopt (gap_at r items) s = (ok r, unsynchronized items s)
adopt (replayed r k) s = (ok r, record s { book = k; buffer = []; is_synchronized = true })

unfoldable pub snapshot_over :
    Payload
    → ℤ
    → Synchronizer
    → Result DepthError (List BufferedDepthUpdate × Bool)
    → Result DepthError DepthApplyResult × Synchronizer
snapshot_over p receive_ts s (err e) = (err e, s)
snapshot_over p receive_ts s (ok (items, true)) =
    (ok (refused awaiting_snapshot none snapshot_too_old), unsynchronized s.buffer s)
snapshot_over p receive_ts s (ok (items, false)) =
    adopt (replay_after items (Binance.apply_snapshot p receive_ts (fresh_book s))) s

-- The updates to apply, and whether the snapshot is too old for them.
unfoldable pub retained_for :
    Payload → List BufferedDepthUpdate → Result DepthError (List BufferedDepthUpdate × Bool)
retained_for p buffer = do
  n ← nonnegative_int p.last_update_id
  items ← retained_after n buffer
  too_old ← is_too_old n items
  ok (items, too_old)

-- `BinanceDepthSynchronizer.apply_snapshot`
unfoldable pub apply_snapshot :
    Payload → ℤ → Synchronizer → Result DepthError DepthApplyResult × Synchronizer
apply_snapshot p receive_ts s = snapshot_over p receive_ts s (retained_for p s.buffer)

-- What the collector calls, in any order.
pub data Call : Type 0 where
  observe : BufferedDepthUpdate → Call
  snapshot : Payload → ℤ → Call
  invalidated : Call

unfoldable pub perform : Call → Synchronizer → Synchronizer
perform (observe item) s = (observe_delta item s).1
perform (snapshot p t) s = (apply_snapshot p t s).1
perform invalidated s = invalidate s

unfoldable pub perform_all : List Call → Synchronizer → Synchronizer
perform_all [] s = s
perform_all (c ∷ cs) s = perform_all cs (perform c s)
