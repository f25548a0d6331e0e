-- ===== src/Data/Books.antt =====
-- What the order books of btc_short_horizon/data share: the levels of one side and the result of an
-- update (data/binance.py, whose functions on levels data/okx.py repeats), and `BtcBookTop` of
-- features/events.py. A price and a quantity that passed the checks are finite and not negative, and are
-- kept as their numbers of units; a `datetime` is in UTC, in microseconds from the epoch.
pub mod Views
use polymarket_btc.Prelude.{
  ltb, leb, ◌==◌, if◌then◌else◌, ◌*ℤ◌, ltb_ℤ, ℤ, ◌>>=◌, ◌>>◌, raise_if, Result, nat_eq, string_eq,
  pair_eq, str_is_empty, Dict, lookup, insert, units, ◌<f◌, not_positive, Float, pos, negsuc, ok,
  err, fin, inf, neg_inf, nan, ℕ, ◌*◌, String, ◌||◌, Option, none, some, List, [], ◌∷◌,
}

pub data DepthUpdateStatus : Type 0 where
  applied stale gap awaiting_snapshot : DepthUpdateStatus

pub data DepthReason : Type 0 where
  snapshot_required already_covered previous_update_id_mismatch update_id_gap : DepthReason
  snapshot_too_old snapshot_buffer_overflow heartbeat previous_sequence_mismatch : DepthReason

-- The `ValueError`s of the two modules.
pub data DepthError : Type 0 where
  bad_integer bad_number bad_level bad_timestamp bad_book_top : DepthError
  instrument_required negative_delay bad_limit bad_source bad_action bad_text bad_event : DepthError

-- One side of a book: price to quantity.
abbrev pub Levels : Type 0
Levels = Dict ℕ ℕ

-- `levels.pop(price, None)`: a `dict` has a key once at most, so that no entry with the key is left.
unfoldable pub pop : ℕ → Levels → Levels
pop p [] = []
pop p ((q, n) ∷ d) = let rest = pop p d in if q == p then rest else (q, n) ∷ rest

-- One turn of the loop of `_apply_levels`.
unfoldable pub change : ℕ × ℕ → Levels → Levels
change (p, n) d = if n == 0 then pop p d else insert p n d

-- `_apply_levels`
unfoldable pub apply_levels : List (ℕ × ℕ) → Levels → Levels
apply_levels [] d = d
apply_levels (c ∷ cs) d = apply_levels cs (change c d)

-- `dict(pairs)`, from the entries that it has.
unfoldable pub update_all : List (ℕ × ℕ) → Levels → Levels
update_all [] d = d
update_all ((p, n) ∷ cs) d = update_all cs (insert p n d)

-- `_float`: `float(value)`, if that does not raise, and the check that it is finite.
unfoldable pub finite_of : Option Float → Result DepthError ℤ
finite_of (some (fin z)) = ok z
finite_of (some inf) = err bad_number
finite_of (some neg_inf) = err bad_number
finite_of (some nan) = err bad_number
finite_of none = err bad_number

-- A value of a payload where levels are expected. An entry of a row is what `float` makes of it.
pub data RawLevel : Type 0 where
  not_a_row : RawLevel
  row : List (Option Float) → RawLevel

pub data RawLevels : Type 0 where
  not_a_sequence : RawLevels
  rows : List RawLevel → RawLevels

-- `_timestamp_from_millis` on a value that is there: what `int` makes of it, and
-- `datetime.fromtimestamp`, which raises after the year 9999.
unfoldable pub timestamp_of : Option ℤ → Result DepthError ℤ
timestamp_of none = err bad_timestamp
timestamp_of (some (negsuc n)) = err bad_timestamp
timestamp_of (some (pos ms)) = do
  raise_if (ltb 253_402_300_799_999 ms) bad_timestamp
  ok (pos (ms * 1_000))

-- `_datetime_to_ns`
unfoldable pub datetime_to_ns : ℤ → ℤ
datetime_to_ns t = t *ℤ pos 1_000

pub record BtcBookTop : Type 0 where
  pub source_ts_ns : ℤ
  pub available_ts_ns : ℤ
  pub bid : Float
  pub ask : Float
  pub bid_size : Float
  pub ask_size : Float
  pub source : String
  pub instrument : String

-- `BtcBookTop.__post_init__`
unfoldable pub make_book_top : BtcBookTop → Result DepthError BtcBookTop
make_book_top t = do
  raise_if (ltb_ℤ t.source_ts_ns (pos 0) || ltb_ℤ t.available_ts_ns (pos 0)) bad_book_top
  raise_if (not_positive t.bid || not_positive t.ask) bad_book_top
  raise_if (not_positive t.bid_size || not_positive t.ask_size) bad_book_top
  raise_if (t.ask <f t.bid) bad_book_top
  raise_if (str_is_empty t.source || str_is_empty t.instrument) bad_book_top
  ok t

-- `max(levels)` and `min(levels)`, from the first price on.
unfoldable pub max_price : ℕ → Levels → ℕ
max_price best [] = best
max_price best ((p, n) ∷ d) = max_price (if ltb best p then p else best) d

unfoldable pub min_price : ℕ → Levels → ℕ
min_price best [] = best
min_price best ((p, n) ∷ d) = min_price (if ltb p best then p else best) d

-- `levels[price]`, or 0 where the price has no level.
unfoldable pub size_at : Levels → ℕ → ℕ
size_at d p = elim (lookup p d) [ none ↦ 0 | some n ↦ n ]

abbrev pub top_of : Levels → Levels → ℤ → ℤ → String → String → ℕ → ℕ → BtcBookTop
top_of bids asks source_ts available_ts source instrument bid ask = record {
  source_ts_ns = datetime_to_ns source_ts;
  available_ts_ns = datetime_to_ns available_ts;
  bid = units bid;
  ask = units ask;
  bid_size = units (size_at bids bid);
  ask_size = units (size_at asks ask);
  source = source;
  instrument = instrument;
}

-- `_book_top`: there is none without levels on both sides, or where they cross.
unfoldable pub book_top :
    Levels → Levels → ℤ → ℤ → String → String → Result DepthError (Option BtcBookTop)
book_top [] asks source_ts available_ts source instrument = ok none
book_top (b ∷ bids) [] source_ts available_ts source instrument = ok none
book_top (b ∷ bids) (a ∷ asks) source_ts available_ts source instrument =
    let bid = max_price b.0 bids in
    let ask = min_price a.0 asks in
    if leb ask bid then ok none else do
      top ←
          make_book_top
            (top_of (b ∷ bids) (a ∷ asks) source_ts available_ts source instrument bid ask)
      ok (some top)

pub record DepthApplyResult : Type 0 where
  pub status : DepthUpdateStatus
  pub book_top : Option BtcBookTop
  pub last_update_id : Option ℕ
  pub reason : Option DepthReason

-- A result with no top of the book.
abbrev pub refused : DepthUpdateStatus → Option ℕ → DepthReason → DepthApplyResult
refused status last reason = record {
  status = status;
  book_top = none;
  last_update_id = last;
  reason = some reason;
}
