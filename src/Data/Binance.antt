-- ===== src/Data/Binance.antt =====
-- btc_short_horizon/data/binance.py: `BinanceDiffDepthBook`. A payload is what the code reads of it; an
-- integer or a number is what `int` or `float` makes of the value, `none` where that raises. A method
-- keeps what it changed before it raises.
pub mod Synchronizer
pub mod Normalization
pub mod Truth
pub mod Faithful
pub mod Buffering
pub mod Chains
pub mod Completeness
pub mod Scenario
mod Tests
use polymarket_btc.Prelude.{
  leb, ◌==◌, if◌then◌else◌, pos_part, ◌+ℤ◌, ltb_ℤ, leb_ℤ, ℤ, ◌>>=◌, ◌>>◌, raise_if, Result,
  str_is_empty, pos, negsuc, ok, err, ℕ, ◌+◌, String, Bool, true, false, not, ◌&&◌, ◌||◌, Option,
  none, some, List, [], ◌∷◌,
}
use polymarket_btc.Data.Books.{
  applied, stale, gap, awaiting_snapshot, DepthReason, snapshot_required, already_covered,
  previous_update_id_mismatch, update_id_gap, DepthError, bad_integer, bad_level, bad_timestamp,
  instrument_required, negative_delay, Levels, apply_levels, update_all, finite_of, RawLevel, row,
  RawLevels, not_a_sequence, rows, timestamp_of, book_top, DepthApplyResult, refused,
}

pub record Payload : Type 0 where
  -- "s" without the spaces around it, if it is a text
  pub symbol : Option String
  -- "U", "u" and "lastUpdateId"
  pub first_update_id : Option ℤ
  pub final_update_id : Option ℤ
  pub last_update_id : Option ℤ
  -- "pu", if it is there and not null
  pub previous_final : Option (Option ℤ)
  -- "bids", "asks", "b" and "a", if they are there
  pub bids : Option RawLevels
  pub asks : Option RawLevels
  pub b : Option RawLevels
  pub a : Option RawLevels
  -- "T" and "E", if they are there and not null
  pub transaction_time : Option (Option ℤ)
  pub event_time : Option (Option ℤ)

-- `_nonnegative_int`
unfoldable pub nonnegative_int : Option ℤ → Result DepthError ℕ
nonnegative_int (some (pos n)) = ok n
nonnegative_int (some (negsuc n)) = err bad_integer
nonnegative_int none = err bad_integer

-- One turn of the loop of `_levels`.
unfoldable pub level_of : RawLevel → Result DepthError (ℕ × ℕ)
level_of (row (p ∷ q ∷ [])) = do
  price ← finite_of p
  quantity ← finite_of q
  raise_if (leb_ℤ price (pos 0) || ltb_ℤ quantity (pos 0)) bad_level
  ok (pos_part price, pos_part quantity)
level_of _ = err bad_level

unfoldable pub levels_of_rows : List RawLevel → Result DepthError (List (ℕ × ℕ))
levels_of_rows [] = ok []
levels_of_rows (r ∷ rs) = do l ← level_of r; ls ← levels_of_rows rs; ok (l ∷ ls)

-- `_levels`
unfoldable pub levels : RawLevels → Result DepthError (List (ℕ × ℕ))
levels not_a_sequence = err bad_level
levels (rows rs) = levels_of_rows rs

-- `payload.get(key, default)`
abbrev pub get_levels : Option RawLevels → RawLevels → RawLevels
get_levels none default = default
get_levels (some value) default = value

-- `_first_present(payload, "T", "E")`
abbrev pub first_present : Payload → Option (Option ℤ)
first_present p = elim p.transaction_time [ some t ↦ some t | none ↦ p.event_time ]

-- `_timestamp_from_millis`
unfoldable pub timestamp_from_millis : Option (Option ℤ) → Option ℤ → Result DepthError ℤ
timestamp_from_millis (some value) default = timestamp_of value
timestamp_from_millis none (some t) = ok t
timestamp_from_millis none none = err bad_timestamp

-- `_available_time`
unfoldable pub available_time : ℤ → Option ℤ → ℤ → ℤ
available_time source_ts none delay = source_ts +ℤ delay
available_time source_ts (some receive_ts) delay =
    if ltb_ℤ (source_ts +ℤ delay) receive_ts then receive_ts else source_ts +ℤ delay

-- The attributes of `BinanceDiffDepthBook`.
pub record DiffDepthBook : Type 0 where
  pub instrument : String
  pub source : String
  pub availability_delay : ℤ
  pub bids : Levels
  pub asks : Levels
  pub last_update_id : Option ℕ
  pub is_synchronized : Bool

abbrev pub empty_book : String → String → ℤ → DiffDepthBook
empty_book instrument source delay = record {
  instrument = instrument;
  source = source;
  availability_delay = delay;
  bids = [];
  asks = [];
  last_update_id = none;
  is_synchronized = false;
}

-- `BinanceDiffDepthBook.__init__`
unfoldable pub new_book : String → String → ℤ → Result DepthError DiffDepthBook
new_book instrument source delay = do
  raise_if (str_is_empty instrument) instrument_required
  raise_if (ltb_ℤ delay (pos 0)) negative_delay
  ok (empty_book instrument source delay)

-- The `DepthApplyResult` of an update that was applied.
unfoldable pub applied_result :
    DiffDepthBook → Result DepthError ℤ → Option ℤ → Result DepthError DepthApplyResult
applied_result k source receive_ts = do
  source_ts ← source
  top ←
      book_top k.bids k.asks source_ts (available_time source_ts receive_ts k.availability_delay)
        k.source k.instrument
  ok (record { status = applied; book_top = top; last_update_id = k.last_update_id; reason = none })

-- What `apply_snapshot` reads before it changes the book.
unfoldable pub snapshot_parts : Payload → Result DepthError (ℕ × List (ℕ × ℕ) × List (ℕ × ℕ))
snapshot_parts p = do
  n ← nonnegative_int p.last_update_id
  bids ← levels (get_levels p.bids (get_levels p.b (rows [])))
  asks ← levels (get_levels p.asks (get_levels p.a (rows [])))
  ok (n, bids, asks)

unfoldable pub reset_to : DiffDepthBook → ℕ × List (ℕ × ℕ) × List (ℕ × ℕ) → DiffDepthBook
reset_to k (n, bids, asks) = record k {
  bids = update_all bids [];
  asks = update_all asks [];
  last_update_id = some n;
  is_synchronized = true;
}

unfoldable pub snapshot_with :
    Payload
    → ℤ
    → DiffDepthBook
    → Result DepthError (ℕ × List (ℕ × ℕ) × List (ℕ × ℕ))
    → Result DepthError DepthApplyResult × DiffDepthBook
snapshot_with p receive_ts k (err e) = (err e, k)
snapshot_with p receive_ts k (ok parts) =
    let k' = reset_to k parts in
    (
      applied_result k' (timestamp_from_millis (first_present p) (some receive_ts))
          (some receive_ts),
      k',
    )

-- `BinanceDiffDepthBook.apply_snapshot`
unfoldable pub apply_snapshot :
    Payload → ℤ → DiffDepthBook → Result DepthError DepthApplyResult × DiffDepthBook
apply_snapshot p receive_ts k = snapshot_with p receive_ts k (snapshot_parts p)

-- `_gap_result`
unfoldable pub gap_result :
    DepthReason → DiffDepthBook → Result DepthError DepthApplyResult × DiffDepthBook
gap_result reason k =
    (ok (refused gap k.last_update_id reason), record k { is_synchronized = false })

-- What an update is found to be before it changes the book.
pub data Verdict : Type 0 where
  is_stale is_covered : ℕ → Verdict
  is_gap : DepthReason → Verdict

-- `previous_final is not None and _nonnegative_int(payload, "pu") != last`
unfoldable pub previous_differs : Option (Option ℤ) → ℕ → Result DepthError Bool
previous_differs none last = ok false
previous_differs (some value) last = do n ← nonnegative_int value; ok (not (n == last))

-- The update has to follow on the last identifier.
unfoldable pub continuity : ℕ → ℕ → ℕ → Bool → Verdict
continuity first final last differs =
    if differs
    then is_gap previous_update_id_mismatch
    else if not (leb first (last + 1) && leb (last + 1) final)
    then is_gap update_id_gap
    else is_covered final

unfoldable pub verdict_between : Payload → ℕ → ℕ → ℕ → Result DepthError Verdict
verdict_between p last first final = if leb final last then ok (is_stale last) else do
  differs ← previous_differs p.previous_final last
  ok (continuity first final last differs)

unfoldable pub verdict_of : Payload → ℕ → Result DepthError Verdict
verdict_of p last = do
  first ← nonnegative_int p.first_update_id
  final ← nonnegative_int p.final_update_id
  verdict_between p last first final

-- The two sides are changed one after the other, each once its own levels were read.
unfoldable pub change_asks :
    Payload
    → Option ℤ
    → ℕ
    → DiffDepthBook
    → Result DepthError (List (ℕ × ℕ))
    → Result DepthError DepthApplyResult × DiffDepthBook
change_asks p receive_ts final k (err e) = (err e, k)
change_asks p receive_ts final k (ok asks) =
    let k' = record k { asks = apply_levels asks k.asks; last_update_id = some final } in
    (applied_result k' (timestamp_from_millis (first_present p) none) receive_ts, k')

unfoldable pub change_sides :
    Payload
    → Option ℤ
    → ℕ
    → DiffDepthBook
    → Result DepthError (List (ℕ × ℕ))
    → Result DepthError DepthApplyResult × DiffDepthBook
change_sides p receive_ts final k (err e) = (err e, k)
change_sides p receive_ts final k (ok bids) =
    change_asks p receive_ts final (record k { bids = apply_levels bids k.bids })
      (levels (get_levels p.a (rows [])))

unfoldable pub act_on :
    Payload
    → Option ℤ
    → DiffDepthBook
    → Result DepthError Verdict
    → Result DepthError DepthApplyResult × DiffDepthBook
act_on p receive_ts k (err e) = (err e, k)
act_on p receive_ts k (ok (is_stale last)) = (ok (refused stale (some last) already_covered), k)
act_on p receive_ts k (ok (is_gap reason)) = gap_result reason k
act_on p receive_ts k (ok (is_covered final)) =
    change_sides p receive_ts final k (levels (get_levels p.b (rows [])))

unfoldable pub delta_after :
    Payload
    → Option ℤ
    → DiffDepthBook
    → Option ℕ
    → Result DepthError DepthApplyResult × DiffDepthBook
delta_after p receive_ts k none = (ok (refused awaiting_snapshot none snapshot_required), k)
delta_after p receive_ts k (some last) =
    if k.is_synchronized
    then act_on p receive_ts k (verdict_of p last)
    else (ok (refused awaiting_snapshot (some last) snapshot_required), k)

-- `BinanceDiffDepthBook.apply_delta`
unfoldable pub apply_delta :
    Payload → Option ℤ → DiffDepthBook → Result DepthError DepthApplyResult × DiffDepthBook
apply_delta p receive_ts k = delta_after p receive_ts k k.last_update_id
