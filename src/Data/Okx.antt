-- ===== src/Data/Okx.antt =====
-- btc_short_horizon/data/okx.py: the normalization of `books` messages and `OkxBookSynchronizer`. A payload
-- is what the code reads of it; an integer or a number is what `int` or `float` makes of the value,
-- `none` where that raises.
pub mod Truth
pub mod Clocks
mod Tests
use polymarket_btc.Prelude.Digits.{text_append}
use polymarket_btc.Prelude.{
  leb, ◌==◌, if◌then◌else◌, pos_part, ◌+ℤ◌, ltb_ℤ, leb_ℤ, ℤ, is_empty, ◌>>=◌, ◌>>◌, raise_if,
  Result, str_is_empty, pos, negsuc, ok, err, ℕ, String, Bool, true, false, not, ◌&&◌, ◌||◌, Option,
  none, some, List, [], ◌∷◌, str_eq,
}
use polymarket_btc.Prelude.Digits.{show}
use polymarket_btc.Data.Quality.{TimedMarketEvent}
use polymarket_btc.Data.Events.{make_event}
use polymarket_btc.Data.Books.{
  applied, stale, gap, awaiting_snapshot, snapshot_required, already_covered, heartbeat,
  previous_sequence_mismatch, DepthError, bad_integer, bad_level, bad_source, bad_action,
  instrument_required, Levels, apply_levels, update_all, finite_of, RawLevel, row, RawLevels,
  not_a_sequence, rows, timestamp_of, book_top, DepthApplyResult, refused,
}

pub data Action : Type 0 where
  snapshot update other_action : Action

pub record Payload : Type 0 where
  -- "seqId", "prevSeqId" and "ts"
  pub sequence : Option ℤ
  pub previous_sequence : Option ℤ
  pub ts : Option ℤ
  -- "bids" and "asks"
  pub bids : RawLevels
  pub asks : RawLevels

-- `action not in {"snapshot", "update"}`
abbrev pub is_other : Action → Bool
is_other other_action = true
is_other _ = false

-- `_signed_integer`
unfoldable pub signed_integer : Option ℤ → Result DepthError ℤ
signed_integer none = err bad_integer
signed_integer (some z) = ok z

-- `_nonnegative`
unfoldable pub nonnegative : Option ℤ → Result DepthError ℕ
nonnegative (some (pos n)) = ok n
nonnegative (some (negsuc n)) = err bad_integer
nonnegative none = err bad_integer

-- One turn of the loop of `_levels`: a row may have more than two entries.
unfoldable pub level_of : RawLevel → Result DepthError (ℕ × ℕ)
level_of (row (p ∷ q ∷ others)) = do
  price ← finite_of p
  raise_if (leb_ℤ price (pos 0)) bad_level
  quantity ← finite_of q
  raise_if (ltb_ℤ quantity (pos 0)) bad_level
  ok (pos_part price, pos_part quantity)
level_of _ = err bad_level

unfoldable pub levels_of_rows : List RawLevel → Result DepthError (List (ℕ × ℕ))
levels_of_rows [] = ok []
levels_of_rows (r ∷ rs) = do l ← level_of r; ls ← levels_of_rows rs; ok (l ∷ ls)

-- `_levels`
unfoldable pub levels : RawLevels → Result DepthError (List (ℕ × ℕ))
levels not_a_sequence = err bad_level
levels (rows rs) = levels_of_rows rs

-- `_require_source`
unfoldable pub require_source : String → Result DepthError Unit
require_source source =
    raise_if (not (str_eq source "okx_spot" || str_eq source "okx_swap")) bad_source

-- `_available_time`: the receive time itself, also where it is before the time of the source.
unfoldable pub available_time : ℤ → Option ℤ → ℤ → ℤ
available_time source_ts none delay = source_ts +ℤ delay
available_time source_ts (some receive_ts) delay = receive_ts

abbrev pub action_text : Action → String
action_text snapshot = "snapshot:"
action_text update = "update:"
action_text other_action = ":"

-- `normalize_okx_book_update`
unfoldable pub normalize_okx_book_update :
    Payload → Action → String → Option ℤ → String → Result DepthError TimedMarketEvent
normalize_okx_book_update p action instrument receive_ts source = do
  require_source source
  raise_if (is_other action) bad_action
  raise_if (str_is_empty instrument) instrument_required
  sequence ← nonnegative p.sequence
  previous ← signed_integer p.previous_sequence
  bids ← levels p.bids
  asks ← levels p.asks
  source_ts ← timestamp_of p.ts
  make_event (record {
    source_ts = source_ts;
    collector_receive_ts = receive_ts;
    available_ts = available_time source_ts receive_ts (pos 0);
    sequence_or_hash = text_append (action_text action) (show sequence);
    source = source;
    instrument = instrument;
    schema_version = "okx-books-v1";
    ingest_version = "btc-short-horizon-v1";
  })

-- The attributes of `OkxBookSynchronizer`.
pub record Synchronizer : Type 0 where
  pub instrument : String
  pub source : String
  pub bids : Levels
  pub asks : Levels
  pub last_seq_id : Option ℕ
  pub is_synchronized : Bool

-- `OkxBookSynchronizer.__init__`
unfoldable pub new_synchronizer : String → String → Result DepthError Synchronizer
new_synchronizer instrument source = do
  raise_if (str_is_empty instrument) instrument_required
  require_source source
  ok (record {
    instrument = instrument;
    source = source;
    bids = [];
    asks = [];
    last_seq_id = none;
    is_synchronized = false;
  })

-- `reset`
unfoldable pub reset : Synchronizer → Synchronizer
reset s = record s { bids = []; asks = []; last_seq_id = none; is_synchronized = false }

-- What `apply` reads before it looks at the book.
pub record Message : Type 0 where
  pub sequence : ℕ
  pub previous_sequence : ℤ
  pub new_bids : List (ℕ × ℕ)
  pub new_asks : List (ℕ × ℕ)
  pub source_ts : ℤ

unfoldable pub message_of : Payload → Result DepthError Message
message_of p = do
  sequence ← nonnegative p.sequence
  previous ← signed_integer p.previous_sequence
  bids ← levels p.bids
  asks ← levels p.asks
  source_ts ← timestamp_of p.ts
  ok (record {
    sequence = sequence;
    previous_sequence = previous;
    new_bids = bids;
    new_asks = asks;
    source_ts = source_ts;
  })

-- `_applied`
unfoldable pub applied_result :
    ℤ → Option ℤ → Synchronizer → Result DepthError DepthApplyResult × Synchronizer
applied_result source_ts receive_ts s = (
  do
    top ←
        book_top s.bids s.asks source_ts (available_time source_ts receive_ts (pos 0)) s.source
          s.instrument
    ok (record { status = applied; book_top = top; last_update_id = s.last_seq_id; reason = none }),
  s,
)

abbrev pub is_ℤ : ℤ → ℤ → Bool
is_ℤ a b = leb_ℤ a b && leb_ℤ b a

unfoldable pub apply_snapshot :
    Message → Option ℤ → Synchronizer → Result DepthError DepthApplyResult × Synchronizer
apply_snapshot m receive_ts s = applied_result m.source_ts receive_ts (record s {
  bids = update_all m.new_bids [];
  asks = update_all m.new_asks [];
  last_seq_id = some m.sequence;
  is_synchronized = true;
})

-- What an update is found to be, for a book whose last number is `last`.
pub data Verdict : Type 0 where
  is_heartbeat is_covered is_gap is_next : Verdict

unfoldable pub verdict_of : Message → ℕ → Verdict
verdict_of m last =
    if m.sequence == last
      && is_ℤ m.previous_sequence (pos last)
      && is_empty m.new_bids
      && is_empty m.new_asks
    then is_heartbeat
    else if leb m.sequence last
    then is_covered
    else if not (is_ℤ m.previous_sequence (pos last))
    then is_gap
    else is_next

unfoldable pub act_on :
    Message
    → Option ℤ
    → ℕ
    → Synchronizer
    → Verdict
    → Result DepthError DepthApplyResult × Synchronizer
act_on m receive_ts last s is_heartbeat = (ok (refused stale (some last) heartbeat), s)
act_on m receive_ts last s is_covered = (ok (refused stale (some last) already_covered), s)
act_on m receive_ts last s is_gap =
    (ok (refused gap (some last) previous_sequence_mismatch), record s { is_synchronized = false })
act_on m receive_ts last s is_next = applied_result m.source_ts receive_ts (record s {
  bids = apply_levels m.new_bids s.bids;
  asks = apply_levels m.new_asks s.asks;
  last_seq_id = some m.sequence;
})

unfoldable pub update_after :
    Message → Option ℤ → Option ℕ → Synchronizer → Result DepthError DepthApplyResult × Synchronizer
update_after m receive_ts none s = (ok (refused awaiting_snapshot none snapshot_required), s)
update_after m receive_ts (some last) s =
    if s.is_synchronized
    then act_on m receive_ts last s (verdict_of m last)
    else (ok (refused awaiting_snapshot (some last) snapshot_required), s)

unfoldable pub apply_message :
    Action
    → Option ℤ
    → Synchronizer
    → Result DepthError Message
    → Result DepthError DepthApplyResult × Synchronizer
apply_message action receive_ts s (err e) = (err e, s)
apply_message snapshot receive_ts s (ok m) = apply_snapshot m receive_ts s
apply_message _ receive_ts s (ok m) = update_after m receive_ts s.last_seq_id s

-- `OkxBookSynchronizer.apply`
unfoldable pub apply :
    Action → Payload → Option ℤ → Synchronizer → Result DepthError DepthApplyResult × Synchronizer
apply action p receive_ts s =
    if is_other action
    then (err bad_action, s)
    else apply_message action receive_ts s (message_of p)

-- What the collector calls, in any order.
pub data Call : Type 0 where
  applies : Action → Payload → Option ℤ → Call
  resets : Call

unfoldable pub perform : Call → Synchronizer → Synchronizer
perform (applies action p receive_ts) s = (apply action p receive_ts s).1
perform resets s = reset s

unfoldable pub perform_all : List Call → Synchronizer → Synchronizer
perform_all [] s = s
perform_all (c ∷ cs) s = perform_all cs (perform c s)
