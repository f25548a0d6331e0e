-- ===== src/Data/Quality.antt =====
-- btc_short_horizon/data/quality.py: the validator that rejects duplicates and regressions of a
-- stream, and starts a new epoch at every gap. Of data/contracts.py it reads the timing of an event.
-- A `datetime` is in UTC, in microseconds from the epoch, and a `timedelta` in microseconds.
pub mod Invariant
pub mod Streams
pub mod Repeats
mod Tests
use polymarket_btc.Prelude.{
  string_eq, pair_eq, if◌then◌else◌, ◌-ℤ◌, ltb_ℤ, ℤ, length, ◌>>=◌, ◌>>◌, raise_if, Result,
  str_is_empty, member, add, discard, pos, ok, ℕ, ◌+◌, String, Bool, true, false, ◌||◌, Option,
  none, some, List, [], ◌∷◌, ◌++◌,
}

-- The fields of `TimedMarketEvent`.
pub record TimedMarketEvent : Type 0 where
  pub source_ts : ℤ
  pub collector_receive_ts : Option ℤ
  pub available_ts : ℤ
  pub sequence_or_hash : String
  pub source : String
  pub instrument : String
  pub schema_version : String
  pub ingest_version : String

-- (source, instrument, schema_version, sequence_or_hash)
abbrev pub Identifier : Type 0
Identifier = (String × String) × (String × String)

abbrev pub identifier_of : TimedMarketEvent → Identifier
identifier_of e = ((e.source, e.instrument), (e.schema_version, e.sequence_or_hash))

pub data Reason : Type 0 where
  duplicate out_of_order accepted : Reason
  gap : String → Reason

pub record DataQualityDecision : Type 0 where
  pub is_accepted : Bool
  pub epoch_id : ℕ
  pub reason : Reason
  pub is_stale : Bool

pub record DataQualityStats : Type 0 where
  pub total_events : ℕ
  pub accepted_events : ℕ
  pub duplicate_events : ℕ
  pub out_of_order_events : ℕ
  pub stale_events : ℕ
  pub gap_events : ℕ
  pub epochs : ℕ

-- The attributes of `EventQualityValidator`. The set is read by membership only; the deque has its
-- oldest identifier first.
pub record Validator : Type 0 where
  pub max_seen_identifiers : ℤ
  pub max_transport_delay : ℤ
  pub seen_identifiers : List Identifier
  pub seen_order : List Identifier
  pub last_available_ts : Option ℤ
  pub current_epoch : ℕ
  pub total_events : ℕ
  pub accepted_events : ℕ
  pub duplicate_events : ℕ
  pub out_of_order_events : ℕ
  pub stale_events : ℕ
  pub gap_events : ℕ

pub data QualityError : Type 0 where
  max_seen_below_one negative_delay gap_reason_required : QualityError

-- The attributes that `__init__` sets.
abbrev pub initial : ℤ → ℤ → Validator
initial max_seen max_delay = record {
  max_seen_identifiers = max_seen;
  max_transport_delay = max_delay;
  seen_identifiers = [];
  seen_order = [];
  last_available_ts = none;
  current_epoch = 0;
  total_events = 0;
  accepted_events = 0;
  duplicate_events = 0;
  out_of_order_events = 0;
  stale_events = 0;
  gap_events = 0;
}

-- `EventQualityValidator.__init__`
unfoldable pub init : ℤ → ℤ → Result QualityError Validator
init max_seen max_delay = do
  raise_if (ltb_ℤ max_seen (pos 1)) max_seen_below_one
  raise_if (ltb_ℤ max_delay (pos 0)) negative_delay
  ok (initial max_seen max_delay)

unfoldable pub stats : Validator → DataQualityStats
stats v = record {
  total_events = v.total_events;
  accepted_events = v.accepted_events;
  duplicate_events = v.duplicate_events;
  out_of_order_events = v.out_of_order_events;
  stale_events = v.stale_events;
  gap_events = v.gap_events;
  epochs = v.current_epoch + 1;
}

-- What `mark_gap` does once it has checked its reason.
unfoldable pub after_gap : Validator → Validator
after_gap v = record v {
  gap_events = v.gap_events + 1;
  current_epoch = v.current_epoch + 1;
  last_available_ts = none;
  seen_identifiers = [];
  seen_order = [];
}

unfoldable pub mark_gap : String → Validator → Result QualityError (DataQualityDecision × Validator)
mark_gap reason v = do
  raise_if (str_is_empty reason) gap_reason_required
  let v' = after_gap v
  ok (
    record {
      is_accepted = false;
      epoch_id = v'.current_epoch;
      reason = gap reason;
      is_stale = false;
    },
    v',
  )

-- `popleft` of the deque, and `discard` of what it returns.
abbrev pub drop_oldest : Validator → List Identifier → Validator
drop_oldest v [] = v
drop_oldest v (expired ∷ rest) = record v {
  seen_order = rest;
  seen_identifiers = discard expired v.seen_identifiers;
}

unfoldable pub remember : Identifier → Validator → Validator
remember k v =
    let v' = record v {
      seen_identifiers = add k v.seen_identifiers;
      seen_order = v.seen_order ++ k ∷ [];
    } in
    if ltb_ℤ v'.max_seen_identifiers (pos (length v'.seen_order))
    then drop_oldest v' v'.seen_order
    else v'

-- The transport delay is out of the bounds, if there is one.
unfoldable pub stale_of : ℤ → ℤ → Option ℤ → Bool
stale_of bound source_ts none = false
stale_of bound source_ts (some received) =
    ltb_ℤ bound (received -ℤ source_ts) || ltb_ℤ (received -ℤ source_ts) (pos 0 -ℤ bound)

-- `last is not None and available_ts < last`
abbrev pub regresses : ℤ → Option ℤ → Bool
regresses t none = false
regresses t (some last) = ltb_ℤ t last

-- The three ends of `observe`, after `total_events` was counted: an identifier that was seen, a
-- time before the last one, and an event that is accepted.
abbrev pub on_duplicate : Validator → DataQualityDecision × Validator
on_duplicate v = (
  record { is_accepted = false; epoch_id = v.current_epoch; reason = duplicate; is_stale = false },
  record v { duplicate_events = v.duplicate_events + 1 },
)

abbrev pub on_regression : Validator → DataQualityDecision × Validator
on_regression v =
    let v' = after_gap (record v { out_of_order_events = v.out_of_order_events + 1 }) in
    (
      record {
        is_accepted = false;
        epoch_id = v'.current_epoch;
        reason = out_of_order;
        is_stale = false;
      },
      v',
    )

abbrev pub on_accept : TimedMarketEvent → Bool → Validator → DataQualityDecision × Validator
on_accept e stale v =
    let v' =
      remember (identifier_of e)
        (record v { stale_events = if stale then v.stale_events + 1 else v.stale_events }) in
    (
      record {
        is_accepted = true;
        epoch_id = v'.current_epoch;
        reason = accepted;
        is_stale = stale;
      },
      record v' {
        last_available_ts = some e.available_ts;
        accepted_events = v'.accepted_events + 1;
      },
    )

abbrev pub counted : Validator → Validator
counted v = record v { total_events = v.total_events + 1 }

unfoldable pub observe : TimedMarketEvent → Validator → DataQualityDecision × Validator
observe e v =
    if member (identifier_of e) v.seen_identifiers
    then on_duplicate (counted v)
    else if regresses e.available_ts v.last_available_ts
    then on_regression (counted v)
    else on_accept e (stale_of v.max_transport_delay e.source_ts e.collector_receive_ts) (counted v)
