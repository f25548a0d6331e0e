-- ===== src/Data/Events.antt =====
-- btc_short_horizon/data/contracts.py: the checks of `TimedMarketEvent`. Its texts are without spaces
-- around, and its source is in lower case: `strip` and `casefold` are not modelled.
use polymarket_btc.Prelude.{
  Bool-cases, ltb_ℤ, ℤ, ◌>>◌, raise_if, is_ok, raise_if-ok, ok-inj, Result, nat_eq, string_eq,
  pair_eq, str_is_empty, ok, err, String, ◌≡◌, sym, ap, ◌∙◌, inl, inr, Bool, true, false, not, ◌&&◌,
  ◌||◌, Option, none, some, arith, str_eq, eq_iff,
}
use polymarket_btc.Prelude.Digits.{has_text}
use polymarket_btc.Data.Books.{DepthError, bad_text, bad_event}
use polymarket_btc.Data.Quality.{TimedMarketEvent}

-- `collector_receive_ts is not None and available_ts < collector_receive_ts`
unfoldable pub precedes_receipt : ℤ → Option ℤ → Bool
precedes_receipt available_ts none = false
precedes_receipt available_ts (some receive_ts) = ltb_ℤ available_ts receive_ts

-- `TimedMarketEvent.__post_init__`
unfoldable pub make_event : TimedMarketEvent → Result DepthError TimedMarketEvent
make_event e = do
  raise_if (ltb_ℤ e.available_ts e.source_ts) bad_event
  raise_if (precedes_receipt e.available_ts e.collector_receive_ts) bad_event
  raise_if (str_is_empty e.sequence_or_hash || str_is_empty e.source) bad_event
  raise_if (str_is_empty e.instrument || str_is_empty e.schema_version) bad_event
  raise_if (str_is_empty e.ingest_version) bad_event
  ok e

-- A text that has to be there.
unfoldable pub required_text : Option String → Result DepthError String
required_text none = err bad_text
required_text (some s) = do raise_if (str_is_empty s) bad_text; ok s

pub has_text-not_empty : (s : String) → has_text s ≡ true → str_is_empty s ≡ false
unfolding has_text
has_text-not_empty s h = elim (Bool-cases (str_eq s "")) [
  | inl empty ↦ let e = (eq_iff s "").0 empty in absurd (no_text (sym (ap has_text e) ∙ h))
  | inr full ↦ full
]
  where
    no_text : false ≡ true → ⊥
    no_text e = cc

-- An event whose texts are there passes its checks by its times alone.
pub make_event-is_ok :
    (e : TimedMarketEvent)
    → str_is_empty e.sequence_or_hash ≡ false
    → str_is_empty e.source ≡ false
    → str_is_empty e.instrument ≡ false
    → str_is_empty e.schema_version ≡ false
    → str_is_empty e.ingest_version ≡ false
    → is_ok (make_event e) ≡ (
        not (ltb_ℤ e.available_ts e.source_ts)
        && not (precedes_receipt e.available_ts e.collector_receive_ts))
unfolding make_event
make_event-is_ok e a b c d f = rw (a, b, c, d, f) (ground arith)

-- The checks return what they were given.
pub make_event-ok : (e e' : TimedMarketEvent) → make_event e ≡ ok e' → e ≡ e'
unfolding make_event
make_event-ok e e' h = ground arith

pub required_text-ok : (o : Option String) (s : String) → required_text o ≡ ok s → o ≡ some s
unfolding required_text
required_text-ok none s h = cc
required_text-ok (some t) s h = let (a, h1) = raise_if-ok _ _ _ h in ap some (ok-inj h1)
