-- ===== src/Data/Contracts.antt =====
-- btc_short_horizon/data/contracts.py: market families with their slugs, and the label of a window. A
-- `datetime` is aware and in UTC, as its number of microseconds from the epoch.
pub mod Slugs
pub mod Windows
mod Tests
use Prim.Native.Char.{code}
use Prim.Native.String.{[], ◌∷◌}
use polymarket_btc.Prelude.Digits.{show, read, drop_prefix, text_append}
use polymarket_btc.Prelude.{
  ltb, leb, str_is_empty, true, false, ◌&&◌, ◌||◌, ◌==◌, if◌then◌else◌, ◌-ℤ◌, ltb_ℤ, ℤ, ◌>>=◌, ◌>>◌,
  raise_if, Result, pos, negsuc, ok, err, ℕ, ◌+◌, ◌-◌, ◌*◌, ◌/◌, ◌%◌, String, Bool, not, Option,
  none, some, str_eq,
}

-- `MarketValidationError`, with one message.
pub data MarketValidationError : Type 0 where
  not_whole_seconds not_aligned wrong_slug label_without_resolution label_missing label_before_end :
      MarketValidationError
  empty_text wrong_end same_tokens not_a_digest bad_slug_prefix bad_window_seconds :
      MarketValidationError

-- A `BtcMarketFamily` whose name and prefix are normalized.
pub record BtcMarketFamily : Type 0 where
  pub name : String
  pub slug_prefix : String
  pub window_seconds : ℕ
  -- The collection mode is COLLECTION_ONLY, and not COMPLETE.
  pub is_collection_only : Bool

-- The text matches `^[a-z0-9]+(?:-[a-z0-9]+)*$`, read on from its start or a hyphen, or from elsewhere.
unfoldable pub is_slug_prefix : Bool → String → Bool
is_slug_prefix after_hyphen [] = not after_hyphen
is_slug_prefix after_hyphen (c ∷ s) =
    if leb 97 (code c) && leb (code c) 122 || leb 48 (code c) && leb (code c) 57
    then is_slug_prefix false s
    else code c == 45 && not after_hyphen && is_slug_prefix true s

-- `__post_init__` of a family. A number of seconds below zero, which it refuses as it does zero, is no ℕ.
unfoldable pub make_family : BtcMarketFamily → Result MarketValidationError BtcMarketFamily
make_family f = do
  raise_if (str_is_empty f.name) empty_text
  raise_if (str_is_empty f.slug_prefix) empty_text
  raise_if (not (is_slug_prefix true f.slug_prefix)) bad_slug_prefix
  raise_if (f.window_seconds == 0 || not (f.window_seconds % 60 == 0)) bad_window_seconds
  ok f

unfoldable pub window_minutes : BtcMarketFamily → ℕ
window_minutes f = f.window_seconds / 60

-- `n % d`, which is not negative for a positive d.
unfoldable pub int_mod : ℤ → ℕ → ℕ
int_mod (pos n) d = n % d
int_mod (negsuc n) d = d - 1 - n % d

-- `_normalize_window_time`
unfoldable pub normalize_window_time : ℤ → Result MarketValidationError ℤ
normalize_window_time t = do raise_if (not (int_mod t 1_000_000 == 0)) not_whole_seconds; ok t

-- `_epoch_seconds`: the fraction is cut.
unfoldable pub epoch_seconds : ℤ → ℤ
epoch_seconds (pos n) = pos (n / 1_000_000)
epoch_seconds (negsuc n) = pos 0 -ℤ pos ((n + 1) / 1_000_000)

-- An `int` in a text.
unfoldable pub show_int : ℤ → String
show_int (pos n) = show n
show_int (negsuc n) = text_append "-" (show (n + 1))

-- What stands before the epoch.
unfoldable pub slug_head : BtcMarketFamily → String
slug_head f =
    text_append f.slug_prefix (text_append "-" (text_append (show (window_minutes f)) "m-"))

-- `slug_for`
unfoldable pub slug_for : BtcMarketFamily → ℤ → Result MarketValidationError String
slug_for f t0 = do
  start ← normalize_window_time t0
  raise_if (not (int_mod (epoch_seconds start) f.window_seconds == 0)) not_aligned
  ok (text_append (slug_head f) (show_int (epoch_seconds start)))

-- The last second that a `datetime` holds.
abbrev pub last_second : ℕ
last_second = 253_402_300_799

-- The epoch of a slug, as the pattern reads it and `fromtimestamp` takes it.
unfoldable pub epoch_of : Option ℕ → Result MarketValidationError ℕ
epoch_of none = err wrong_slug
epoch_of (some n) = do raise_if (ltb last_second n) wrong_slug; ok n

unfoldable pub epoch_text : Option String → Result MarketValidationError ℕ
epoch_text none = err wrong_slug
epoch_text (some digits) = epoch_of (read digits)

-- `parse_slug`. A text that the pattern takes is lower-case and has no spaces around, since the prefix
-- of the family is, so that the first check of the method refuses nothing more.
unfoldable pub parse_slug : BtcMarketFamily → String → Result MarketValidationError ℤ
parse_slug f slug = do
  n ← epoch_text (drop_prefix (slug_head f) slug)
  again ← slug_for f (pos (n * 1_000_000))
  raise_if (not (str_eq again slug)) wrong_slug
  ok (pos (n * 1_000_000))

pub data MarketOutcome : Type 0 where
  up_outcome down_outcome void_outcome : MarketOutcome

-- `_normalize_label_available_ts`
unfoldable pub normalize_label_available_ts :
    Option ℤ → Option MarketOutcome → ℤ → Result MarketValidationError (Option ℤ)
normalize_label_available_ts none none t1 = ok none
normalize_label_available_ts (some t) none t1 = err label_without_resolution
normalize_label_available_ts none (some o) t1 = err label_missing
normalize_label_available_ts (some t) (some o) t1 = do
  raise_if (ltb_ℤ t t1) label_before_end
  ok (some t)
