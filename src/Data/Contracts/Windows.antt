-- ===== src/Data/Contracts/Windows.antt =====
-- btc_short_horizon/data/contracts.py: `MarketWindow` with its checks. Its texts are stripped, and its
-- hash is in lower case: `strip` and `casefold` are not modelled.
pub mod Disjoint
use Prim.Native.Char.{code}
use Prim.Native.String.{[], ◌∷◌}
use polymarket_btc.Prelude.{
  leb, ◌==◌, if◌then◌else◌, ◌+ℤ◌, ltb_ℤ, ℤ, ◌>>=◌, ◌>>◌, raise_if, Result, str_is_empty, pos, ok, ℕ,
  ◌-◌, ◌*◌, String, Bool, true, false, not, ◌&&◌, ◌||◌, Option, none, some, str_eq,
}
use polymarket_btc.Data.Contracts.{
  BtcMarketFamily, MarketValidationError, empty_text, wrong_slug, wrong_end, same_tokens,
  not_a_digest, MarketOutcome, up_outcome, down_outcome, void_outcome, normalize_window_time,
  slug_for, normalize_label_available_ts,
}

pub record MarketWindow : Type 0 where
  pub family : BtcMarketFamily
  pub slug : String
  pub condition_id : String
  pub up_token_id : String
  pub down_token_id : String
  pub t0 : ℤ
  pub t1 : ℤ
  pub rule_epoch : String
  pub rule_hash : String
  pub resolution : Option MarketOutcome
  pub label_available_ts : Option ℤ

-- The text has so many characters, each of `[0-9a-fA-F]`.
unfoldable pub is_hex_text : ℕ → String → Bool
is_hex_text n [] = n == 0
is_hex_text n (c ∷ s) =
    (leb 48 (code c) && leb (code c) 57
      || leb 97 (code c) && leb (code c) 102
      || leb 65 (code c) && leb (code c) 70)
    && not (n == 0)
    && is_hex_text (n - 1) s

-- `timedelta(seconds=self.family.window_seconds)`
abbrev pub duration : BtcMarketFamily → ℕ
duration f = f.window_seconds * 1_000_000

-- What `__post_init__` checks of the tokens and the rule, and then of the label.
unfoldable pub check_rule : MarketWindow → Result MarketValidationError MarketWindow
check_rule w = do
  raise_if (str_is_empty w.condition_id) empty_text
  raise_if (str_is_empty w.up_token_id) empty_text
  raise_if (str_is_empty w.down_token_id) empty_text
  raise_if (str_eq w.up_token_id w.down_token_id) same_tokens
  raise_if (str_is_empty w.rule_epoch) empty_text
  raise_if (str_is_empty w.rule_hash) empty_text
  raise_if (not (is_hex_text 64 w.rule_hash)) not_a_digest
  label ← normalize_label_available_ts w.label_available_ts w.resolution w.t1
  ok (record w { label_available_ts = label })

unfoldable pub differ : ℤ → ℤ → Bool
differ a b = ltb_ℤ a b || ltb_ℤ b a

-- `__post_init__`
unfoldable pub make_window : MarketWindow → Result MarketValidationError MarketWindow
make_window w = do
  raise_if (str_is_empty w.slug) empty_text
  start ← normalize_window_time w.t0
  end ← normalize_window_time w.t1
  expected ← slug_for w.family start
  raise_if (not (str_eq w.slug expected)) wrong_slug
  raise_if (differ end (start +ℤ pos (duration w.family))) wrong_end
  check_rule w

-- `winning_token_id`
unfoldable pub winning_token_id : MarketWindow → Option String
winning_token_id w = elim w.resolution [
  | none ↦ none
  | some up_outcome ↦ some w.up_token_id
  | some down_outcome ↦ some w.down_token_id
  | some void_outcome ↦ none
]

-- `is_resolved`
unfoldable pub is_resolved : MarketWindow → Bool
is_resolved w = elim w.resolution [ none ↦ false | some o ↦ true ]
