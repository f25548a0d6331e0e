-- ===== src/Data/Contracts/Tests.antt =====
-- btc_short_horizon/data/contracts.py at concrete inputs.
use polymarket_btc.Prelude.{
  string_eq, pair_eq, pos, ok, err, ◌≡◌, refl, ◌↔◌, ◌⊎◌, false, none, some, ◌≤ℤ◌, ◌+ℤ◌,
}
use polymarket_btc.Data.Contracts.{
  BtcMarketFamily, make_family, is_slug_prefix, bad_window_seconds, slug_for, parse_slug, slug_head,
  show_int, epoch_seconds, normalize_window_time, int_mod, window_minutes,
  normalize_label_available_ts, up_outcome, label_before_end,
}
use polymarket_btc.Data.Contracts.Windows.{
  MarketWindow, make_window, differ, check_rule, is_hex_text, winning_token_id,
}
use polymarket_btc.Data.Contracts.Windows.Disjoint.{make_window-IsApart}
use polymarket_btc.Prelude.Digits.{show, show_from, digit}
use polymarket_btc.Data.Contracts.Slugs.{InRange, parse_slug-slug_for}

-- `BTC_15M_MARKET_FAMILY`
abbrev fifteen_minutes : BtcMarketFamily
fifteen_minutes = record {
  name = "btc_updown_15m";
  slug_prefix = "btc-updown";
  window_seconds = 900;
  is_collection_only = false;
}

fifteen_minutes_made : make_family fifteen_minutes ≡ ok fifteen_minutes
unfolding make_family is_slug_prefix
fifteen_minutes_made = refl

no_minutes : make_family (record fifteen_minutes { window_seconds = 0 }) ≡ err bad_window_seconds
unfolding make_family is_slug_prefix
no_minutes = refl

slug_made : slug_for fifteen_minutes (pos 1_800_000_000) ≡ ok "btc-updown-15m-1800"
unfolding slug_for slug_head show_int epoch_seconds normalize_window_time int_mod window_minutes
    show show_from digit
slug_made = refl

parse_slug-slug_for_example :
    (parse_slug fifteen_minutes "btc-updown-15m-1800" ≡ ok (pos 1_800_000_000)) ↔ (
      (slug_for fifteen_minutes (pos 1_800_000_000) ≡ ok "btc-updown-15m-1800")
      × InRange (pos 1_800_000_000))
parse_slug-slug_for_example =
    parse_slug-slug_for fifteen_minutes "btc-updown-15m-1800" (pos 1_800_000_000)

abbrev opening : MarketWindow
opening = record {
  family = fifteen_minutes;
  slug = "btc-updown-15m-1800";
  condition_id = "0x1";
  up_token_id = "1";
  down_token_id = "2";
  t0 = pos 1_800_000_000;
  t1 = pos 2_700_000_000;
  rule_epoch = "2026";
  rule_hash = "0123456789abcdef0123456789abcdef0123456789abcdef0123456789abcdef";
  resolution = some up_outcome;
  label_available_ts = some (pos 2_700_000_001);
}

abbrev following : MarketWindow
following = record opening {
  slug = "btc-updown-15m-2700";
  t0 = pos 2_700_000_000;
  t1 = pos 3_600_000_000;
  resolution = none;
  label_available_ts = none;
}

opening_made : make_window opening ≡ ok opening
unfolding make_window differ check_rule is_hex_text normalize_label_available_ts slug_for slug_head
    show_int epoch_seconds normalize_window_time int_mod window_minutes show show_from digit ◌+ℤ◌
opening_made = refl

following_made : make_window following ≡ ok following
unfolding make_window differ check_rule is_hex_text normalize_label_available_ts slug_for slug_head
    show_int epoch_seconds normalize_window_time int_mod window_minutes show show_from digit ◌+ℤ◌
following_made = refl

label_too_early :
    make_window (record opening { label_available_ts = some (pos 1_800_000_000) })
    ≡ err label_before_end
unfolding make_window differ check_rule is_hex_text normalize_label_available_ts slug_for slug_head
    show_int epoch_seconds normalize_window_time int_mod window_minutes show show_from digit ◌+ℤ◌
label_too_early = refl

up_wins : winning_token_id opening ≡ some "1"
unfolding winning_token_id
up_wins = refl

make_window-IsApart_example :
    (opening.slug ≡ following.slug) ⊎ ((opening.t1 ≤ℤ following.t0) ⊎ (following.t1 ≤ℤ opening.t0))
make_window-IsApart_example =
    make_window-IsApart opening following opening following fifteen_minutes_made refl opening_made
      following_made
