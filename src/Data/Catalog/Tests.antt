-- ===== src/Data/Catalog/Tests.antt =====
-- btc_short_horizon/data/market_catalog.py at concrete inputs: the two families of the program.
use polymarket_btc.Prelude.{
  string_eq, pair_eq, lookup, insert, has_key, pos, ok, ◌≡◌, refl, true, false, none, [], ◌∷◌,
}
use polymarket_btc.Prelude.Digits.{show, show_from, digit, read, read_from, has_text, drop_prefix}
use polymarket_btc.Data.Contracts.{
  BtcMarketFamily, slug_for, parse_slug, epoch_text, epoch_of, slug_head, show_int, epoch_seconds,
  normalize_window_time, int_mod, window_minutes,
}
use polymarket_btc.Data.Contracts.Windows.{MarketWindow}
use polymarket_btc.Data.Catalog.{
  MarketCatalog, same_family, is_ambiguous, index_families, add_match, matches, only_match,
  resolve_slug, register_in, register, register_all, new_catalog,
}
use polymarket_btc.Data.Catalog.Registration.{IsAdded, register-IsAdded}

abbrev family_15m : BtcMarketFamily
family_15m = record {
  name = "btc_updown_15m";
  slug_prefix = "btc-updown";
  window_seconds = 900;
  is_collection_only = false;
}

abbrev family_5m : BtcMarketFamily
family_5m = record {
  name = "btc_updown_5m";
  slug_prefix = "btc-updown";
  window_seconds = 300;
  is_collection_only = true;
}

abbrev window : MarketWindow
window = record {
  family = family_15m;
  slug = "btc-updown-15m-1800";
  condition_id = "0x1";
  up_token_id = "1";
  down_token_id = "2";
  t0 = pos 1_800_000_000;
  t1 = pos 2_700_000_000;
  rule_epoch = "2026";
  rule_hash = "0123456789abcdef0123456789abcdef0123456789abcdef0123456789abcdef";
  resolution = none;
  label_available_ts = none;
}

abbrev empty_catalog : MarketCatalog
empty_catalog = record {
  families = family_15m ∷ family_5m ∷ [];
  families_by_name = ("btc_updown_15m", family_15m) ∷ ("btc_updown_5m", family_5m) ∷ [];
  windows_by_slug = [];
}

catalog_made : new_catalog (family_15m ∷ family_5m ∷ []) [] ≡ ok empty_catalog
unfolding new_catalog register_all index_families is_ambiguous has_key insert
catalog_made = refl

abbrev catalog : MarketCatalog
catalog = record empty_catalog { windows_by_slug = ("btc-updown-15m-1800", window) ∷ [] }

window_registered : register window empty_catalog ≡ ok catalog
unfolding register register_in resolve_slug only_match matches add_match same_family lookup has_key
    insert parse_slug epoch_text epoch_of slug_for slug_head show_int epoch_seconds
    normalize_window_time int_mod window_minutes show show_from digit read read_from has_text
    drop_prefix
window_registered = refl

register-IsAdded_example : IsAdded window empty_catalog catalog
register-IsAdded_example = register-IsAdded window empty_catalog catalog window_registered
