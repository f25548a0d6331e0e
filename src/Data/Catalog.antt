-- ===== src/Data/Catalog.antt =====
-- btc_short_horizon/data/market_catalog.py: the catalog of market windows. Of a window it reads the
-- family, the slug and the start.
pub mod Registration
mod Tests
use polymarket_btc.Prelude.{
  ◌==◌, if◌then◌else◌, leb_ℤ, ℤ, is_empty, any, ◌>>=◌, ◌>>◌, raise_if, Result, string_eq, pair_eq,
  Dict, lookup, insert, has_key, ok, err, String, Bool, true, false, not, ◌&&◌, ◌||◌, Option, none,
  some, List, [], ◌∷◌, str_eq,
}
use polymarket_btc.Data.Contracts.{BtcMarketFamily, MarketValidationError, parse_slug}
use polymarket_btc.Data.Contracts.Windows.{MarketWindow}

pub data CatalogError : Type 0 where
  no_families duplicate_family ambiguous_family unresolved_slug unknown_family family_mismatch :
      CatalogError
  slug_mismatch duplicate_slug missing_slug : CatalogError

pub record ParsedMarketSlug : Type 0 where
  pub family : BtcMarketFamily
  pub t0 : ℤ

pub record MarketCatalog : Type 0 where
  pub families : List BtcMarketFamily
  pub families_by_name : Dict String BtcMarketFamily
  pub windows_by_slug : Dict String MarketWindow

abbrev pub same_bool : Bool → Bool → Bool
same_bool true b = b
same_bool false b = not b

-- `==` of two families
unfoldable pub same_family : BtcMarketFamily → BtcMarketFamily → Bool
same_family f g =
    str_eq f.name g.name
    && str_eq f.slug_prefix g.slug_prefix
    && f.window_seconds == g.window_seconds
    && same_bool f.is_collection_only g.is_collection_only

-- `slug_identity in slug_identities`, of the families before it.
unfoldable pub is_ambiguous : BtcMarketFamily → List BtcMarketFamily → Bool
is_ambiguous f gs =
    any
      (λ (g : BtcMarketFamily).
        str_eq f.slug_prefix g.slug_prefix && f.window_seconds == g.window_seconds)
      gs

-- The loop of `__init__` over the families, after those that were seen.
unfoldable pub index_families :
    List BtcMarketFamily
    → Dict String BtcMarketFamily
    → List BtcMarketFamily
    → Result CatalogError (Dict String BtcMarketFamily)
index_families seen by_name [] = ok by_name
index_families seen by_name (f ∷ fs) = do
  raise_if (has_key f.name by_name) duplicate_family
  raise_if (is_ambiguous f seen) ambiguous_family
  index_families (f ∷ seen) (insert f.name f by_name) fs

-- A family that parses the slug, before those of the other families; one that does not is skipped.
unfoldable pub add_match :
    BtcMarketFamily → Result MarketValidationError ℤ → List ParsedMarketSlug → List ParsedMarketSlug
add_match f (ok t0) ps = record { family = f; t0 = t0 } ∷ ps
add_match f (err e) ps = ps

-- The families that a slug belongs to, with its start.
unfoldable pub matches : String → List BtcMarketFamily → List ParsedMarketSlug
matches slug [] = []
matches slug (f ∷ fs) = add_match f (parse_slug f slug) (matches slug fs)

-- `if len(matches) != 1: raise`
unfoldable pub only_match : List ParsedMarketSlug → Result CatalogError ParsedMarketSlug
only_match (p ∷ []) = ok p
only_match _ = err unresolved_slug

-- `MarketCatalog.parse_slug`
unfoldable pub resolve_slug : String → MarketCatalog → Result CatalogError ParsedMarketSlug
resolve_slug slug c = only_match (matches slug c.families)

abbrev pub same_int : ℤ → ℤ → Bool
same_int a b = leb_ℤ a b && leb_ℤ b a

-- `register`, from the family that is configured under the name.
unfoldable pub register_in :
    Option BtcMarketFamily → MarketWindow → MarketCatalog → Result CatalogError MarketCatalog
register_in none w c = err unknown_family
register_in (some f) w c = do
  raise_if (not (same_family f w.family)) family_mismatch
  parsed ← resolve_slug w.slug c
  raise_if (not (same_family parsed.family f) || not (same_int parsed.t0 w.t0)) slug_mismatch
  raise_if (has_key w.slug c.windows_by_slug) duplicate_slug
  ok (record c { windows_by_slug = insert w.slug w c.windows_by_slug })

unfoldable pub register : MarketWindow → MarketCatalog → Result CatalogError MarketCatalog
register w c = register_in (lookup w.family.name c.families_by_name) w c

unfoldable pub register_all : List MarketWindow → MarketCatalog → Result CatalogError MarketCatalog
register_all [] c = ok c
register_all (w ∷ ws) c = do c' ← register w c; register_all ws c'

-- `__init__`
unfoldable pub new_catalog :
    List BtcMarketFamily → List MarketWindow → Result CatalogError MarketCatalog
new_catalog families windows = do
  raise_if (is_empty families) no_families
  by_name ← index_families [] [] families
  register_all windows
      (record { families = families; families_by_name = by_name; windows_by_slug = [] })

-- `get` and `require`
unfoldable pub get : String → MarketCatalog → Option MarketWindow
get slug c = lookup slug c.windows_by_slug

abbrev pub found_or_raise : Option MarketWindow → Result CatalogError MarketWindow
found_or_raise none = err missing_slug
found_or_raise (some w) = ok w

unfoldable pub require : String → MarketCatalog → Result CatalogError MarketWindow
require slug c = found_or_raise (get slug c)
