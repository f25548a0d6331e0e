-- ===== src/Data/Catalog/Registration.antt =====
-- btc_short_horizon/data/market_catalog.py: what a registration adds, and what a catalog holds.
use polymarket_btc.Prelude.{
  if◌then◌else◌, ℤ, All, bind-ok, raise_if-ok, Result, string_eq, pair_eq, Dict, lookup, insert,
  has_key, lookup-insert, ok, err, String, ◌≡◌, refl, ◌∙◌, Bool, true, false, not, ◌||◌, Option,
  none, some, List, [], ◌∷◌, arith, str_eq, eq_iff,
}
use polymarket_btc.Data.Contracts.{BtcMarketFamily, MarketValidationError, parse_slug, slug_for}
use polymarket_btc.Data.Contracts.Slugs.{parse_slug-slug_for}
use polymarket_btc.Data.Catalog.{
  family_mismatch, slug_mismatch, duplicate_slug, MarketWindow, ParsedMarketSlug, MarketCatalog,
  same_bool, same_family, add_match, matches, only_match, resolve_slug, same_int, register_in,
  register, get,
}

same_bool-eq : (a b : Bool) → same_bool a b ≡ true → a ≡ b
same_bool-eq a b h = ground arith

same_family-eq : (f g : BtcMarketFamily) → same_family f g ≡ true → f ≡ g
unfolding same_family
same_family-eq f g h = ground (
  arith,
  eq_iff f.name g.name,
  eq_iff f.slug_prefix g.slug_prefix,
  same_bool-eq f.is_collection_only g.is_collection_only,
)

same_int-eq : (a b : ℤ) → same_int a b ≡ true → a ≡ b
same_int-eq a b h = ground arith

abbrev IsMatch : String → ParsedMarketSlug → Type 0
IsMatch slug p = parse_slug p.family slug ≡ ok p.t0

add_match-IsMatch :
    (slug : String) (f : BtcMarketFamily) (r : Result MarketValidationError ℤ)
    (ps : List ParsedMarketSlug)
    → parse_slug f slug ≡ r
    → All (IsMatch slug) ps
    → All (IsMatch slug) (add_match f r ps)
unfolding add_match
add_match-IsMatch slug f (ok t0) ps e h = (e, h)
add_match-IsMatch slug f (err x) ps e h = h

matches-IsMatch : (slug : String) (fs : List BtcMarketFamily) → All (IsMatch slug) (matches slug fs)
unfolding matches
matches-IsMatch slug [] = tt
matches-IsMatch slug (f ∷ fs) =
    add_match-IsMatch slug f (parse_slug f slug) (matches slug fs) refl (matches-IsMatch slug fs)

only_match-IsMatch :
    (slug : String) (ps : List ParsedMarketSlug) (p : ParsedMarketSlug)
    → All (IsMatch slug) ps
    → only_match ps ≡ ok p
    → IsMatch slug p
unfolding only_match
only_match-IsMatch slug [] p h e = absurd (ground arith)
only_match-IsMatch slug (q ∷ []) p h e = let same : q ≡ p = ground arith in rw same at h.0
only_match-IsMatch slug (q ∷ r ∷ qs) p h e = absurd (ground arith)

-- What a registration that succeeds has found, and what it adds.
pub record IsAdded (w : MarketWindow) (c c' : MarketCatalog) : Type 0 where
  pub canonical : slug_for w.family w.t0 ≡ ok w.slug
  pub new : get w.slug c ≡ none
  pub after : (slug : String) → get slug c' ≡ (if str_eq w.slug slug then some w else get slug c)
  pub families : c'.families ≡ c.families

lookup-has_key :
    (k : String) (d : Dict String MarketWindow) → has_key k d ≡ false → lookup k d ≡ none
unfolding lookup has_key
lookup-has_key k [] h = refl
lookup-has_key k ((j, v) ∷ d) h =
    let other : str_eq j k ≡ false = ground arith in
    rw (other, lookup-has_key k d (ground arith)) refl

canonical_window :
    (w : MarketWindow) (f : BtcMarketFamily) (p : ParsedMarketSlug) (c : MarketCatalog)
    → resolve_slug w.slug c ≡ ok p
    → same_family f w.family ≡ true
    → same_family p.family f ≡ true
    → same_int p.t0 w.t0 ≡ true
    → slug_for w.family w.t0 ≡ ok w.slug
unfolding resolve_slug
canonical_window w f p c r mine theirs start =
    let match =
      only_match-IsMatch w.slug (matches w.slug c.families) p (matches-IsMatch w.slug c.families)
        r in
    let family : p.family ≡ w.family =
      same_family-eq p.family f theirs ∙ same_family-eq f w.family mine in
    let canonical = ((parse_slug-slug_for p.family w.slug p.t0).0 match).0 in
    rw (family, same_int-eq p.t0 w.t0 start) at canonical

register_in-IsAdded :
    (o : Option BtcMarketFamily) (w : MarketWindow) (c c' : MarketCatalog)
    → register_in o w c ≡ ok c'
    → IsAdded w c c'
unfolding register_in get
register_in-IsAdded none w c c' h = absurd (ground arith)
register_in-IsAdded (some f) w c c' h =
    let (mine, next) = raise_if-ok (not (same_family f w.family)) family_mismatch _ h in
    let (p, found, last) = bind-ok (resolve_slug w.slug c) _ next in
    let (theirs, rest) =
      raise_if-ok (not (same_family p.family f) || not (same_int p.t0 w.t0)) slug_mismatch _ last in
    let (unused, made) = raise_if-ok (has_key w.slug c.windows_by_slug) duplicate_slug _ rest in
    let same : c' ≡ record c { windows_by_slug = insert w.slug w c.windows_by_slug } =
      ground arith in
    rw same (record {
      canonical = canonical_window w f p c found (ground arith) (ground arith) (ground arith);
      new = lookup-has_key w.slug c.windows_by_slug unused;
      after = λ slug. lookup-insert w.slug slug w c.windows_by_slug;
      families = refl;
    })

-- A registration that succeeds finds the slug of the window canonical for its family and start, and
-- not yet in the catalog; afterwards the catalog gives the window for its slug, and for every other
-- slug what it gave before.
pub register-IsAdded :
    (w : MarketWindow) (c c' : MarketCatalog) → register w c ≡ ok c' → IsAdded w c c'
unfolding register
register-IsAdded w c c' h = register_in-IsAdded (lookup w.family.name c.families_by_name) w c c' h
