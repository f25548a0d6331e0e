-- ===== src/Data/Contracts/Slugs.antt =====
-- btc_short_horizon/data/contracts.py: a slug and the start of a window determine each other.
use polymarket_btc.Prelude.Digits.{
  show, read, read-show, drop_prefix, drop_prefix_append, text_append,
}
use polymarket_btc.Prelude.{
  ltb, ◌==◌, ◌≤ℤ◌, ℤ, ◌>>◌, raise_if, bind-ok, raise_if-ok, Result, string_eq, pair_eq, pos, negsuc,
  ok, ℕ, ◌*◌, ◌/◌, ◌%◌, ◌≤◌, String, ◌≡◌, refl, sym, ap, ◌∙◌, ◌↔◌, false, not, Option, none, some,
  arith, str_eq, eq_iff,
}
use polymarket_btc.Data.Contracts.{
  MarketValidationError, wrong_slug, not_whole_seconds, not_aligned, BtcMarketFamily, int_mod,
  normalize_window_time, epoch_seconds, show_int, slug_head, slug_for, last_second, epoch_of,
  epoch_text, parse_slug,
}

-- The start of a window that a slug can name.
abbrev pub InRange : ℤ → Type 0
InRange t = (pos 0 ≤ℤ t) × (t ≤ℤ pos (last_second * 1_000_000))

ok_same : (s t : String) → ◌≡◌ {A = Result MarketValidationError String} (ok s) (ok t) → s ≡ t
ok_same s t h = ground arith

digits_of : (m : ℕ) → not (m % 1_000_000 == 0) ≡ false → m ≡ m / 1_000_000 * 1_000_000
digits_of m h = let zero_rest : m % 1_000_000 ≡ 0 = ground arith in omega (arith, zero_rest)

text_of :
    (f : BtcMarketFamily) (m : ℕ) (start : ℤ) (slug : String)
    → start ≡ pos m
    → (raise_if (not (int_mod (epoch_seconds start) f.window_seconds == 0)) not_aligned
        >> ok (text_append (slug_head f) (show_int (epoch_seconds start))))
      ≡ ok slug
    → slug ≡ text_append (slug_head f) (show (m / 1_000_000))
unfolding epoch_seconds show_int
text_of f m start slug e h =
    let (_, out) =
      raise_if-ok (not (int_mod (epoch_seconds start) f.window_seconds == 0)) not_aligned _ h in
    sym (ok_same _ _ out) ∙ rw e refl

slug_for-ok :
    (f : BtcMarketFamily) (m : ℕ) (slug : String)
    → slug_for f (pos m) ≡ ok slug
    → (m ≡ m / 1_000_000 * 1_000_000) × (slug ≡ text_append (slug_head f) (show (m / 1_000_000)))
unfolding slug_for normalize_window_time int_mod epoch_seconds show_int
slug_for-ok f m slug h =
    let (start, eq, next) = bind-ok (normalize_window_time (pos m)) _ h in
    let (whole, out) = raise_if-ok (not (m % 1_000_000 == 0)) not_whole_seconds _ eq in
    let same : start ≡ pos m = ground arith in (digits_of m whole, text_of f m start slug same next)

epoch_text-slug :
    (f : BtcMarketFamily) (n : ℕ)
    → n ≤ last_second
    → epoch_text (drop_prefix (slug_head f) (text_append (slug_head f) (show n))) ≡ ok n
unfolding epoch_text epoch_of
epoch_text-slug f n h = rw (drop_prefix_append (slug_head f) (show n), read-show n) (ground arith)

in_range : (n : ℕ) → n ≤ last_second → InRange (pos (n * 1_000_000))
in_range n h = (ground arith, ground arith)

epoch_of-le : (o : Option ℕ) (n : ℕ) → epoch_of o ≡ ok n → n ≤ last_second
unfolding epoch_of
epoch_of-le none n h = absurd (ground arith)
epoch_of-le (some k) n h =
    let (small, out) = raise_if-ok (ltb last_second k) wrong_slug _ h in
    let same : k ≡ n = ground arith in ground arith

epoch_text-le : (o : Option String) (n : ℕ) → epoch_text o ≡ ok n → n ≤ last_second
unfolding epoch_text
epoch_text-le none n h = absurd (ground arith)
epoch_text-le (some s) n h = epoch_of-le (read s) n h

parse-slug :
    (f : BtcMarketFamily) (m : ℕ) (slug : String)
    → m ≤ last_second * 1_000_000
    → slug_for f (pos m) ≡ ok slug
    → parse_slug f slug ≡ ok (pos m)
unfolding parse_slug
parse-slug f m slug r h =
    let (whole, text) = slug_for-ok f m slug h in
    let n = m / 1_000_000 in
    let digits : epoch_text (drop_prefix (slug_head f) slug) ≡ ok n =
      rw text (epoch_text-slug f n (omega arith)) in
    let again : slug_for f (pos (n * 1_000_000)) ≡ ok slug = rw (sym whole) h in
    rw (digits, again, (eq_iff slug slug).1 refl) (ap (λ k. ok (pos k)) (sym whole))

parse_slug-ok :
    (f : BtcMarketFamily) (slug : String) (t0 : ℤ)
    → parse_slug f slug ≡ ok t0
    → (slug_for f t0 ≡ ok slug) × InRange t0
unfolding parse_slug
parse_slug-ok f slug t0 h =
    let (n, eq, next) = bind-ok (epoch_text (drop_prefix (slug_head f) slug)) _ h in
    let (again, made, last) = bind-ok (slug_for f (pos (n * 1_000_000))) _ next in
    let (same, out) = raise_if-ok (not (str_eq again slug)) wrong_slug _ last in
    let text : again ≡ slug = ground (arith, eq_iff again slug) in
    let start : t0 ≡ pos (n * 1_000_000) = ground arith in
    let bound = epoch_text-le (drop_prefix (slug_head f) slug) n eq in
    rw start (rw text at made, in_range n bound)

from_start :
    (f : BtcMarketFamily) (slug : String) (t0 : ℤ)
    → slug_for f t0 ≡ ok slug
    → InRange t0
    → parse_slug f slug ≡ ok t0
from_start f slug (pos m) h (low, high) = parse-slug f m slug (ground arith) h
from_start f slug (negsuc m) h (low, high) = absurd (ground arith)

-- `parse_slug` returns a start exactly if `slug_for` returns the slug for that start, and the start is
-- not before 1970 nor after the last second of the year 9999: the two are inverse to each other.
pub parse_slug-slug_for :
    (f : BtcMarketFamily) (slug : String) (t0 : ℤ)
    → (parse_slug f slug ≡ ok t0) ↔ ((slug_for f t0 ≡ ok slug) × InRange t0)
parse_slug-slug_for f slug t0 = (parse_slug-ok f slug t0, λ h. from_start f slug t0 h.0 h.1)
