-- ===== src/Data/Contracts/Windows/Disjoint.antt =====
-- btc_short_horizon/data/contracts.py: the windows of one family do not overlap.
use polymarket_btc.Prelude.{
  ltb, ◌==◌, pos_part, neg_part, ◌+ℤ◌, ◌-ℤ◌, ◌≤ℤ◌, +ℤ_parts, eq_of_parts, int_laws, ℤ, bind-ok,
  raise_if-ok, ok-inj, str_is_empty, pos, negsuc, ok, ℕ, suc, Bool-cases, ltb→lt, ◌+◌, ◌-◌, ◌*◌,
  ◌/◌, ◌%◌, ◌≤◌, ◌<◌, String, ◌≡◌, sym, ap, ◌∙◌, ◌⊎◌, inl, inr, ◌||◌, true, false, not, arith,
  str_eq, eq_iff,
}
use polymarket_btc.Data.Contracts.{
  BtcMarketFamily, empty_text, wrong_slug, wrong_end, not_whole_seconds, not_aligned, make_family,
  is_slug_prefix, bad_slug_prefix, bad_window_seconds, int_mod, normalize_window_time,
  epoch_seconds, slug_for,
}
use polymarket_btc.Data.Contracts.Windows.{MarketWindow, duration, differ, make_window}

-- A time is so many windows after the epoch, or before it.
abbrev IsMultiple : ℕ → ℤ → Type 0
IsMultiple unit t = (a : ℕ) × (b : ℕ) × (pos_part t ≡ a * unit) × (neg_part t ≡ b * unit)

windows_between : (a b unit : ℕ) → a < b → a * unit + unit ≤ b * unit
windows_between a b unit h =
    let same : b ≡ suc a + (b - suc a) = omega arith in rw same (omega arith)

multiples_apart :
    (unit : ℕ) (s t : ℤ)
    → IsMultiple unit s
    → IsMultiple unit t
    → (s ≡ t)
      ⊎ ((pos_part s + unit + neg_part t ≤ pos_part t + neg_part s)
          ⊎ (pos_part t + unit + neg_part s ≤ pos_part s + neg_part t))
multiples_apart unit s t (a, b, ha, hb) (c, d, hc, hd) = elim (Bool-cases (ltb (a + d) (c + b))) [
  | inl e ↦
      let apart = windows_between (a + d) (c + b) unit (ltb→lt _ _ e) in
      inr (inl (omega (arith, apart, ha, hb, hc, hd)))
  | inr e ↦ elim (Bool-cases (ltb (c + b) (a + d))) [
    | inl e' ↦
        let apart = windows_between (c + b) (a + d) unit (ltb→lt _ _ e') in
        inr (inr (omega (arith, apart, ha, hb, hc, hd)))
    | inr e' ↦
        let same : a + d ≡ c + b = ground arith in
        let scaled : (a + d) * unit ≡ (c + b) * unit = ap (λ x. x * unit) same in
        inl (eq_of_parts s t (omega (arith, scaled, ha, hb, hc, hd)))
  ]
]

scaled : (n a b w : ℕ) → n ≡ a * 1_000_000 → a ≡ b * w → n ≡ b * (w * 1_000_000)
scaled n a b w h k = omega (arith, h, k)

rest_before :
    (w m : ℕ) → 0 < m → not (int_mod (pos 0 -ℤ pos m) w == 0) ≡ false → w - 1 - (m - 1) % w ≡ 0
unfolding int_mod ◌-ℤ◌
rest_before w m l h = ground arith

last_of : (w m : ℕ) → 0 < w → 0 < m → w - 1 - (m - 1) % w ≡ 0 → m ≡ ((m - 1) / w + 1) * w
last_of w m l p h = omega arith

-- The start of a window that has a slug.
aligned :
    (w : ℕ) (t : ℤ)
    → 0 < w
    → not (int_mod t 1_000_000 == 0) ≡ false
    → not (int_mod (epoch_seconds t) w == 0) ≡ false
    → IsMultiple (w * 1_000_000) t
unfolding int_mod epoch_seconds
aligned w (pos n) l h k =
    let whole : n % 1_000_000 ≡ 0 = ground arith in
    let rest : n / 1_000_000 % w ≡ 0 = ground arith in
    (
      n / 1_000_000 / w,
      0,
      scaled n (n / 1_000_000) (n / 1_000_000 / w) w (omega (arith, whole)) (omega (arith, rest)),
      omega arith,
    )
aligned w (negsuc n) l h k =
    let whole : n % 1_000_000 ≡ 999_999 = ground arith in
    let cut : suc n ≡ (n + 1) / 1_000_000 * 1_000_000 = omega (arith, whole) in
    let rest : w - 1 - ((n + 1) / 1_000_000 - 1) % w ≡ 0 =
      rest_before w ((n + 1) / 1_000_000) (omega (arith, cut)) k in
    (
      0,
      ((n + 1) / 1_000_000 - 1) / w + 1,
      omega arith,
      scaled (suc n) ((n + 1) / 1_000_000) (((n + 1) / 1_000_000 - 1) / w + 1) w cut
          (last_of w ((n + 1) / 1_000_000) l (omega (arith, cut)) rest),
    )

make_family-positive : (f g : BtcMarketFamily) → make_family f ≡ ok g → 0 < f.window_seconds
unfolding make_family
make_family-positive f g h =
    let (_, h1) = raise_if-ok (str_is_empty f.name) empty_text _ h in
    let (_, h2) = raise_if-ok (str_is_empty f.slug_prefix) empty_text _ h1 in
    let (_, h3) = raise_if-ok (not (is_slug_prefix true f.slug_prefix)) bad_slug_prefix _ h2 in
    let (positive, _) =
      raise_if-ok (f.window_seconds == 0 || not (f.window_seconds % 60 == 0)) bad_window_seconds _
        h3 in
    ground arith

same_time :
    (t start : ℤ)
    → normalize_window_time t ≡ ok start
    → (t ≡ start) × (not (int_mod t 1_000_000 == 0) ≡ false)
unfolding normalize_window_time
same_time t start h =
    let (whole, out) = raise_if-ok (not (int_mod t 1_000_000 == 0)) not_whole_seconds _ h in
    (ok-inj out, whole)

slug_for-IsMultiple :
    (f : BtcMarketFamily) (t : ℤ) (slug : String)
    → 0 < f.window_seconds
    → slug_for f t ≡ ok slug
    → IsMultiple (duration f) t
unfolding slug_for
slug_for-IsMultiple f t slug l h =
    let (start, normal, next) = bind-ok (normalize_window_time t) _ h in
    let (same, whole) = same_time t start normal in
    let (on_grid, _) =
      raise_if-ok (not (int_mod (epoch_seconds start) f.window_seconds == 0)) not_aligned _ next in
    aligned f.window_seconds t l whole (rw same on_grid)

-- The window starts where its slug says, and lasts as long as its family says.
IsWindow : MarketWindow → Type 0
IsWindow w = (slug_for w.family w.t0 ≡ ok w.slug) × (w.t1 ≡ w.t0 +ℤ pos (duration w.family))

same_end : (a b : ℤ) → differ a b ≡ false → a ≡ b
unfolding differ
same_end a b h = eq_of_parts a b (ground arith)

same_text : (s t : String) → not (str_eq s t) ≡ false → s ≡ t
same_text s t h = grind (arith, eq_iff)

from_checks :
    (w : MarketWindow) (start end : ℤ) (expected : String)
    → w.t0 ≡ start
    → w.t1 ≡ end
    → w.slug ≡ expected
    → slug_for w.family start ≡ ok expected
    → end ≡ start +ℤ pos (duration w.family)
    → IsWindow w
unfolding IsWindow
from_checks w start end expected t0 t1 slug named over = (rw (t0, slug) named, t1 ∙ rw t0 over)

make_window-IsWindow : (w v : MarketWindow) → make_window w ≡ ok v → IsWindow w
unfolding make_window IsWindow
make_window-IsWindow w v h =
    let (_, h1) = raise_if-ok (str_is_empty w.slug) empty_text _ h in
    let (start, n0, h2) = bind-ok (normalize_window_time w.t0) _ h1 in
    let (end, n1, h3) = bind-ok (normalize_window_time w.t1) _ h2 in
    let (expected, named, h4) = bind-ok (slug_for w.family start) _ h3 in
    let (same, h5) = raise_if-ok (not (str_eq w.slug expected)) wrong_slug _ h4 in
    let (at_end, _) = raise_if-ok (differ end (start +ℤ pos (duration w.family))) wrong_end _ h5 in
    from_checks w start end expected (same_time w.t0 start n0).0 (same_time w.t1 end n1).0
      (same_text w.slug expected same) named (same_end end _ at_end)

apart :
    (s t e : ℤ) (unit : ℕ)
    → e ≡ s +ℤ pos unit
    → pos_part s + unit + neg_part t ≤ pos_part t + neg_part s
    → e ≤ℤ t
apart s t e unit h le = rw h (omega (int_laws, +ℤ_parts s (pos unit), le))

same_slug :
    (w v : MarketWindow)
    → w.family ≡ v.family
    → slug_for w.family w.t0 ≡ ok w.slug
    → slug_for v.family v.t0 ≡ ok v.slug
    → w.t0 ≡ v.t0
    → w.slug ≡ v.slug
same_slug w v g h k e = ok-inj (sym h ∙ ap (λ x. slug_for x w.t0) g ∙ ap (slug_for v.family) e ∙ k)

-- Two windows of one family, which have all passed their checks, have the same slug, or one of them ends
-- before the other starts or as it does.
pub make_window-IsApart :
    (w v w' v' : MarketWindow)
    → make_family w.family ≡ ok w.family
    → w.family ≡ v.family
    → make_window w ≡ ok w'
    → make_window v ≡ ok v'
    → (w.slug ≡ v.slug) ⊎ ((w.t1 ≤ℤ v.t0) ⊎ (v.t1 ≤ℤ w.t0))
unfolding IsWindow
make_window-IsApart w v w' v' made g h k =
    let l = make_family-positive w.family w.family made in
    let (slug_w, end_w) = make_window-IsWindow w w' h in
    let (slug_v, end_v) = make_window-IsWindow v v' k in
    let on_w = slug_for-IsMultiple w.family w.t0 w.slug l slug_w in
    let on_v : IsMultiple (duration w.family) v.t0 =
      slug_for-IsMultiple w.family v.t0 v.slug l (rw g slug_v) in
    elim (multiples_apart (duration w.family) w.t0 v.t0 on_w on_v) [
      | inl e ↦ inl (same_slug w v g slug_w slug_v e)
      | inr (inl le) ↦ inr (inl (apart w.t0 v.t0 w.t1 (duration w.family) end_w le))
      | inr (inr le) ↦ inr (inr (apart v.t0 w.t0 v.t1 (duration w.family) (rw g end_v) le))
    ]
