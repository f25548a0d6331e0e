-- ===== src/Live/Service/Cumulative.antt =====
-- btc_short_horizon/live/service.py: an order event carries the whole matched size, so it may come
-- twice.
use polymarket_btc.Prelude.{
  zero_f, ◌-ℤ◌, string_eq, pair_eq, units, tolerance, ◌<f◌, ◌+f◌, ◌-f◌, min_f, not_nonnegative,
  Float, units-+f, units--f, min_f-units, ok, fin, inf, neg_inf, nan, ℕ, ◌+◌, ◌-◌, ◌≤◌, ◌≡◌, refl,
  sym, ap, ◌∙◌, false, arith,
}
use Prim.Native.Nat.{min}
use polymarket_btc.Live.State.{LiveOrder, record_match, make_order}
use polymarket_btc.Live.State.Orders.{
  IsValid, Sizes, IsValid-Sizes, matched, update-IsValid, add_match, update,
}
use polymarket_btc.Live.State.Matches.{record_match-units, with_matched, matched-units}
use polymarket_btc.Live.Service.Reconcile.{record_cumulative_match}

-- The result of a cumulative report is that of one match of the difference.
cumulative_inversion :
    (o o' : LiveOrder) (c : Float)
    → record_cumulative_match o c ≡ ok o'
    → ((c <f o.matched_size) ≡ false) × (record_match (c -f o.matched_size) o ≡ ok o')
unfolding record_cumulative_match
cumulative_inversion o o' c h = (ground arith, ground arith)

units_of_difference : (c : Float) (a k : ℕ) → (c -f units a) ≡ units k → c ≡ units (a + k)
unfolding ◌-f◌ ◌-ℤ◌
units_of_difference (fin z) a k h = ground arith
units_of_difference inf a k h = ground arith
units_of_difference neg_inf a k h = ground arith
units_of_difference nan a k h = ground arith

-- The reported size in units, as far as it is accepted.
pub record Reported (o : LiveOrder) (c : Float) (o' : LiveOrder) : Type 0 where
  pub sizes : Sizes o
  pub total : ℕ
  pub total_eq : c ≡ units total
  pub from : sizes.matched ≤ total
  pub to : total ≤ sizes.size + 1
  pub next : o' ≡ with_matched (min sizes.size total) o

pub record_cumulative_match-Reported :
    (o o' : LiveOrder) (c : Float)
    → IsValid o
    → record_cumulative_match o c ≡ ok o'
    → Reported o c o'
record_cumulative_match-Reported o o' c v h =
    let n = IsValid-Sizes o v in
    let (no_less, m) = cumulative_inversion o o' c h in
    let (k, e, room, next) = record_match-units (c -f o.matched_size) o o' n m in
    record {
      sizes = n;
      total = n.matched + k;
      total_eq = units_of_difference c n.matched k (rw n.matched_eq at e);
      from = omega arith;
      to = room;
      next = next;
    }

-- A match that leaves the matched size as it is leaves the order as it is.
record_match-same :
    (o : LiveOrder) (k : ℕ)
    → IsValid o
    → (n : Sizes o) → n.matched + k ≤ n.size + 1
    → min n.size (n.matched + k) ≡ n.matched
    → record_match (units k) o ≡ ok o
unfolding record_match
record_match-same o k v n room same =
    let still : matched (units k) o ≡ o =
      matched-units k (units k) o n refl
      ∙ ap (λ x. record o { matched_size = x }) (ap units same ∙ sym n.matched_eq) in
    let number : not_nonnegative (units k) ≡ false = ground arith in
    let fits : (o.size +f tolerance <f o.matched_size +f units k) ≡ false =
      rw (n.size_eq, n.matched_eq, units-+f n.size 1, units-+f n.matched k)
        (ground (arith, room)) in
    rw (number, fits) (ap make_order still ∙ v)

repeat_of :
    (o o' : LiveOrder) (c : Float)
    → IsValid o'
    → (r : Reported o c o') → record_cumulative_match o' c ≡ ok o'
unfolding record_cumulative_match
repeat_of o o' c v r =
    let n = IsValid-Sizes o' v in
    let size : n.size ≡ r.sizes.size = ground (arith, n.size_eq, r.sizes.size_eq, r.next) in
    let now : n.matched ≡ min r.sizes.size r.total = ground (arith, n.matched_eq, r.next) in
    let same : record_match (units (r.total - n.matched)) o' ≡ ok o' =
      record_match-same o' (r.total - n.matched) v n (omega (arith, r.to)) (omega (arith, r.to)) in
    let rest : (c -f o'.matched_size) ≡ units (r.total - n.matched) =
      rw (r.total_eq, n.matched_eq) (units--f r.total n.matched (omega arith)) in
    let no_less : (c <f o'.matched_size) ≡ false =
      rw (r.total_eq, n.matched_eq) (ground (arith, now)) in
    rw (no_less, rest, same) refl

-- In exact numbers a report that was accepted changes nothing when it comes again.
record_cumulative_match-exact :
    (o o' : LiveOrder) (c : Float)
    → IsValid o
    → record_cumulative_match o c ≡ ok o'
    → (o' ≡ record o { matched_size = min_f o.size c }) × (record_cumulative_match o' c ≡ ok o')
unfolding update
record_cumulative_match-exact o o' c v h =
    let r = record_cumulative_match-Reported o o' c v h in
    let (_, m) = cumulative_inversion o o' c h in
    (
      r.next
          ∙ ap (λ x. record o { matched_size = x })
              (rw (r.sizes.size_eq, r.total_eq) (sym (min_f-units r.sizes.size r.total))),
      repeat_of o o' c (update-IsValid (add_match (c -f o.matched_size)) o o' v m) r,
    )

-- On a valid order with nothing matched yet, where the sums of the method are exact in binary numbers too:
-- a report of the matched size that is accepted sets the matched size to the reported one, cut to the size
-- of the order, and changes nothing when it comes again.
pub record_cumulative_match-repeat :
    (o o' : LiveOrder) (c : Float)
    → IsValid o
    → o.matched_size ≡ zero_f
    → record_cumulative_match o c ≡ ok o'
    → (o' ≡ record o { matched_size = min_f o.size c }) × (record_cumulative_match o' c ≡ ok o')
record_cumulative_match-repeat o o' c v _ h = record_cumulative_match-exact o o' c v h
