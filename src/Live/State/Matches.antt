-- ===== src/Live/State/Matches.antt =====
-- btc_short_horizon/live/state.py: the matched size of a live order.
use polymarket_btc.Prelude.{
  string_eq, pair_eq, units, tolerance, ◌<f◌, ◌≤f◌, ◌+f◌, min_f, not_nonnegative, Float,
  nonnegative_units, units-+f, min_f-units, units-≤f, units-<f, ≤f-trans, ok, ℕ, ◌+◌, ◌≤◌, ◌≡◌,
  refl, ap, ◌∙◌, inl, inr, true, false, List, arith,
}
use Prim.Native.Nat.{min}
use polymarket_btc.Live.State.{LiveOrder, record_match}
use polymarket_btc.Live.State.Orders.{
  IsValid, Sizes, IsValid-Sizes, Update, to_status, add_match, update, updates, updates_induction,
  update-IsValid, matched, transition_order-cases, record_match-eq,
}

match_guards :
    (m : Float) (o o' : LiveOrder)
    → record_match m o ≡ ok o'
    → (not_nonnegative m ≡ false) × ((o.size +f tolerance <f o.matched_size +f m) ≡ false)
unfolding record_match
match_guards m o o' h = ground arith

abbrev pub with_matched : ℕ → LiveOrder → LiveOrder
with_matched k o = record o { matched_size = units k }

pub matched-units :
    (k : ℕ) (m : Float) (o : LiveOrder)
    → (n : Sizes o) → m ≡ units k
    → matched m o ≡ with_matched (min n.size (n.matched + k)) o
matched-units k m o n e = ap (λ x. record o { matched_size = x }) sized
  where
    sized : min_f o.size (o.matched_size +f m) ≡ units (min n.size (n.matched + k))
    sized = rw (n.size_eq, n.matched_eq, e, units-+f) (min_f-units n.size (n.matched + k))

-- A match that is accepted, in units: it may pass the size by the tolerance, and is cut to it.
pub record_match-units :
    (m : Float) (o o' : LiveOrder)
    → (n : Sizes o) → record_match m o ≡ ok o'
    → (k : ℕ) × (m ≡ units k)
      × (n.matched + k ≤ n.size + 1)
      × (o' ≡ with_matched (min n.size (n.matched + k)) o)
record_match-units m o o' n h =
    let (a, b) = match_guards m o o' h in
    let (k, e) = nonnegative_units m a in
    (
      k,
      e,
      units-<f _ _ (rw (n.size_eq, n.matched_eq, e, units-+f, units-+f) at b),
      (record_match-eq m o o' h).0 ∙ matched-units k m o n e,
    )

-- A match never lowers the matched size, and no update changes the size of the order.
update-matched :
    (u : Update) (o o' : LiveOrder)
    → IsValid o
    → update u o ≡ ok o'
    → ((o.matched_size ≤f o'.matched_size) ≡ true) × (o'.size ≡ o.size)
unfolding update
update-matched (to_status s venue) o o' v h =
    let n = IsValid-Sizes o v in
    let same : (o.matched_size ≤f o.matched_size) ≡ true =
      rw n.matched_eq (units-≤f _ _ (omega arith)) in
    elim (transition_order-cases s venue o o' h) [
      | inl e ↦ rw e (same, refl)
      | inr (_, e, _) ↦ rw e (same, refl)
    ]
update-matched (add_match m) o o' v h =
    let n = IsValid-Sizes o v in
    let (k, _, _, next) = record_match-units m o o' n h in
    rw next (
      rw n.matched_eq (units-≤f n.matched (min n.size (n.matched + k)) (omega (arith, n.le))),
      refl,
    )

abbrev Grown : LiveOrder → LiveOrder → Type 0
Grown o x = IsValid x × ((o.matched_size ≤f x.matched_size) ≡ true) × (x.size ≡ o.size)

Grown-step :
    (o : LiveOrder) (u : Update) (x x' : LiveOrder) → Grown o x → update u x ≡ ok x' → Grown o x'
Grown-step o u x x' (v, le, same) h =
    let (le', same') = update-matched u x x' v h in
    (
      update-IsValid u x x' v h,
      ≤f-trans o.matched_size x.matched_size x'.matched_size le le',
      same' ∙ same,
    )

matched_reflexive : (o : LiveOrder) → IsValid o → (o.matched_size ≤f o.matched_size) ≡ true
matched_reflexive o v =
    let n = IsValid-Sizes o v in rw n.matched_eq (units-≤f n.matched n.matched (omega arith))

matched_within : (o : LiveOrder) → IsValid o → (o.matched_size ≤f o.size) ≡ true
matched_within o v =
    let n = IsValid-Sizes o v in rw (n.matched_eq, n.size_eq) (units-≤f n.matched n.size n.le)

-- Over any updates of a valid order the matched size never falls and never passes the size of the
-- order, which stays as it was.
pub updates-matched_size :
    (us : List Update) (o : LiveOrder)
    → IsValid o
    → ((o.matched_size ≤f (updates us o).matched_size) ≡ true)
      × (((updates us o).matched_size ≤f o.size) ≡ true)
      × ((updates us o).size ≡ o.size)
updates-matched_size us o v =
    let (v', le, same) =
      updates_induction (Grown o) (Grown-step o) us o (v, matched_reflexive o v, refl) in
    (le, rw same at (matched_within (updates us o) v'), same)
