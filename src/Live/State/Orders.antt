-- ===== src/Live/State/Orders.antt =====
-- btc_short_horizon/live/state.py: what any sequence of updates keeps of a live order.
use polymarket_btc.Prelude.{
  Bool-cases, any, Result, string_eq, pair_eq, units, zero_f, ◌<f◌, ◌≤f◌, ◌+f◌, min_f,
  not_nonnegative, Float, nonnegative_units, ok, err, ℕ, ◌≤◌, String, ◌≡◌, refl, ◌∙◌, ◌⊎◌, inl, inr,
  Bool, true, false, Option, List, [], ◌∷◌, arith,
}
use polymarket_btc.Live.State.{
  StateError, LiveOrderStatus, created, signed, submitted, rejected, canceled, is_status,
  order_transitions, LiveOrder, make_order, text_or, transition_order, record_match,
}

-- What Python guarantees of every `LiveOrder` object.
abbrev pub IsValid : LiveOrder → Type 0
IsValid o = make_order o ≡ ok o

-- The sizes of a valid order in units.
pub record Sizes (o : LiveOrder) : Type 0 where
  pub size : ℕ
  pub matched : ℕ
  pub size_eq : o.size ≡ units size
  pub matched_eq : o.matched_size ≡ units matched
  pub positive : 1 ≤ size
  pub le : matched ≤ size

size_checks :
    (o : LiveOrder)
    → IsValid o
    → (not_nonnegative o.size ≡ false)
      × (not_nonnegative o.matched_size ≡ false)
      × ((o.size ≤f zero_f) ≡ false)
      × ((o.size <f o.matched_size) ≡ false)
unfolding make_order
size_checks o v = ground arith

pub IsValid-Sizes : (o : LiveOrder) → IsValid o → Sizes o
IsValid-Sizes o v =
    let (a, b, c, d) = size_checks o v in
    let (s, p) = nonnegative_units o.size a in
    let (k, q) = nonnegative_units o.matched_size b in
    record {
      size = s;
      matched = k;
      size_eq = p;
      matched_eq = q;
      positive = ground arith;
      le = ground arith;
    }

-- An update of an order: the method and its arguments.
pub data Update : Type 0 where
  to_status : LiveOrderStatus → Option String → Update
  add_match : Float → Update

unfoldable pub update : Update → LiveOrder → Result StateError LiveOrder
update (to_status s venue) = transition_order s venue
update (add_match m) = record_match m

-- An update that raises leaves the caller with the frozen order that it had.
keep : LiveOrder → Result StateError LiveOrder → LiveOrder
keep o (ok o') = o'
keep o (err _) = o

unfoldable pub updates : List Update → LiveOrder → LiveOrder
unfolding keep
updates [] o = o
updates (u ∷ us) o = updates us (keep o (update u o))

module _ (P : LiveOrder → Type 0)
    (step : (u : Update) (o o' : LiveOrder) → P o → update u o ≡ ok o' → P o') where
  keep_induction :
      (u : Update) (o : LiveOrder) (r : Result StateError LiveOrder)
      → update u o ≡ r
      → P o
      → P (keep o r)
  unfolding keep
  keep_induction u o (ok o') q h = step u o o' h q
  keep_induction u o (err _) q h = h

  pub updates_induction : (us : List Update) (o : LiveOrder) → P o → P (updates us o)
  unfolding updates
  updates_induction [] o h = h
  updates_induction (u ∷ us) o h =
      updates_induction us (keep o (update u o)) (keep_induction u o (update u o) refl h)

make_order-eq : (o o' : LiveOrder) → make_order o ≡ ok o' → o' ≡ o
unfolding make_order
make_order-eq o o' h = ground arith

make_order-IsValid : (o o' : LiveOrder) → make_order o ≡ ok o' → IsValid o'
make_order-IsValid o o' h = rw (make_order-eq o o' h) (cc (make_order-eq o o' h))

abbrev pub moved : LiveOrderStatus → Option String → LiveOrder → LiveOrder
moved s venue o = record o { status = s; venue_order_id = text_or venue o.venue_order_id }

abbrev pub matched : Float → LiveOrder → LiveOrder
matched m o = record o { matched_size = min_f o.size (o.matched_size +f m) }

-- A transition that succeeds changes nothing, or is in the table and builds the order anew.
pub transition_order-cases :
    (s : LiveOrderStatus) (venue : Option String) (o o' : LiveOrder)
    → transition_order s venue o ≡ ok o'
    → (o' ≡ o)
      ⊎ ((any (is_status s) (order_transitions o.status) ≡ true)
          × (o' ≡ moved s venue o)
          × (make_order (moved s venue o) ≡ ok o'))
unfolding transition_order
transition_order-cases s venue o o' h = elim (Bool-cases (is_status s o.status)) [
  | inl same ↦ inl (ground arith)
  | inr new ↦ inr (ground arith, ground (arith, make_order-eq (moved s venue o) o'), ground arith)
]

pub record_match-eq :
    (m : Float) (o o' : LiveOrder)
    → record_match m o ≡ ok o'
    → (o' ≡ matched m o) × (make_order (matched m o) ≡ ok o')
unfolding record_match
record_match-eq m o o' h = (ground (arith, make_order-eq (matched m o) o'), ground arith)

transition_order-IsValid :
    (s : LiveOrderStatus) (venue : Option String) (o o' : LiveOrder)
    → IsValid o
    → transition_order s venue o ≡ ok o'
    → IsValid o'
transition_order-IsValid s venue o o' v h = elim (transition_order-cases s venue o o' h) [
  | inl same ↦ rw same v
  | inr (_, _, built) ↦ make_order-IsValid (moved s venue o) o' built
]

pub update-IsValid : (u : Update) (o o' : LiveOrder) → IsValid o → update u o ≡ ok o' → IsValid o'
unfolding update
update-IsValid (to_status s venue) o o' v h = transition_order-IsValid s venue o o' v h
update-IsValid (add_match m) o o' v h =
    make_order-IsValid (matched m o) o' (record_match-eq m o o' h).1

-- The statuses that a venue can have given: an order never leaves them once it is in one.
abbrev pub is_acknowledged : LiveOrderStatus → Bool
is_acknowledged created = false
is_acknowledged signed = false
is_acknowledged submitted = false
is_acknowledged _ = true

abbrev pub is_ended : LiveOrderStatus → Bool
is_ended s = any (is_status s) (rejected ∷ canceled ∷ [])

-- No row of the table leads back before the venue's answer, or out of an ended order.
table_moves_on :
    (s t : LiveOrderStatus)
    → any (is_status t) (order_transitions s) ≡ true
    → (is_acknowledged s ≡ true → is_acknowledged t ≡ true) × (is_ended s ≡ false)
unfolding order_transitions
table_moves_on s t h = ground arith

update-status :
    (u : Update) (o o' : LiveOrder)
    → update u o ≡ ok o'
    → (is_acknowledged o.status ≡ true → is_acknowledged o'.status ≡ true)
      × (is_ended o.status ≡ true → o'.status ≡ o.status)
unfolding update
update-status (to_status s venue) o o' h = elim (transition_order-cases s venue o o' h) [
  | inl same ↦ rw same (λ a. a, λ e. refl)
  | inr (row, next, _) ↦
      let (on, not_ended) = table_moves_on o.status s row in
      rw next (on, λ e. absurd (ground arith))
]
update-status (add_match m) o o' h = rw (record_match-eq m o o' h).0 (λ a. a, λ e. refl)

-- From a valid order, any updates lead to a valid order.
pub updates-IsValid : (us : List Update) (o : LiveOrder) → IsValid o → IsValid (updates us o)
updates-IsValid = updates_induction IsValid update-IsValid

-- Once the venue has answered, no updates lead back to an order that is not yet submitted.
pub updates-is_acknowledged :
    (us : List Update) (o : LiveOrder)
    → is_acknowledged o.status ≡ true
    → is_acknowledged (updates us o).status ≡ true
updates-is_acknowledged =
    updates_induction (λ o. is_acknowledged o.status ≡ true)
      (λ u o o' a h. (update-status u o o' h).0 a)

-- A rejected or canceled order keeps its status, whatever the updates; matches are still added.
updates-is_ended :
    (us : List Update) (o : LiveOrder) → is_ended o.status ≡ true → (updates us o).status ≡ o.status
updates-is_ended us o e =
    (updates_induction (λ x. (is_ended x.status ≡ true) × (x.status ≡ o.status))
      (λ u x x' a h. let same = (update-status u x x' h).1 a.0 in (rw same a.0, same ∙ a.1)) us o
      (e, refl)).1
