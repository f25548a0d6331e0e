-- ===== src/Data/Quality/Invariant.antt =====
-- btc_short_horizon/data/quality.py: the invariant of the validator.
use polymarket_btc.Prelude.{
  if◌then◌else◌, Bool-cases, if_holds, ◌+ℤ◌, ◌≤ℤ◌, ltb_ℤ, int_laws, ℤ, length, length-append,
  string_eq, pair_eq, member, add, Distinct, SameMembers, Distinct-append, SameMembers-add,
  SameMembers-discard, pos, ok, ◌+◌, ◌≤◌, String, ◌≡◌, refl, sym, ◌∙◌, inl, inr, Bool, true, false,
  List, [], ◌∷◌, ◌++◌, arith,
}
use polymarket_btc.Data.Quality.{
  TimedMarketEvent, Identifier, identifier_of, DataQualityDecision, Validator, init, initial,
  after_gap, on_duplicate, on_regression, on_accept, counted, mark_gap, drop_oldest, remember,
  stale_of, regresses, observe,
}

pub record IsValid (v : Validator) : Type 0 where
  pub same : SameMembers v.seen_identifiers v.seen_order
  pub distinct : Distinct v.seen_order
  pub bounded : pos (length v.seen_order) ≤ℤ v.max_seen_identifiers
  pub positive : pos 1 ≤ℤ v.max_seen_identifiers
  pub total : v.total_events ≡ v.accepted_events + v.duplicate_events + v.out_of_order_events
  pub epochs : v.current_epoch ≡ v.gap_events
  pub regressions : v.out_of_order_events ≤ v.gap_events
  pub stale : v.stale_events ≤ v.accepted_events

pub init-IsValid : (m d : ℤ) {v : Validator} → init m d ≡ ok v → IsValid v
unfolding init
init-IsValid m d {v} h =
    let same : v ≡ initial m d = ground arith in
    rw same (record {
      same = λ k. refl;
      distinct = tt;
      bounded = ground arith;
      positive = ground arith;
      total = refl;
      epochs = refl;
      regressions = omega arith;
      stale = omega arith;
    })

pub after_gap-IsValid : (v : Validator) → IsValid v → IsValid (after_gap v)
unfolding after_gap
after_gap-IsValid v i = record {
  same = λ k. refl;
  distinct = tt;
  bounded = omega (arith, i.positive);
  positive = i.positive;
  total = i.total;
  epochs = omega (arith, i.epochs);
  regressions = omega (arith, i.regressions);
  stale = i.stale;
}

pub mark_gap-IsValid :
    (reason : String) (v : Validator) {d : DataQualityDecision} {v' : Validator}
    → IsValid v
    → mark_gap reason v ≡ ok (d, v')
    → IsValid v'
unfolding mark_gap
mark_gap-IsValid reason v {d} {v'} i h =
    let same : v' ≡ after_gap v = ground arith in rw same (after_gap-IsValid v i)

-- What `remember` needs of the validator, and what it leaves alone.
pub record Window (v : Validator) : Type 0 where
  pub same : SameMembers v.seen_identifiers v.seen_order
  pub distinct : Distinct v.seen_order
  pub bounded : pos (length v.seen_order) ≤ℤ v.max_seen_identifiers
  pub positive : pos 1 ≤ℤ v.max_seen_identifiers

evict :
    (v : Validator) (s q : List Identifier)
    → SameMembers s q
    → Distinct q
    → pos (length q) ≤ℤ v.max_seen_identifiers +ℤ pos 1
    → pos 1 ≤ℤ v.max_seen_identifiers
    → Window (drop_oldest (record v { seen_identifiers = s; seen_order = q }) q)
evict v s [] h d b p = record { same = h; distinct = d; bounded = omega int_laws; positive = p }
evict v s (j ∷ q) h d b p = record {
  same = SameMembers-discard j s q h d.0;
  distinct = d.1;
  bounded = omega int_laws;
  positive = p;
}

pub remember-Window :
    (k : Identifier) (v : Validator)
    → Window v
    → member k v.seen_identifiers ≡ false
    → Window (remember k v)
unfolding remember
remember-Window k v w new =
    let set = SameMembers-add k v.seen_identifiers v.seen_order w.same in
    let once = Distinct-append k v.seen_order w.distinct (sym (w.same k) ∙ new) in
    if_holds Window (ltb_ℤ v.max_seen_identifiers (pos (length (v.seen_order ++ k ∷ []))))
      (λ over.
        evict v (add k v.seen_identifiers) (v.seen_order ++ k ∷ []) set once
          (omega (int_laws, length-append v.seen_order (k ∷ []))) w.positive)
      (λ fits. record {
        same = set;
        distinct = once;
        bounded = ground arith;
        positive = w.positive;
      })

abbrev Rest : Validator → Validator → Type 0
Rest v x = x ≡ record v { seen_identifiers = x.seen_identifiers; seen_order = x.seen_order }

drop_oldest-Rest :
    (v : Validator) (s q l : List Identifier)
    → Rest v (drop_oldest (record v { seen_identifiers = s; seen_order = q }) l)
drop_oldest-Rest v s q [] = refl
drop_oldest-Rest v s q (j ∷ l) = refl

-- `remember` touches nothing but the set and the deque.
pub remember-Rest : (k : Identifier) (v : Validator) → Rest v (remember k v)
unfolding remember
remember-Rest k v =
    if_holds (Rest v) (ltb_ℤ v.max_seen_identifiers (pos (length (v.seen_order ++ k ∷ []))))
      (λ _. drop_oldest-Rest v _ _ (v.seen_order ++ k ∷ [])) (λ _. refl)

-- The counters of a validator that has counted an event and not yet said what became of it.
record Counting (v : Validator) : Type 0 where
  window : Window v
  total : v.total_events ≡ v.accepted_events + v.duplicate_events + v.out_of_order_events + 1
  epochs : v.current_epoch ≡ v.gap_events
  regressions : v.out_of_order_events ≤ v.gap_events
  stale : v.stale_events ≤ v.accepted_events

counted-Counting : (v : Validator) → IsValid v → Counting (counted v)
counted-Counting v i = record {
  window = record {
    same = i.same;
    distinct = i.distinct;
    bounded = i.bounded;
    positive = i.positive;
  };
  total = omega (arith, i.total);
  epochs = i.epochs;
  regressions = i.regressions;
  stale = i.stale;
}

on_duplicate-IsValid : (v : Validator) → Counting v → IsValid (on_duplicate v).1
on_duplicate-IsValid v c = record {
  same = c.window.same;
  distinct = c.window.distinct;
  bounded = c.window.bounded;
  positive = c.window.positive;
  total = omega (arith, c.total);
  epochs = c.epochs;
  regressions = c.regressions;
  stale = c.stale;
}

on_regression-IsValid : (v : Validator) → Counting v → IsValid (on_regression v).1
unfolding after_gap
on_regression-IsValid v c = record {
  same = λ k. refl;
  distinct = tt;
  bounded = omega (arith, c.window.positive);
  positive = c.window.positive;
  total = omega (arith, c.total);
  epochs = omega (arith, c.epochs);
  regressions = omega (arith, c.regressions);
  stale = c.stale;
}

on_accept-IsValid :
    (e : TimedMarketEvent) (stale : Bool) (v : Validator)
    → Counting v
    → member (identifier_of e) v.seen_identifiers ≡ false
    → IsValid (on_accept e stale v).1
on_accept-IsValid e stale v c new =
    let u = record v { stale_events = if stale then v.stale_events + 1 else v.stale_events } in
    let w =
      remember-Window (identifier_of e) u
        (record {
          same = c.window.same;
          distinct = c.window.distinct;
          bounded = c.window.bounded;
          positive = c.window.positive;
        })
        new in
    let same = remember-Rest (identifier_of e) u in
    record {
      same = w.same;
      distinct = w.distinct;
      bounded = w.bounded;
      positive = w.positive;
      total = rw same (omega (arith, c.total));
      epochs = rw same c.epochs;
      regressions = rw same c.regressions;
      stale = rw same (ground (arith, c.stale));
    }

-- How `observe` ends, with the tests that led there.
pub data Observed (e : TimedMarketEvent) (v : Validator) : Type 0 where
  was_duplicate :
      member (identifier_of e) v.seen_identifiers ≡ true
      → observe e v ≡ on_duplicate (counted v)
      → Observed e v
  was_regression :
      regresses e.available_ts v.last_available_ts ≡ true
      → observe e v ≡ on_regression (counted v)
      → Observed e v
  was_accepted :
      (stale : Bool)
      → member (identifier_of e) v.seen_identifiers ≡ false
      → regresses e.available_ts v.last_available_ts ≡ false
      → observe e v ≡ on_accept e stale (counted v)
      → Observed e v

pub observe-Observed : (e : TimedMarketEvent) (v : Validator) → Observed e v
unfolding observe
observe-Observed e v = elim (Bool-cases (member (identifier_of e) v.seen_identifiers)) [
  | inl old ↦ was_duplicate old (rw old)
  | inr new ↦ elim (Bool-cases (regresses e.available_ts v.last_available_ts)) [
    | inl back ↦ was_regression back (rw (new, back))
    | inr on ↦
        was_accepted (stale_of v.max_transport_delay e.source_ts e.collector_receive_ts) new on
          (rw (new, on))
  ]
]

-- Every observation keeps the invariant, whatever the event.
pub observe-IsValid : (e : TimedMarketEvent) (v : Validator) → IsValid v → IsValid (observe e v).1
observe-IsValid e v i =
    let c = counted-Counting v i in
    elim (observe-Observed e v) [
      | was_duplicate _ eq ↦ rw eq (on_duplicate-IsValid (counted v) c)
      | was_regression _ eq ↦ rw eq (on_regression-IsValid (counted v) c)
      | was_accepted stale new _ eq ↦ rw eq (on_accept-IsValid e stale (counted v) c new)
    ]
