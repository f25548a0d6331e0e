-- ===== src/Data/Quality/Streams.antt =====
-- btc_short_horizon/data/quality.py: what the accepted events of a stream look like.
use polymarket_btc.Prelude.{
  if◌then◌else◌, Bool-cases, ◌≤ℤ◌, ℤ, Result, string_eq, pair_eq, str_is_empty, ok, err, ℕ, ◌+◌,
  ◌<◌, String, ◌≡◌, refl, sym, ◌⊎◌, inl, inr, Bool, false, some, List, [], ◌∷◌, ◌++◌, arith,
}
use polymarket_btc.Data.Quality.{
  TimedMarketEvent, identifier_of, DataQualityDecision, Validator, QualityError, after_gap,
  on_duplicate, on_regression, on_accept, counted, mark_gap, regresses, observe,
}
use polymarket_btc.Data.Quality.Invariant.{
  IsValid, was_duplicate, was_regression, was_accepted, observe-Observed, observe-IsValid,
  remember-Rest, after_gap-IsValid,
}

-- What reaches the validator: an event, or a gap that the collector declares.
pub data Input : Type 0 where
  event : TimedMarketEvent → Input
  gap_declared : String → Input

after_mark : Validator → Result QualityError (DataQualityDecision × Validator) → Validator
after_mark v (ok r) = r.1
after_mark v (err _) = v

-- A gap with no reason raises, and leaves the validator as it was.
unfoldable pub feed : Input → Validator → Validator
unfolding after_mark
feed (event e) v = (observe e v).1
feed (gap_declared reason) v = after_mark v (mark_gap reason v)

-- The epoch and the time of an event that was accepted, in the list of what the caller stores.
unfoldable pub stored : Input → Validator → List (ℕ × ℤ)
stored (event e) v =
    let d = (observe e v).0 in if d.is_accepted then (d.epoch_id, e.available_ts) ∷ [] else []
stored (gap_declared reason) v = []

unfoldable pub feed_all : List Input → Validator → Validator
unfolding feed
feed_all [] v = v
feed_all (i ∷ is) v = feed_all is (feed i v)

unfoldable pub store_all : List Input → Validator → List (ℕ × ℤ)
unfolding stored feed
store_all [] v = []
store_all (i ∷ is) v = stored i v ++ store_all is (feed i v)

-- A declared gap marks the gap, or raises and changes nothing.
feed-gap :
    (reason : String) (v : Validator)
    → (feed (gap_declared reason) v ≡ v) ⊎ (feed (gap_declared reason) v ≡ after_gap v)
unfolding feed mark_gap
feed-gap reason v = elim (Bool-cases (str_is_empty reason)) [
  | inl empty ↦ inl (ground arith)
  | inr given ↦ inr (ground arith)
]

feed-IsValid : (i : Input) (v : Validator) → IsValid v → IsValid (feed i v)
unfolding feed
feed-IsValid (event e) v h = observe-IsValid e v h
feed-IsValid (gap_declared reason) v h = elim (feed-gap reason v) [
  | inl e ↦ rw e h
  | inr e ↦ rw e (after_gap-IsValid v h)
]

-- From a valid validator, whatever the stream: the set and the deque hold the same distinct
-- identifiers, at most as many as the limit, and every event is counted once.
pub feed_all-IsValid : (is : List Input) (v : Validator) → IsValid v → IsValid (feed_all is v)
unfolding feed_all
feed_all-IsValid [] v h = h
feed_all-IsValid (i ∷ is) v h = feed_all-IsValid is (feed i v) (feed-IsValid i v h)

-- Stored events come in order: an epoch never comes back, and within one time does not fall.
abbrev pub NotBefore : ℕ × ℤ → ℕ × ℤ → Type 0
NotBefore (m, s) (n, t) = (m < n) ⊎ ((m ≡ n) × (s ≤ℤ t))

abbrev pub IsOrderedFrom : ℕ × ℤ → List (ℕ × ℤ) → Type 0
IsOrderedFrom x [] = Unit
IsOrderedFrom x (y ∷ ys) = NotBefore x y × IsOrderedFrom y ys

abbrev pub IsOrdered : List (ℕ × ℤ) → Type 0
IsOrdered [] = Unit
IsOrdered (x ∷ xs) = IsOrderedFrom x xs

-- The last stored event against the state of the validator.
Behind : ℕ × ℤ → Validator → Type 0
Behind (n, t) v = (n < v.current_epoch) ⊎ ((n ≡ v.current_epoch) × (v.last_available_ts ≡ some t))

after_gap-Behind : (x : ℕ × ℤ) (v : Validator) → Behind x v → Behind x (after_gap v)
unfolding Behind after_gap
after_gap-Behind x v h = inl (omega (arith, h))

abbrev staled : Bool → Validator → Validator
staled stale v = record v {
  total_events = v.total_events + 1;
  stale_events = if stale then v.stale_events + 1 else v.stale_events;
}

-- An event that is accepted is the new last one; it comes after the one before it.
accept-Behind :
    (e : TimedMarketEvent) (stale : Bool) (v : Validator)
    → ((on_accept e stale (counted v)).0.epoch_id ≡ v.current_epoch)
      × ((on_accept e stale (counted v)).1.current_epoch ≡ v.current_epoch)
accept-Behind e stale v =
    let same = remember-Rest (identifier_of e) (staled stale v) in (rw same, rw same)

-- What one input does to the list of stored events, and to the state behind it.
data Fed (i : Input) (v : Validator) : Type 0 where
  nothing_stored : stored i v ≡ [] → ((x : ℕ × ℤ) → Behind x v → Behind x (feed i v)) → Fed i v
  one_stored :
      (y : ℕ × ℤ)
      → stored i v ≡ y ∷ []
      → ((x : ℕ × ℤ) → Behind x v → NotBefore x y)
      → Behind y (feed i v)
      → Fed i v

accepted-Fed :
    (e : TimedMarketEvent) (stale : Bool) (v : Validator)
    → regresses e.available_ts v.last_available_ts ≡ false
    → observe e v ≡ on_accept e stale (counted v)
    → Fed (event e) v
unfolding feed stored Behind
accepted-Fed e stale v on eq =
    let (epoch, epoch') = accept-Behind e stale v in
    one_stored (v.current_epoch, e.available_ts) (rw eq (rw epoch))
      (λ x b. elim b [ inl lt ↦ inl lt | inr (same, last) ↦ inr (same, ground arith) ])
      (rw (eq, feed) (inr (sym epoch', refl)))

dropped-Fed :
    (e : TimedMarketEvent) (v : Validator)
    → (observe e v ≡ on_duplicate (counted v)) ⊎ (observe e v ≡ on_regression (counted v))
    → Fed (event e) v
unfolding feed stored Behind after_gap
dropped-Fed e v h = elim h [
  | inl eq ↦ nothing_stored (rw eq) (λ x b. rw (eq, feed) b)
  | inr eq ↦ nothing_stored (rw eq) (λ x b. rw (eq, feed) (inl (omega (arith, b))))
]

feed-Fed : (i : Input) (v : Validator) → Fed i v
unfolding stored
feed-Fed (gap_declared reason) v = elim (feed-gap reason v) [
  | inl same ↦ nothing_stored refl (λ x b. rw same b)
  | inr marked ↦ nothing_stored refl (λ x b. rw marked (after_gap-Behind x v b))
]
feed-Fed (event e) v = elim (observe-Observed e v) [
  | was_duplicate _ eq ↦ dropped-Fed e v (inl eq)
  | was_regression _ eq ↦ dropped-Fed e v (inr eq)
  | was_accepted stale _ on eq ↦ accepted-Fed e stale v on eq
]

ordered_from :
    (is : List Input) (x : ℕ × ℤ) (v : Validator) → Behind x v → IsOrderedFrom x (store_all is v)
unfolding store_all
ordered_from [] x v h = tt
ordered_from (i ∷ is) x v h = elim (feed-Fed i v) [
  | nothing_stored none_new on ↦ rw none_new (ordered_from is x (feed i v) (on x h))
  | one_stored y one after now ↦ rw one (after x h, ordered_from is y (feed i v) now)
]

-- Whatever the stream and the state it starts in, the events that are stored come in order: the
-- epoch never falls, and within an epoch the available time never falls.
pub store_all-IsOrdered : (is : List Input) (v : Validator) → IsOrdered (store_all is v)
unfolding store_all
store_all-IsOrdered [] v = tt
store_all-IsOrdered (i ∷ is) v = elim (feed-Fed i v) [
  | nothing_stored none_new on ↦ rw none_new (store_all-IsOrdered is (feed i v))
  | one_stored y one after now ↦ rw one (ordered_from is y (feed i v) now)
]
