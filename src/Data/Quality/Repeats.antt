-- ===== src/Data/Quality/Repeats.antt =====
-- btc_short_horizon/data/quality.py: a repeated event is rejected.
use polymarket_btc.Prelude.{
  if◌then◌else◌, if_holds, ◌≤ℤ◌, ltb_ℤ, length, string_eq, pair_eq, beq_refl, member, add,
  member-append, pos, ◌+◌, ◌≡◌, ◌∙◌, Bool, true, false, List, [], ◌∷◌, ◌++◌, arith,
}
use polymarket_btc.Data.Quality.{
  TimedMarketEvent, Identifier, identifier_of, Validator, duplicate, on_accept, counted,
  drop_oldest, remember, observe,
}
use polymarket_btc.Data.Quality.Invariant.{
  IsValid, was_duplicate, was_regression, was_accepted, observe-Observed, remember-Window,
}

-- The newest identifier is the last of the deque, so it is not the one that is dropped.
newest_kept :
    (k : Identifier) (v : Validator) (q : List Identifier)
    → pos 1 ≤ℤ v.max_seen_identifiers
    → ltb_ℤ v.max_seen_identifiers (pos (length (q ++ k ∷ []))) ≡ true
    → member k (drop_oldest v (q ++ k ∷ [])).seen_order ≡ true
newest_kept k v [] p over = absurd (ground arith)
newest_kept k v (j ∷ q) p over = rw (member-append, beq_refl k)

remember-seen_order :
    (k : Identifier) (v : Validator)
    → pos 1 ≤ℤ v.max_seen_identifiers
    → member k (remember k v).seen_order ≡ true
unfolding remember
remember-seen_order k v p =
    if_holds (λ (x : Validator). member k x.seen_order ≡ true)
      (ltb_ℤ v.max_seen_identifiers (pos (length (v.seen_order ++ k ∷ []))))
      (λ over.
        newest_kept k
          (record v {
            seen_identifiers = add k v.seen_identifiers;
            seen_order = v.seen_order ++ k ∷ [];
          })
          v.seen_order p over)
      (λ _. rw (member-append, beq_refl k))

on_accept-seen :
    (e : TimedMarketEvent) (stale : Bool) (v : Validator)
    → IsValid v
    → member (identifier_of e) v.seen_identifiers ≡ false
    → member (identifier_of e) (on_accept e stale (counted v)).1.seen_identifiers ≡ true
on_accept-seen e stale v i new =
    let u = record v {
      total_events = v.total_events + 1;
      stale_events = if stale then v.stale_events + 1 else v.stale_events;
    } in
    let w =
      remember-Window (identifier_of e) u
        (record {
          same = i.same;
          distinct = i.distinct;
          bounded = i.bounded;
          positive = i.positive;
        })
        new in
    w.same (identifier_of e) ∙ remember-seen_order (identifier_of e) u i.positive

observe-member :
    (e : TimedMarketEvent) (v : Validator)
    → member (identifier_of e) v.seen_identifiers ≡ true
    → (observe e v).0.reason ≡ duplicate
unfolding observe
observe-member e v h = rw h

-- In a valid state, an event that was accepted is rejected as a duplicate when it comes again at once.
observe-observe :
    (e : TimedMarketEvent) (v : Validator)
    → IsValid v
    → (observe e v).0.is_accepted ≡ true
    → (observe e (observe e v).1).0.reason ≡ duplicate
observe-observe e v i a = elim (observe-Observed e v) [
  | was_duplicate _ eq ↦ absurd (ground arith)
  | was_regression _ eq ↦ absurd (ground arith)
  | was_accepted stale new _ eq ↦
      observe-member e (observe e v).1 (rw eq (on_accept-seen e stale v i new))
]
