-- ===== src/Data/Binance/Completeness.antt =====
-- A snapshot over updates without a gap: `apply_snapshot` of `BinanceDepthSynchronizer` accepts it.
use Prim.Native.Nat.{max}
use polymarket_btc.Prelude.{
  ℤ, ◌>>=◌, bind-ok, ok-inj, Result, nat_eq, string_eq, pair_eq, ok, err, ℕ, ◌+◌, ◌≤◌, ◌≡◌, refl,
  sym, ap, subst, ◌∙◌, true, false, Option, none, some, List, [], ◌∷◌, arith,
}
use polymarket_btc.Data.Books.{DepthError, rows, applied, book_top, DepthApplyResult}
use polymarket_btc.Data.Binance
use polymarket_btc.Data.Binance.{
  Payload, nonnegative_int, levels, get_levels, first_present, timestamp_from_millis,
  available_time, DiffDepthBook, applied_result, snapshot_parts, reset_to, snapshot_with, Verdict,
  is_covered, previous_differs, continuity, verdict_between, verdict_of, change_asks, change_sides,
  act_on, delta_after, apply_delta,
}
use polymarket_btc.Data.Binance.Chains.{
  Spans, Chain, Overlaps, Chain-Overlaps, retained_after-Overlaps, is_too_old-Overlaps,
}
use polymarket_btc.Data.Binance.Synchronizer.{
  BufferedDepthUpdate, Synchronizer, is_gap_status, ReplayEnd, replayed, gap_at, raised,
  replay_step, replay, replay_after, adopt, snapshot_over, fresh_book, retained_for, apply_snapshot,
}

-- The book stands at an identifier, and takes updates.
record StandsAt (k : DiffDepthBook) (n : ℕ) : Type 0 where
  at_id : k.last_update_id ≡ some n
  synchronized : k.is_synchronized ≡ true

-- A call that raised, or that left the book at the identifier and found no gap.
abbrev MovesTo : ℕ → Result DepthError DepthApplyResult × DiffDepthBook → Type 0
MovesTo n (err e, k) = Unit
MovesTo n (ok r, k) = (is_gap_status r.status ≡ false) × StandsAt k n

MovesTo-bind :
    {A : Type 0} (n : ℕ) (k : DiffDepthBook) (call : Result DepthError A)
    (rest : A → Result DepthError DepthApplyResult)
    → ((a : A) → MovesTo n (rest a, k))
    → MovesTo n (call >>= rest, k)
MovesTo-bind n k (err e) rest h = tt
MovesTo-bind n k (ok a) rest h = h a

applied_result-MovesTo :
    (n : ℕ) (k : DiffDepthBook) (source : Result DepthError ℤ) (t : Option ℤ)
    → StandsAt k n
    → MovesTo n (applied_result k source t, k)
unfolding applied_result
applied_result-MovesTo n k source t h = MovesTo-bind n k source _ λ ts.
    MovesTo-bind n k
      (book_top k.bids k.asks ts (available_time ts t k.availability_delay) k.source k.instrument)
      (λ top. ok (record {
        status = applied;
        book_top = top;
        last_update_id = k.last_update_id;
        reason = none;
      }))
      (λ top. (refl, h))

change_asks-MovesTo :
    (p : Payload) (t : Option ℤ) (n : ℕ) (k : DiffDepthBook)
    (asks : Result DepthError (List (ℕ × ℕ)))
    → k.is_synchronized ≡ true
    → MovesTo n (change_asks p t n k asks)
unfolding change_asks
change_asks-MovesTo p t n k (err e) h = tt
change_asks-MovesTo p t n k (ok asks) h =
    applied_result-MovesTo n _ _ t (record { at_id = refl; synchronized = h })

change_sides-MovesTo :
    (p : Payload) (t : Option ℤ) (n : ℕ) (k : DiffDepthBook)
    (bids : Result DepthError (List (ℕ × ℕ)))
    → k.is_synchronized ≡ true
    → MovesTo n (change_sides p t n k bids)
unfolding change_sides
change_sides-MovesTo p t n k (err e) h = tt
change_sides-MovesTo p t n k (ok bids) h = change_asks-MovesTo p t n _ _ h

verdict_of-Spans :
    (item : BufferedDepthUpdate) (n first final : ℕ)
    → Spans item first final
    → first ≤ n + 1
    → n + 1 ≤ final
    → verdict_of item.payload n ≡ ok (is_covered final)
unfolding verdict_of verdict_between previous_differs continuity
verdict_of-Spans item n first final spans lo hi =
    rw (spans.starts, spans.ends, spans.unnamed) (ground arith)

-- An update that overlaps with the book moves it, unless its values cannot be read.
apply_delta-MovesTo :
    (item : BufferedDepthUpdate) (k : DiffDepthBook) (n first final : ℕ)
    → StandsAt k n
    → Spans item first final
    → first ≤ n + 1
    → n + 1 ≤ final
    → MovesTo final (apply_delta item.payload item.collector_receive_ts k)
unfolding apply_delta delta_after act_on
apply_delta-MovesTo item k n first final h spans lo hi =
    let moved =
      change_sides-MovesTo item.payload item.collector_receive_ts final k
        (levels (get_levels item.payload.b (rows []))) h.synchronized in
    simp (h.at_id, h.synchronized, verdict_of-Spans item n first final spans lo hi) moved

-- A replay that raised, or that reached the identifier.
abbrev ReachesTo : ℕ → ReplayEnd → Type 0
ReachesTo n (replayed r k) = StandsAt k n
ReachesTo n (gap_at r items) = ⊥
ReachesTo n (raised e) = Unit

replay_step-ReachesTo :
    (m n : ℕ) (rest : DepthApplyResult → DiffDepthBook → ReplayEnd)
    (items : List BufferedDepthUpdate) (x : Result DepthError DepthApplyResult × DiffDepthBook)
    → MovesTo m x
    → ((r : DepthApplyResult) (k : DiffDepthBook) → StandsAt k m → ReachesTo n (rest r k))
    → ReachesTo n (replay_step rest items x)
unfolding replay_step
replay_step-ReachesTo m n rest items (err e, k) h f = tt
replay_step-ReachesTo m n rest items (ok r, k) h f = rw h.0 (f r k h.1)

replay-ReachesTo :
    (items : List BufferedDepthUpdate) (n last : ℕ) (r : DepthApplyResult) (k : DiffDepthBook)
    → StandsAt k n
    → Overlaps n items last
    → ReachesTo last (replay items r k)
unfolding replay
replay-ReachesTo [] n last r k h over = subst (StandsAt k) over h
replay-ReachesTo (item ∷ items) n last r k h (first, final, spans, lo, hi, rest) =
    replay_step-ReachesTo final last (replay items) (item ∷ items) _
      (apply_delta-MovesTo item k n first final h spans lo hi)
      (λ r' k' h'.
        replay-ReachesTo items final last r' k' h' (Chain-Overlaps final items last rest))

snapshot_parts-id :
    (p : Payload) (n m : ℕ) (bids asks : List (ℕ × ℕ))
    → nonnegative_int p.last_update_id ≡ ok n
    → snapshot_parts p ≡ ok (m, bids, asks)
    → m ≡ n
unfolding snapshot_parts
snapshot_parts-id p n m bids asks hn h =
    let (n', hn', h') = bind-ok (nonnegative_int p.last_update_id) _ h in
    let (bs, hb, h'') = bind-ok (levels (get_levels p.bids (get_levels p.b (rows [])))) _ h' in
    let (as', ha, same) = bind-ok (levels (get_levels p.asks (get_levels p.a (rows [])))) _ h'' in
    sym (ap (λ x. x.0) (ok-inj same)) ∙ ok-inj (sym hn' ∙ hn)

replay_after-ReachesTo :
    (n last : ℕ) (items : List BufferedDepthUpdate)
    (x : Result DepthError DepthApplyResult × DiffDepthBook)
    → MovesTo n x
    → Overlaps n items last
    → ReachesTo last (replay_after items x)
unfolding replay_after
replay_after-ReachesTo n last items (err e, k) h over = tt
replay_after-ReachesTo n last items (ok r, k) h over = replay-ReachesTo items n last r k h.1 over

snapshot_with-ReachesTo :
    (p : Payload) (t : ℤ) (k : DiffDepthBook) (n last : ℕ) (items : List BufferedDepthUpdate)
    (parts : Result DepthError (ℕ × List (ℕ × ℕ) × List (ℕ × ℕ)))
    → nonnegative_int p.last_update_id ≡ ok n
    → snapshot_parts p ≡ parts
    → Overlaps n items last
    → ReachesTo last (replay_after items (snapshot_with p t k parts))
unfolding snapshot_with reset_to
snapshot_with-ReachesTo p t k n last items (err e) hn h over =
    replay_after-ReachesTo n last items (err e, k) tt over
snapshot_with-ReachesTo p t k n last items (ok (n', bids, asks)) hn h over =
    let same = snapshot_parts-id p n n' bids asks hn h in
    replay_after-ReachesTo n last items _
      (applied_result-MovesTo n (reset_to k (n', bids, asks)) _ (some t)
        (record { at_id = ap some same; synchronized = refl }))
      over

-- The call raised and changed nothing, or the book is synchronized at the identifier and no update is
-- left.
abbrev pub Settles : Synchronizer → ℕ → Result DepthError DepthApplyResult × Synchronizer → Type 0
Settles s n (err e, s') = s' ≡ s
Settles s n (ok r, s') =
    (s'.is_synchronized ≡ true) × (s'.book.last_update_id ≡ some n) × (s'.buffer ≡ [])

adopt-Settles :
    (n : ℕ) (end : ReplayEnd) (s : Synchronizer) → ReachesTo n end → Settles s n (adopt end s)
unfolding adopt
adopt-Settles n (raised e) s h = refl
adopt-Settles n (gap_at r items) s h = absurd h
adopt-Settles n (replayed r k) s h = (refl, h.at_id, refl)

-- Where the updates that were kept follow on one another, from an identifier that the snapshot has
-- reached, and name no update before them: `apply_snapshot` raises and changes nothing, or it leaves the
-- book synchronized at the last identifier of the snapshot and the updates, and keeps no update. It
-- never finds a gap, nor the snapshot too old.
pub apply_snapshot-Settles :
    (p : Payload) (t : ℤ) (s : Synchronizer) (n m last : ℕ)
    → nonnegative_int p.last_update_id ≡ ok n
    → m ≤ n
    → Chain m s.buffer last
    → Settles s (max n last) (apply_snapshot p t s)
unfolding apply_snapshot retained_for snapshot_over Binance.apply_snapshot
apply_snapshot-Settles p t s n m last hn le chain =
    let (kept, same, over) = retained_after-Overlaps n m s.buffer last le chain in
    rw (hn, same, is_too_old-Overlaps n kept (max n last) over)
      (adopt-Settles (max n last) _ s (
        snapshot_with-ReachesTo p t (fresh_book s) n (max n last) kept (snapshot_parts p) hn refl
          over))
