-- ===== src/Data/Binance/Buffering.antt =====
-- How many updates `BinanceDepthSynchronizer` keeps.
use polymarket_btc.Prelude.{
  ltb, leb, leb→le, if_holds, pos_part, ltb_ℤ, ℤ, length, bind-ok, raise_if-ok, ok-inj, Result,
  nat_eq, string_eq, pair_eq, pos, ok, err, ℕ, suc, ◌≤◌, String, ◌≡◌, refl, ap, subst, Bool, true,
  false, List, [], ◌∷◌, ◌++◌, arith,
}
use polymarket_btc.Data.Books.{DepthError, DepthApplyResult}
use polymarket_btc.Data.Binance
use polymarket_btc.Data.Binance.{Payload, nonnegative_int, DiffDepthBook, new_book, apply_delta}
use polymarket_btc.Data.Binance.Synchronizer.{
  BufferedDepthUpdate, Synchronizer, new_synchronizer, buffered_event_count, invalidate,
  buffer_update, after_delta, observe_delta, is_gap_status, retained_after, is_too_old, ReplayEnd,
  replayed, gap_at, raised, replay_step, replay, replay_after, adopt, snapshot_over, fresh_book,
  retained_for, apply_snapshot, Call, observe, snapshot, invalidated, perform, perform_all,
}

-- The limit stays, the updates that are kept fit in it, and a synchronized book needs none.
pub record IsBounded (limit : ℕ) (s : Synchronizer) : Type 0 where
  pub same_limit : s.max_buffered_events ≡ limit
  pub within : length s.buffer ≤ limit
  pub at_least_one : 1 ≤ limit
  pub none_kept : s.is_synchronized ≡ true → s.buffer ≡ []

abbrev AtMost : ℕ → List BufferedDepthUpdate → Type 0
AtMost n items = length items ≤ n

retained_after-le :
    (n : ℕ) (items kept : List BufferedDepthUpdate)
    → retained_after n items ≡ ok kept
    → length kept ≤ length items
unfolding retained_after
retained_after-le n [] kept h = ground arith
retained_after-le n (item ∷ items) kept h =
    let (final, hf, h') = bind-ok (nonnegative_int item.payload.final_update_id) _ h in
    let (rest, hr, h'') = bind-ok (retained_after n items) _ h' in
    let shorter = retained_after-le n items rest hr in
    let put : suc (length rest) ≤ suc (length items) = omega arith in
    let left_out : length rest ≤ suc (length items) = omega arith in
    subst (AtMost (suc (length items))) (ok-inj h'')
      (if_holds (AtMost (suc (length items))) (ltb n final) (λ _. put) (λ _. left_out))

retained_for-le :
    (p : Payload) (items kept : List BufferedDepthUpdate) (too_old : Bool)
    → retained_for p items ≡ ok (kept, too_old)
    → length kept ≤ length items
unfolding retained_for
retained_for-le p items kept too_old h =
    let (n, hn, h') = bind-ok (nonnegative_int p.last_update_id) _ h in
    let (rest, hr, h'') = bind-ok (retained_after n items) _ h' in
    let (old, ho, same) = bind-ok (is_too_old n rest) _ h'' in
    subst (AtMost (length items)) (ap (λ x. x.0) (ok-inj same)) (retained_after-le n items rest hr)

-- A replay keeps no more updates than it was given.
abbrev KeepsAtMost : ℕ → ReplayEnd → Type 0
KeepsAtMost n (replayed r k) = Unit
KeepsAtMost n (gap_at r items) = length items ≤ n
KeepsAtMost n (raised e) = Unit

replay_step-KeepsAtMost :
    (n : ℕ) (rest : DepthApplyResult → DiffDepthBook → ReplayEnd) (items : List BufferedDepthUpdate)
    (x : Result DepthError DepthApplyResult × DiffDepthBook)
    → length items ≤ n
    → ((r : DepthApplyResult) (k : DiffDepthBook) → KeepsAtMost n (rest r k))
    → KeepsAtMost n (replay_step rest items x)
unfolding replay_step
replay_step-KeepsAtMost n rest items (err e, k) h f = tt
replay_step-KeepsAtMost n rest items (ok r, k) h f =
    if_holds (KeepsAtMost n) (is_gap_status r.status) (λ _. h) (λ _. f r k)

replay-KeepsAtMost :
    (n : ℕ) (items : List BufferedDepthUpdate) (r : DepthApplyResult) (k : DiffDepthBook)
    → length items ≤ n
    → KeepsAtMost n (replay items r k)
unfolding replay
replay-KeepsAtMost n [] r k h = tt
replay-KeepsAtMost n (item ∷ items) r k h =
    replay_step-KeepsAtMost n (replay items) (item ∷ items)
      (apply_delta item.payload item.collector_receive_ts k) h
      (λ r' k'. replay-KeepsAtMost n items r' k' (omega arith))

replay_after-KeepsAtMost :
    (n : ℕ) (items : List BufferedDepthUpdate)
    (x : Result DepthError DepthApplyResult × DiffDepthBook)
    → length items ≤ n
    → KeepsAtMost n (replay_after items x)
unfolding replay_after
replay_after-KeepsAtMost n items (err e, k) h = tt
replay_after-KeepsAtMost n items (ok r, k) h = replay-KeepsAtMost n items r k h

module _ (limit : ℕ) where
  unsynchronized-IsBounded :
      (s : Synchronizer) (items : List BufferedDepthUpdate)
      → IsBounded limit s
      → length items ≤ limit
      → IsBounded limit (record s { book = fresh_book s; buffer = items; is_synchronized = false })
  unsynchronized-IsBounded s items v h = record {
    same_limit = v.same_limit;
    within = h;
    at_least_one = v.at_least_one;
    none_kept = λ e. cc;
  }

  adopt-IsBounded :
      (end : ReplayEnd) (s : Synchronizer)
      → IsBounded limit s
      → KeepsAtMost (length s.buffer) end
      → IsBounded limit (adopt end s).1
  unfolding adopt
  adopt-IsBounded (raised e) s v h = v
  adopt-IsBounded (gap_at r items) s v h = unsynchronized-IsBounded s items v (omega arith)
  adopt-IsBounded (replayed r k) s v h = record {
    same_limit = v.same_limit;
    within = omega arith;
    at_least_one = v.at_least_one;
    none_kept = λ _. refl;
  }

  snapshot_over-IsBounded :
      (p : Payload) (t : ℤ) (s : Synchronizer)
      (kept : Result DepthError (List BufferedDepthUpdate × Bool))
      → IsBounded limit s
      → retained_for p s.buffer ≡ kept
      → IsBounded limit (snapshot_over p t s kept).1
  unfolding snapshot_over
  snapshot_over-IsBounded p t s (err e) v h = v
  snapshot_over-IsBounded p t s (ok (items, true)) v h =
      unsynchronized-IsBounded s s.buffer v v.within
  snapshot_over-IsBounded p t s (ok (items, false)) v h =
      adopt-IsBounded (replay_after items (Binance.apply_snapshot p t (fresh_book s))) s v (
        replay_after-KeepsAtMost (length s.buffer) items _
          (retained_for-le p s.buffer items false h))

  after_delta-IsBounded :
      (item : BufferedDepthUpdate) (s : Synchronizer)
      (x : Result DepthError DepthApplyResult × DiffDepthBook)
      → IsBounded limit s
      → IsBounded limit (after_delta item s x).1
  unfolding after_delta
  after_delta-IsBounded item s (err e, k) v = record {
    same_limit = v.same_limit;
    within = v.within;
    at_least_one = v.at_least_one;
    none_kept = v.none_kept;
  }
  after_delta-IsBounded item s (ok r, k) v =
      if_holds {A = Result DepthError DepthApplyResult × Synchronizer} (λ y. IsBounded limit y.1)
        (is_gap_status r.status) (λ _. unsynchronized-IsBounded s (item ∷ []) v v.at_least_one)
        (λ _. record {
          same_limit = v.same_limit;
          within = v.within;
          at_least_one = v.at_least_one;
          none_kept = v.none_kept;
        })

  -- An update is kept only while the book is not synchronized.
  buffer_update-IsBounded :
      (item : BufferedDepthUpdate) (s : Synchronizer)
      → s.is_synchronized ≡ false
      → IsBounded limit s
      → IsBounded limit (buffer_update item s).1
  unfolding buffer_update
  buffer_update-IsBounded item s off v =
      if_holds {A = DepthApplyResult × Synchronizer} (λ y. IsBounded limit y.1)
        (leb (length (s.buffer ++ item ∷ [])) s.max_buffered_events)
        (λ fits. record {
          same_limit = v.same_limit;
          within = subst (λ n. length (s.buffer ++ item ∷ []) ≤ n) v.same_limit (leb→le _ _ fits);
          at_least_one = v.at_least_one;
          none_kept = λ e. cc;
        })
        (λ _. record {
          same_limit = v.same_limit;
          within = omega arith;
          at_least_one = v.at_least_one;
          none_kept = λ _. refl;
        })

  perform-IsBounded :
      (c : Call) (s : Synchronizer) → IsBounded limit s → IsBounded limit (perform c s)
  unfolding perform invalidate apply_snapshot observe_delta
  perform-IsBounded (observe item) s v =
      if_holds {A = Result DepthError DepthApplyResult × Synchronizer} (λ y. IsBounded limit y.1)
        s.is_synchronized
        (λ _.
          after_delta-IsBounded item s (apply_delta item.payload item.collector_receive_ts s.book)
            v)
        (λ off. buffer_update-IsBounded item s off v)
  perform-IsBounded (snapshot p t) s v =
      snapshot_over-IsBounded p t s (retained_for p s.buffer) v refl
  perform-IsBounded invalidated s v = unsynchronized-IsBounded s [] v (omega arith)

  perform_all-IsBounded :
      (cs : List Call) (s : Synchronizer) → IsBounded limit s → IsBounded limit (perform_all cs s)
  unfolding perform_all
  perform_all-IsBounded [] s v = v
  perform_all-IsBounded (c ∷ cs) s v =
      perform_all-IsBounded cs (perform c s) (perform-IsBounded c s v)

new_synchronizer-IsBounded :
    (instrument source : String) (delay limit : ℤ) (s : Synchronizer)
    → new_synchronizer instrument source delay limit ≡ ok s
    → IsBounded (pos_part limit) s
unfolding new_synchronizer
new_synchronizer-IsBounded instrument source delay limit s h =
    let (b, h') = raise_if-ok (ltb_ℤ limit (pos 1)) _ _ h in
    let (book, hb, same) = bind-ok (new_book instrument source delay) _ h' in
    let positive : 1 ≤ pos_part limit = ground arith in
    subst (IsBounded (pos_part limit)) (ok-inj same) (record {
      same_limit = refl;
      within = omega arith;
      at_least_one = positive;
      none_kept = λ e. refl;
    })

-- From a new synchronizer, after any calls in any order, whatever the payloads: it keeps at most
-- `max_buffered_events` updates, and none while it is synchronized.
pub perform_all-buffered_event_count :
    (instrument source : String) (delay limit : ℤ) (s : Synchronizer) (cs : List Call)
    → new_synchronizer instrument source delay limit ≡ ok s
    → (buffered_event_count (perform_all cs s) ≤ pos_part limit)
      × ((perform_all cs s).is_synchronized ≡ true → buffered_event_count (perform_all cs s) ≡ 0)
unfolding buffered_event_count
perform_all-buffered_event_count instrument source delay limit s cs h =
    let v =
      perform_all-IsBounded (pos_part limit) cs s
        (new_synchronizer-IsBounded instrument source delay limit s h) in
    (v.within, λ e. ap length (v.none_kept e))
