-- ===== src/Data/Binance/Faithful.antt =====
-- `BinanceDepthSynchronizer` against the history of the venue's book: what it keeps, and what it shows
-- once it is synchronized.
use polymarket_btc.Prelude.{
  ltb, leb, if_holds, ltb_ℤ, ℤ, length, All, All-append, bind-ok, raise_if-ok, ok-inj, Result,
  nat_eq, string_eq, pair_eq, pos, ok, err, ℕ, String, ◌≡◌, refl, ap, subst, Bool, true, false,
  List, [], ◌∷◌, ◌++◌,
}
use polymarket_btc.Data.Books.{DepthError, DepthApplyResult}
use polymarket_btc.Data.Binance
use polymarket_btc.Data.Binance.{
  Payload, nonnegative_int, DiffDepthBook, new_book, snapshot_parts, snapshot_with, apply_delta,
}
use polymarket_btc.Data.Books.Views.{Venue}
use polymarket_btc.Data.Binance.Truth.{
  IsTrueDelta, IsTrueSnapshot, Agrees, apply_delta-Agrees, snapshot_with-Agrees,
}
use polymarket_btc.Data.Binance.Synchronizer.{
  BufferedDepthUpdate, Synchronizer, new_synchronizer, invalidate, buffer_update, after_delta,
  observe_delta, is_gap_status, retained_after, is_too_old, ReplayEnd, replayed, gap_at, raised,
  replay_step, replay, replay_after, adopt, snapshot_over, fresh_book, retained_for, apply_snapshot,
  Call, observe, snapshot, invalidated, perform, perform_all,
}

-- The venue's book, and the range of its snapshots.
module _ (venue : Venue) where
  -- The updates of a list are the venue's.
  abbrev pub AreTrue : List BufferedDepthUpdate → Type 0
  AreTrue = All (λ item. IsTrueDelta venue item.payload)

  -- What holds of a synchronizer that was fed by the venue.
  pub record IsFaithful (s : Synchronizer) : Type 0 where
    pub kept_are_true : AreTrue s.buffer
    pub book_agrees : s.is_synchronized ≡ true → Agrees venue s.book

  -- The end of a replay leaves the venue's book, or the venue's updates.
  abbrev EndAgrees : ReplayEnd → Type 0
  EndAgrees (replayed r k) = Agrees venue k
  EndAgrees (gap_at r items) = AreTrue items
  EndAgrees (raised e) = Unit

  replay_step-Agrees :
      (rest : DepthApplyResult → DiffDepthBook → ReplayEnd) (items : List BufferedDepthUpdate)
      (x : Result DepthError DepthApplyResult × DiffDepthBook)
      → AreTrue items
      → Agrees venue x.1
      → ((r : DepthApplyResult) (k : DiffDepthBook) → Agrees venue k → EndAgrees (rest r k))
      → EndAgrees (replay_step rest items x)
  unfolding replay_step
  replay_step-Agrees rest items (err e, k) d a h = tt
  replay_step-Agrees rest items (ok r, k) d a h =
      if_holds EndAgrees (is_gap_status r.status) (λ _. d) (λ _. h r k a)

  replay-Agrees :
      (items : List BufferedDepthUpdate) (r : DepthApplyResult) (k : DiffDepthBook)
      → AreTrue items
      → Agrees venue k
      → EndAgrees (replay items r k)
  unfolding replay
  replay-Agrees [] r k d a = a
  replay-Agrees (item ∷ items) r k d a =
      replay_step-Agrees (replay items) (item ∷ items)
        (apply_delta item.payload item.collector_receive_ts k) d
        (apply_delta-Agrees venue item.payload item.collector_receive_ts k d.0 a)
        (λ r' k' a'. replay-Agrees items r' k' d.1 a')

  replay_after-Agrees :
      (items : List BufferedDepthUpdate) (x : Result DepthError DepthApplyResult × DiffDepthBook)
      → AreTrue items
      → ((r : DepthApplyResult) → x.0 ≡ ok r → Agrees venue x.1)
      → EndAgrees (replay_after items x)
  unfolding replay_after
  replay_after-Agrees items (err e, k) d a = tt
  replay_after-Agrees items (ok r, k) d a = replay-Agrees items r k d (a r refl)

  adopt-IsFaithful :
      (end : ReplayEnd) (s : Synchronizer)
      → IsFaithful s
      → EndAgrees end
      → IsFaithful (adopt end s).1
  unfolding adopt
  adopt-IsFaithful (raised e) s v h = v
  adopt-IsFaithful (gap_at r items) s v h = record { kept_are_true = h; book_agrees = λ e. cc }
  adopt-IsFaithful (replayed r k) s v h = record { kept_are_true = tt; book_agrees = λ _. h }

  retained_after-AreTrue :
      (n : ℕ) (items kept : List BufferedDepthUpdate)
      → AreTrue items
      → retained_after n items ≡ ok kept
      → AreTrue kept
  unfolding retained_after
  retained_after-AreTrue n [] kept d h = subst AreTrue (ok-inj h) tt
  retained_after-AreTrue n (item ∷ items) kept d h =
      let (final, hf, h') = bind-ok (nonnegative_int item.payload.final_update_id) _ h in
      let (rest, hr, h'') = bind-ok (retained_after n items) _ h' in
      let more = retained_after-AreTrue n items rest d.1 hr in
      subst AreTrue (ok-inj h'') (if_holds AreTrue (ltb n final) (λ _. (d.0, more)) (λ _. more))

  retained_for-AreTrue :
      (p : Payload) (items kept : List BufferedDepthUpdate) (too_old : Bool)
      → AreTrue items
      → retained_for p items ≡ ok (kept, too_old)
      → AreTrue kept
  unfolding retained_for
  retained_for-AreTrue p items kept too_old d h =
      let (n, hn, h') = bind-ok (nonnegative_int p.last_update_id) _ h in
      let (rest, hr, h'') = bind-ok (retained_after n items) _ h' in
      let (old, ho, same) = bind-ok (is_too_old n rest) _ h'' in
      subst AreTrue (ap (λ x. x.0) (ok-inj same)) (retained_after-AreTrue n items rest d hr)

  snapshot_over-IsFaithful :
      (p : Payload) (t : ℤ) (s : Synchronizer)
      (kept : Result DepthError (List BufferedDepthUpdate × Bool))
      → IsTrueSnapshot venue p
      → IsFaithful s
      → retained_for p s.buffer ≡ kept
      → IsFaithful (snapshot_over p t s kept).1
  unfolding snapshot_over Binance.apply_snapshot
  snapshot_over-IsFaithful p t s (err e) d v h = v
  snapshot_over-IsFaithful p t s (ok (items, true)) d v h = record {
    kept_are_true = v.kept_are_true;
    book_agrees = λ e. cc;
  }
  snapshot_over-IsFaithful p t s (ok (items, false)) d v h =
      adopt-IsFaithful (replay_after items (Binance.apply_snapshot p t (fresh_book s))) s v (
        replay_after-Agrees items (Binance.apply_snapshot p t (fresh_book s))
          (retained_for-AreTrue p s.buffer items false v.kept_are_true h)
          (λ r e. snapshot_with-Agrees venue p t (fresh_book s) (snapshot_parts p) d refl e))

  after_delta-IsFaithful :
      (item : BufferedDepthUpdate) (s : Synchronizer)
      (x : Result DepthError DepthApplyResult × DiffDepthBook)
      → IsTrueDelta venue item.payload
      → IsFaithful s
      → Agrees venue x.1
      → IsFaithful (after_delta item s x).1
  unfolding after_delta
  after_delta-IsFaithful item s (err e, k) d v a = record {
    kept_are_true = v.kept_are_true;
    book_agrees = λ _. a;
  }
  after_delta-IsFaithful item s (ok r, k) d v a =
      if_holds {A = Result DepthError DepthApplyResult × Synchronizer} (λ y. IsFaithful y.1)
        (is_gap_status r.status) (λ _. record { kept_are_true = (d, tt); book_agrees = λ e. cc })
        (λ _. record { kept_are_true = v.kept_are_true; book_agrees = λ _. a })

  buffer_update-IsFaithful :
      (item : BufferedDepthUpdate) (s : Synchronizer)
      → IsTrueDelta venue item.payload
      → IsFaithful s
      → IsFaithful (buffer_update item s).1
  unfolding buffer_update
  buffer_update-IsFaithful item s d v =
      if_holds {A = DepthApplyResult × Synchronizer} (λ y. IsFaithful y.1)
        (leb (length (s.buffer ++ item ∷ [])) s.max_buffered_events)
        (λ _. record {
          kept_are_true = All-append _ s.buffer (item ∷ []) v.kept_are_true (d, tt);
          book_agrees = v.book_agrees;
        })
        (λ _. record { kept_are_true = tt; book_agrees = v.book_agrees })

  pub observe_delta-IsFaithful :
      (item : BufferedDepthUpdate) (s : Synchronizer)
      → IsTrueDelta venue item.payload
      → IsFaithful s
      → IsFaithful (observe_delta item s).1
  unfolding observe_delta
  observe_delta-IsFaithful item s d v =
      if_holds {A = Result DepthError DepthApplyResult × Synchronizer} (λ y. IsFaithful y.1)
        s.is_synchronized
        (λ e.
          after_delta-IsFaithful item s (apply_delta item.payload item.collector_receive_ts s.book)
            d v (apply_delta-Agrees venue item.payload _ s.book d (v.book_agrees e)))
        (λ _. buffer_update-IsFaithful item s d v)

  -- What the venue sent.
  abbrev pub IsTrueCall : Call → Type 0
  IsTrueCall (observe item) = IsTrueDelta venue item.payload
  IsTrueCall (snapshot p t) = IsTrueSnapshot venue p
  IsTrueCall invalidated = Unit

  pub perform-IsFaithful :
      (c : Call) (s : Synchronizer) → IsTrueCall c → IsFaithful s → IsFaithful (perform c s)
  unfolding perform invalidate apply_snapshot
  perform-IsFaithful (observe item) s d v = observe_delta-IsFaithful item s d v
  perform-IsFaithful (snapshot p t) s d v =
      snapshot_over-IsFaithful p t s (retained_for p s.buffer) d v refl
  perform-IsFaithful invalidated s d v = record { kept_are_true = tt; book_agrees = λ e. cc }

  perform_all-IsFaithful :
      (cs : List Call) (s : Synchronizer)
      → All IsTrueCall cs
      → IsFaithful s
      → IsFaithful (perform_all cs s)
  unfolding perform_all
  perform_all-IsFaithful [] s d v = v
  perform_all-IsFaithful (c ∷ cs) s d v =
      perform_all-IsFaithful cs (perform c s) d.1 (perform-IsFaithful c s d.0 v)

  new_synchronizer-IsFaithful :
      (instrument source : String) (delay limit : ℤ) (s : Synchronizer)
      → new_synchronizer instrument source delay limit ≡ ok s
      → IsFaithful s
  unfolding new_synchronizer
  new_synchronizer-IsFaithful instrument source delay limit s h =
      let (b, h') = raise_if-ok (ltb_ℤ limit (pos 1)) _ _ h in
      let (book, hb, same) = bind-ok (new_book instrument source delay) _ h' in
      subst IsFaithful (ok-inj same) (record { kept_are_true = tt; book_agrees = λ e. cc })

  -- From a new synchronizer, after any updates, snapshots and invalidations in any order, of which every
  -- update and snapshot is one that the venue sent, lost and repeated ones included: while the
  -- synchronizer says that it is synchronized, its book is the venue's book after some update, on both
  -- sides and at every price in the range of all the snapshots.
  pub perform_all-Agrees :
      (instrument source : String) (delay limit : ℤ) (s : Synchronizer) (cs : List Call)
      → new_synchronizer instrument source delay limit ≡ ok s
      → All IsTrueCall cs
      → (perform_all cs s).is_synchronized ≡ true
      → Agrees venue (perform_all cs s).book
  perform_all-Agrees instrument source delay limit s cs new d e =
      (perform_all-IsFaithful cs s d
          (new_synchronizer-IsFaithful instrument source delay limit s new)).book_agrees
        e
