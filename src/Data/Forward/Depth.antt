-- ===== src/Data/Forward/Depth.antt =====
-- The Binance books inside the collector: a message changes the synchronizer of its own source and
-- instrument, and an event out of order invalidates it.
use polymarket_btc.Prelude.{
  if◌then◌else◌, if_holds, ℤ, all, Result, nat_eq, string_eq, pair_eq, insert, lookup-insert, ok,
  err, String, ◌≡◌, refl, sym, subst, not, ◌&&◌, some, arith, str_eq,
}
use polymarket_btc.Data.Quality.{
  TimedMarketEvent, Reason, duplicate, out_of_order, accepted, gap, DataQualityDecision,
}
use polymarket_btc.Data.Books.{DepthError, DepthApplyResult}
use polymarket_btc.Data.Books.Views.{Venue}
use polymarket_btc.Data.Binance
use polymarket_btc.Data.Binance.Truth.{IsTrueDelta, IsTrueSnapshot}
use polymarket_btc.Data.Binance.Faithful.{IsFaithful, perform-IsFaithful}
use polymarket_btc.Data.Binance.Synchronizer
use polymarket_btc.Data.Binance.Synchronizer.{
  BufferedDepthUpdate, is_gap_status, perform, invalidate,
}
use polymarket_btc.Data.Forward.{
  StreamKey, CollectorIngressResult, RawPayload, binance_payload, Collector,
  record_unattributed_gap, mark_gap, is_binance, is_okx, depth_synchronizer, invalidate_after_gap,
  attribute_gaps, keep, refuse, decided, judged, ingest,
}
use polymarket_btc.Data.Forward.Handlers.{
  after_result, after_call, put_depth, depth_called, depth_update_with, depth_snapshot_with,
}

depth_synchronizer-insert :
    (key j : String × String) (s : Synchronizer.Synchronizer) (c : Collector)
    → depth_synchronizer j (record c { binance_depth = insert key s c.binance_depth })
      ≡ (if pair_eq.beq key j then s else depth_synchronizer j c)
unfolding depth_synchronizer
depth_synchronizer-insert key j s c = ground (arith, lookup-insert key j s c.binance_depth)

-- The venue of each source and instrument.
module _ (venue : String × String → Venue) where
  -- Every synchronizer of the collector, and every one that it would make, is faithful.
  abbrev pub AllFaithful : Collector → Type 0
  AllFaithful c = (key : String × String) → IsFaithful (venue key) (depth_synchronizer key c)

  pub insert-AllFaithful :
      (key : String × String) (s : Synchronizer.Synchronizer) (c : Collector)
      → IsFaithful (venue key) s
      → AllFaithful c
      → AllFaithful (record c { binance_depth = insert key s c.binance_depth })
  insert-AllFaithful key s c h all j =
      subst (λ x. IsFaithful (venue j) x) (sym (depth_synchronizer-insert key j s c))
        (if_holds (IsFaithful (venue j)) (pair_eq.beq key j)
          (λ same. subst (λ k. IsFaithful (venue k) s) ((pair_eq.beq_iff key j).0 same) h)
          (λ _. all j))

  pub invalidate-IsFaithful :
      (key : String × String) (s : Synchronizer.Synchronizer)
      → IsFaithful (venue key) s
      → IsFaithful (venue key) (invalidate s)
  unfolding perform
  invalidate-IsFaithful key s h = perform-IsFaithful (venue key) Synchronizer.invalidated s tt h

  -- A change of the other attributes.
  invalidate_after_gap-AllFaithful :
      (e : TimedMarketEvent) (stream : String) (c : Collector)
      → AllFaithful c
      → AllFaithful (invalidate_after_gap e stream c)
  unfolding invalidate_after_gap depth_synchronizer
  invalidate_after_gap-AllFaithful e stream c all =
      if_holds AllFaithful (is_binance e.source && str_eq stream "depth")
        (λ _.
          insert-AllFaithful (e.source, e.instrument)
            (invalidate (depth_synchronizer (e.source, e.instrument) c)) c
            (invalidate-IsFaithful (e.source, e.instrument) _ (all (e.source, e.instrument))) all)
        (λ _. if_holds AllFaithful (is_okx e.source && str_eq stream "book") (λ _. all) (λ _. all))

  pub mark_gap-AllFaithful :
      (key : StreamKey) (c : Collector) → AllFaithful c → AllFaithful (mark_gap key c)
  unfolding mark_gap record_unattributed_gap depth_synchronizer
  mark_gap-AllFaithful key c all = all

  refuse-AllFaithful :
      (e : TimedMarketEvent) (key : StreamKey) (reason : Reason) (c : Collector)
      → AllFaithful c
      → AllFaithful (refuse e key reason c)
  unfolding refuse record_unattributed_gap depth_synchronizer
  refuse-AllFaithful e key duplicate c all = all
  refuse-AllFaithful e key out_of_order c all = invalidate_after_gap-AllFaithful e key.1 c all
  refuse-AllFaithful e key accepted c all = all
  refuse-AllFaithful e key (gap reason) c all = all

  decided-AllFaithful :
      (e : TimedMarketEvent) (event_type : String) (payload : RawPayload) (key : StreamKey)
      (d : DataQualityDecision) (c : Collector)
      → AllFaithful c
      → AllFaithful (decided e event_type payload key d c).1
  unfolding decided keep attribute_gaps depth_synchronizer
  decided-AllFaithful e event_type payload key d c all =
      if_holds {A = CollectorIngressResult × Collector} (λ x. AllFaithful x.1) d.is_accepted
        (λ _. all) (λ _. refuse-AllFaithful e key d.reason c all)

  ingest-AllFaithful :
      (timing : TimedMarketEvent) (event_type : String) (payload : RawPayload) (stream : String)
      (c : Collector)
      → AllFaithful c
      → AllFaithful (ingest timing event_type payload stream c).1
  unfolding ingest judged depth_synchronizer
  ingest-AllFaithful timing event_type payload stream c all =
      decided-AllFaithful (record timing { ingest_version = c.ingest_version }) event_type payload
        ((timing.source, timing.instrument), stream) _ _ all

  pub after_call-AllFaithful :
      (timing : TimedMarketEvent) (event_type : String) (payload : RawPayload) (key : StreamKey)
      (x : Result DepthError DepthApplyResult) (c : Collector)
      → AllFaithful c
      → AllFaithful (after_call timing event_type payload key x c).1
  unfolding after_call after_result
  after_call-AllFaithful timing event_type payload key (err e) c all = all
  after_call-AllFaithful timing event_type payload key (ok r) c all =
      ingest-AllFaithful timing event_type payload key.1
        (if is_gap_status r.status then mark_gap key c else c)
        (if_holds AllFaithful (is_gap_status r.status) (λ _. mark_gap-AllFaithful key c all)
          (λ _. all))

  depth_called-AllFaithful :
      (timing : TimedMarketEvent) (event_type : String) (p : Binance.Payload)
      (key : String × String) (x : Result DepthError DepthApplyResult × Synchronizer.Synchronizer)
      (c : Collector)
      → IsFaithful (venue key) x.1
      → AllFaithful c
      → AllFaithful (depth_called timing event_type p key x c).1
  unfolding depth_called put_depth
  depth_called-AllFaithful timing event_type p key (r, s) c h all =
      after_call-AllFaithful timing event_type (binance_payload p) (key, "depth") r _
        (insert-AllFaithful key s c h all)

  pub depth_update_with-AllFaithful :
      (p : Binance.Payload) (t : ℤ) (source : String) (x : Result DepthError TimedMarketEvent)
      (c : Collector)
      → ((timing : TimedMarketEvent)
          → x ≡ ok timing
          → IsTrueDelta (venue (source, timing.instrument)) p)
      → AllFaithful c
      → AllFaithful (depth_update_with p t source x c).1
  unfolding depth_update_with perform
  depth_update_with-AllFaithful p t source (err e) c d all = all
  depth_update_with-AllFaithful p t source (ok timing) c d all =
      let key : String × String = (source, timing.instrument) in
      let item : BufferedDepthUpdate = record { payload = p; collector_receive_ts = some t } in
      if_holds {A = CollectorIngressResult × Collector} (λ y. AllFaithful y.1)
        (not (is_binance source)) (λ _. all)
        (λ _.
          depth_called-AllFaithful timing "depth_update" p key
            (Synchronizer.observe_delta item (depth_synchronizer key c)) c
            (perform-IsFaithful (venue key) (Synchronizer.observe item) (depth_synchronizer key c)
              (d timing refl) (all key))
            all)

  pub depth_snapshot_with-AllFaithful :
      (instrument : String) (p : Binance.Payload) (t : ℤ) (source : String)
      (x : Result DepthError TimedMarketEvent) (c : Collector)
      → IsTrueSnapshot (venue (source, instrument)) p
      → AllFaithful c
      → AllFaithful (depth_snapshot_with instrument p t source x c).1
  unfolding depth_snapshot_with perform
  depth_snapshot_with-AllFaithful instrument p t source (err e) c d all = all
  depth_snapshot_with-AllFaithful instrument p t source (ok timing) c d all =
      let key : String × String = (source, instrument) in
      if_holds {A = CollectorIngressResult × Collector} (λ y. AllFaithful y.1)
        (not (is_binance source)) (λ _. all)
        (λ _.
          depth_called-AllFaithful timing "depth_snapshot" p key
            (Synchronizer.apply_snapshot p t (depth_synchronizer key c)) c
            (perform-IsFaithful (venue key) (Synchronizer.snapshot p t) (depth_synchronizer key c) d
              (all key))
            all)
