-- ===== src/Data/Forward/Growth.antt =====
-- What each handler of the collector adds to the events that wait.
use mathlib.Core.List.{append-nil, append_assoc}
use polymarket_btc.Prelude.{
  if◌then◌else◌, if_holds, ℤ, length, length-append, Result, nat_eq, string_eq, pair_eq, insert, ok,
  err, ℕ, ◌+◌, String, ◌≡◌, refl, sym, ap, subst, ◌∙◌, not, Option, none, some, List, [], ◌∷◌, ◌++◌,
  arith,
}
use polymarket_btc.Data.Quality.{
  TimedMarketEvent, Reason, duplicate, out_of_order, accepted, gap, DataQualityDecision,
}
use polymarket_btc.Data.Books.{
  DepthUpdateStatus, applied, DepthReason, DepthError, DepthApplyResult,
}
use polymarket_btc.Data.Books
use polymarket_btc.Data.Binance
use polymarket_btc.Data.Binance.Synchronizer
use polymarket_btc.Data.Binance.Synchronizer.{is_gap_status}
use polymarket_btc.Data.Okx
use polymarket_btc.Data.Forward.{
  StreamKey, IngressReason, CollectorIngressResult, nothing, merged, rejected, RawPayload,
  RawCollectorEvent, Collector, record_unattributed_gap, mark_gap, is_binance, invalidate_after_gap,
  attribute_gaps, okx_book_synchronizer, keep, refuse, decided, judged, ingest,
}
use polymarket_btc.Data.Forward.Handlers.{
  with_depth_status, after_result, after_call, put_depth, depth_called, depth_update_with,
  depth_snapshot_with, put_okx, okx_called, okx_item_with, okx_item, okx_items,
  handle_binance_depth_update, handle_binance_depth_snapshot, handle_okx_books,
  invalidate_binance_depth,
}

-- The call adds to the events that wait exactly as many as its result says.
abbrev pub Grows : List RawCollectorEvent → CollectorIngressResult × Collector → Type 0
Grows before (r, c) =
    (more : List RawCollectorEvent) × (c.pending ≡ before ++ more)
    × (length more ≡ r.accepted_events)

invalidate_after_gap-pending :
    (e : TimedMarketEvent) (stream : String) (c : Collector)
    → (invalidate_after_gap e stream c).pending ≡ c.pending
unfolding invalidate_after_gap
invalidate_after_gap-pending e stream c = ground arith

refuse-pending :
    (e : TimedMarketEvent) (key : StreamKey) (reason : Reason) (c : Collector)
    → (refuse e key reason c).pending ≡ c.pending
unfolding refuse record_unattributed_gap
refuse-pending e key duplicate c = refl
refuse-pending e key out_of_order c = invalidate_after_gap-pending e key.1 c
refuse-pending e key accepted c = refl
refuse-pending e key (gap s) c = refl

decided-Grows :
    (e : TimedMarketEvent) (event_type : String) (payload : RawPayload) (key : StreamKey)
    (d : DataQualityDecision) (c : Collector)
    → Grows c.pending (decided e event_type payload key d c)
unfolding decided keep attribute_gaps rejected
decided-Grows e event_type payload key d c =
    if_holds {A = CollectorIngressResult × Collector} (Grows c.pending) d.is_accepted
      (λ _. (_, refl, omega arith))
      (λ _. ([], refuse-pending e key d.reason c ∙ sym (append-nil c.pending), omega arith))

ingest-Grows :
    (timing : TimedMarketEvent) (event_type : String) (payload : RawPayload) (stream : String)
    (c : Collector)
    → Grows c.pending (ingest timing event_type payload stream c)
unfolding ingest judged
ingest-Grows timing event_type payload stream c =
    decided-Grows (record timing { ingest_version = c.ingest_version }) event_type payload _ _ _

with_depth_status-accepted :
    (outcome : CollectorIngressResult) (status : DepthUpdateStatus) (reason : Option DepthReason)
    → (with_depth_status outcome status reason).accepted_events ≡ outcome.accepted_events
unfolding with_depth_status merged
with_depth_status-accepted outcome applied none = refl
with_depth_status-accepted outcome applied (some reason) = refl
with_depth_status-accepted outcome Books.stale none = omega arith
with_depth_status-accepted outcome Books.stale (some reason) = omega arith
with_depth_status-accepted outcome Books.gap none = omega arith
with_depth_status-accepted outcome Books.gap (some reason) = omega arith
with_depth_status-accepted outcome Books.awaiting_snapshot none = omega arith
with_depth_status-accepted outcome Books.awaiting_snapshot (some reason) = omega arith

mark_gap-pending : (key : StreamKey) (c : Collector) → (mark_gap key c).pending ≡ c.pending
unfolding mark_gap record_unattributed_gap
mark_gap-pending key c = refl

after_result-Grows :
    (timing : TimedMarketEvent) (event_type : String) (payload : RawPayload) (key : StreamKey)
    (r : DepthApplyResult) (c : Collector)
    → Grows c.pending (after_result timing event_type payload key r c)
unfolding after_result
after_result-Grows timing event_type payload key r c =
    let marked : Collector = if is_gap_status r.status then mark_gap key c else c in
    let same : marked.pending ≡ c.pending =
      if_holds (λ (k : Collector). k.pending ≡ c.pending) (is_gap_status r.status)
        (λ _. mark_gap-pending key c) (λ _. refl) in
    let (more, grown, count) = ingest-Grows timing event_type payload key.1 marked in
    (
      more,
      subst (λ xs. (ingest timing event_type payload key.1 marked).1.pending ≡ xs ++ more) same
          grown,
      count ∙ sym (with_depth_status-accepted _ r.status r.reason),
    )

rejected-Grows : (reason : IngressReason) (c : Collector) → Grows c.pending (rejected reason, c)
unfolding rejected
rejected-Grows reason c = ([], sym (append-nil c.pending), refl)

after_call-Grows :
    (timing : TimedMarketEvent) (event_type : String) (payload : RawPayload) (key : StreamKey)
    (x : Result DepthError DepthApplyResult) (c : Collector)
    → Grows c.pending (after_call timing event_type payload key x c)
unfolding after_call
after_call-Grows timing event_type payload key (err e) c = rejected-Grows _ c
after_call-Grows timing event_type payload key (ok r) c =
    after_result-Grows timing event_type payload key r c

depth_called-Grows :
    (timing : TimedMarketEvent) (event_type : String) (p : Binance.Payload) (key : String × String)
    (x : Result DepthError DepthApplyResult × Synchronizer.Synchronizer) (c : Collector)
    → Grows c.pending (depth_called timing event_type p key x c)
unfolding depth_called put_depth
depth_called-Grows timing event_type p key (r, s) c = after_call-Grows timing event_type _ _ r _

depth_update_with-Grows :
    (p : Binance.Payload) (t : ℤ) (source : String) (x : Result DepthError TimedMarketEvent)
    (c : Collector)
    → Grows c.pending (depth_update_with p t source x c)
unfolding depth_update_with
depth_update_with-Grows p t source (err e) c = rejected-Grows _ c
depth_update_with-Grows p t source (ok timing) c =
    if_holds {A = CollectorIngressResult × Collector} (Grows c.pending) (not (is_binance source))
      (λ _. rejected-Grows _ c) (λ _. depth_called-Grows timing _ p _ _ c)

depth_snapshot_with-Grows :
    (instrument : String) (p : Binance.Payload) (t : ℤ) (source : String)
    (x : Result DepthError TimedMarketEvent) (c : Collector)
    → Grows c.pending (depth_snapshot_with instrument p t source x c)
unfolding depth_snapshot_with
depth_snapshot_with-Grows instrument p t source (err e) c = rejected-Grows _ c
depth_snapshot_with-Grows instrument p t source (ok timing) c =
    if_holds {A = CollectorIngressResult × Collector} (Grows c.pending) (not (is_binance source))
      (λ _. rejected-Grows _ c) (λ _. depth_called-Grows timing _ p _ _ c)

okx_item_with-Grows :
    (action : Okx.Action) (p : Okx.Payload) (key : String × String) (t : Option ℤ)
    (x : Result DepthError TimedMarketEvent) (c : Collector)
    → Grows c.pending (okx_item_with action p key t x c)
unfolding okx_item_with okx_called put_okx
okx_item_with-Grows action p key t (err e) c = rejected-Grows _ c
okx_item_with-Grows action p key t (ok timing) c = after_call-Grows timing _ _ _ _ _

okx_item-Grows :
    (action : Okx.Action) (key : String × String) (t : Option ℤ) (i : Option Okx.Payload)
    (c : Collector)
    → Grows c.pending (okx_item action key t i c)
unfolding okx_item
okx_item-Grows action key t none c = rejected-Grows _ c
okx_item-Grows action key t (some p) c = okx_item_with-Grows action p key t _ c

-- A loop adds to the result that it started with.
abbrev GrowsFrom : ℕ → List RawCollectorEvent → CollectorIngressResult × Collector → Type 0
GrowsFrom n before (r, c) =
    (more : List RawCollectorEvent) × (c.pending ≡ before ++ more)
    × (n + length more ≡ r.accepted_events)

okx_items-GrowsFrom :
    (action : Okx.Action) (key : String × String) (t : Option ℤ) (items : List (Option Okx.Payload))
    (outcome : CollectorIngressResult) (c : Collector)
    → GrowsFrom outcome.accepted_events c.pending (okx_items action key t items outcome c)
unfolding okx_items merged
okx_items-GrowsFrom action key t [] outcome c = ([], sym (append-nil c.pending), omega arith)
okx_items-GrowsFrom action key t (i ∷ items) outcome c =
    let (first, e, n) = okx_item-Grows action key t i c in
    let (rest, e', n') =
      okx_items-GrowsFrom action key t items (merged outcome (okx_item action key t i c).0)
        (okx_item action key t i c).1 in
    (
      first ++ rest,
      e' ∙ ap (λ xs. xs ++ rest) e ∙ append_assoc c.pending first rest,
      omega (arith, length-append {0} first rest),
    )

pub handle_binance_depth_update-Grows :
    (p : Binance.Payload) (t : ℤ) (source : String) (c : Collector)
    → Grows c.pending (handle_binance_depth_update p t source c)
unfolding handle_binance_depth_update
handle_binance_depth_update-Grows p t source c = depth_update_with-Grows p t source _ c

pub handle_binance_depth_snapshot-Grows :
    (instrument : String) (p : Binance.Payload) (t : ℤ) (source : String) (c : Collector)
    → Grows c.pending (handle_binance_depth_snapshot instrument p t source c)
unfolding handle_binance_depth_snapshot
handle_binance_depth_snapshot-Grows instrument p t source c =
    depth_snapshot_with-Grows instrument p t source _ c

pub handle_okx_books-Grows :
    (items : List (Option Okx.Payload)) (action : Okx.Action) (key : String × String) (t : ℤ)
    (c : Collector)
    → Grows c.pending (handle_okx_books items action key t c)
unfolding handle_okx_books
handle_okx_books-Grows items action key t c =
    let (more, e, n) =
      okx_items-GrowsFrom action key (some t) items nothing
        (record c { okx_books = insert key (okx_book_synchronizer key c) c.okx_books }) in
    (more, e, omega arith)

-- What adds no event.
pub invalidate_binance_depth-Grows :
    (key : String × String) (c : Collector)
    → Grows c.pending (nothing, invalidate_binance_depth key c)
unfolding invalidate_binance_depth
invalidate_binance_depth-Grows key c = ([], sym (append-nil c.pending), refl)

pub mark_gap-Grows : (key : StreamKey) (c : Collector) → Grows c.pending (nothing, mark_gap key c)
mark_gap-Grows key c = ([], mark_gap-pending key c ∙ sym (append-nil c.pending), refl)
