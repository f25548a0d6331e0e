-- ===== src/Data/Forward/Conservation.antt =====
-- What becomes of the events that the collector accepted, whatever the writer does and whatever arrives
-- while a flush runs.
use mathlib.Core.List.{append-nil, append_assoc}
use polymarket_btc.Prelude.{
  IsMember, IsMember-append, IsMember-after, All, All-map, All-append, member, subst, if_holds,
  length, is_empty, length-append, nat_eq, string_eq, pair_eq, ℕ, ◌≡◌, refl, sym, ap, ◌∙◌, List, [],
  ◌∷◌, ◌++◌, arith,
}
use polymarket_btc.Data.Forward.{
  PartitionKey, partition_key, CollectorIngressResult, nothing, RawCollectorEvent, Collector,
  mark_gap,
}
use polymarket_btc.Data.Forward.Growth.{
  Grows, mark_gap-Grows, invalidate_binance_depth-Grows, handle_binance_depth_update-Grows,
  handle_binance_depth_snapshot-Grows, handle_okx_books-Grows,
}
use polymarket_btc.Data.Forward.Handlers.{
  handle_binance_depth_update, handle_binance_depth_snapshot, handle_okx_books,
  invalidate_binance_depth,
}
use polymarket_btc.Data.Forward.Flush.{
  WriterOutcome, returned, raises_after, events_of, Flush, idle, events_taken, counts_taken, World,
  flush_begin, flush_counts, flush_end, Step, depth_update, depth_snapshot, okx_books,
  depth_invalidated, gap_marked, flush_begins, flush_counted, flush_ends, step, run,
}

-- The events that are stored, that a flush has taken, and that wait.
abbrev in_flight : Flush → List RawCollectorEvent
in_flight idle = []
in_flight (events_taken events) = events
in_flight (counts_taken events counts) = events

unfoldable pub held : World → List RawCollectorEvent
held w = w.stored ++ (in_flight w.flush ++ w.collector.pending)

-- Every event of the list is held.
abbrev AreHeld : World → List RawCollectorEvent → Type 0
AreHeld w es = All (λ e. IsMember e (held w)) es

-- So many events come to those that are held, and what a writer left behind as it raised is held still.
abbrev pub Extends : World → ℕ × World → Type 0
Extends before (n, w) =
    (more : List RawCollectorEvent) × (again : List RawCollectorEvent) × (held w
      ≡ held before ++ more)
    × (length more ≡ n)
    × (w.left_behind ≡ before.left_behind ++ again)
    × AreHeld w again

-- A handler changes only the collector.
handled-Extends :
    (w : World) (x : CollectorIngressResult × Collector)
    → Grows w.collector.pending x
    → Extends w (x.0.accepted_events, record w { collector = x.1 })
unfolding held
handled-Extends w (r, c) (more, e, n) = (
  more,
  [],
  ap (λ xs. w.stored ++ (in_flight w.flush ++ xs)) e
      ∙ ap (λ xs. w.stored ++ xs) (sym (append_assoc (in_flight w.flush) w.collector.pending more))
      ∙ sym (append_assoc w.stored (in_flight w.flush ++ w.collector.pending) more),
  n,
  sym (append-nil w.left_behind),
  tt,
)

-- A step of a flush moves events.
moved-Extends :
    (w w' : World) (again : List RawCollectorEvent)
    → held w' ≡ held w
    → w'.left_behind ≡ w.left_behind ++ again
    → AreHeld w' again
    → Extends w (0, w')
moved-Extends w w' again e left kept = ([], again, e ∙ sym (append-nil (held w)), refl, left, kept)

kept-Extends :
    (w w' : World) → held w' ≡ held w → w'.left_behind ≡ w.left_behind → Extends w (0, w')
kept-Extends w w' e left = moved-Extends w w' [] e (left ∙ sym (append-nil w.left_behind)) tt

flush_begin-left : (w : World) (f : Flush) → (flush_begin w f).left_behind ≡ w.left_behind
unfolding flush_begin
flush_begin-left w f = ground arith

flush_counts-left : (w : World) (f : Flush) → (flush_counts w f).left_behind ≡ w.left_behind
unfolding flush_counts
flush_counts-left w f = ground arith

events_of-IsMember :
    (keys : List PartitionKey) (es : List RawCollectorEvent)
    → All (λ e. IsMember e es) (events_of keys es)
unfolding events_of
events_of-IsMember keys [] = tt
events_of-IsMember keys (e ∷ es) =
    let rest =
      All-map (events_of keys es) (λ x h. IsMember-after x (e ∷ []) es h)
        (events_of-IsMember keys es) in
    if_holds (λ (xs : List RawCollectorEvent). All (λ x. IsMember x (e ∷ es)) xs)
      (member (partition_key e.timing) keys) (λ _. ((0, refl), rest)) (λ _. rest)

flush_begin-held : (w : World) (f : Flush) → w.flush ≡ f → held (flush_begin w f) ≡ held w
unfolding flush_begin held
flush_begin-held w idle e =
    if_holds (λ (v : World). held v ≡ held w) (is_empty w.collector.pending) (λ _. refl)
      (λ _. rw e (ap (λ xs. w.stored ++ xs) (append-nil w.collector.pending)))
flush_begin-held w (events_taken es) e = refl
flush_begin-held w (counts_taken es ns) e = refl

flush_counts-held : (w : World) (f : Flush) → w.flush ≡ f → held (flush_counts w f) ≡ held w
unfolding flush_counts held
flush_counts-held w idle e = refl
flush_counts-held w (events_taken es) e = rw e refl
flush_counts-held w (counts_taken es ns) e = refl

flush_end-Extends :
    (outcome : WriterOutcome) (w : World) (f : Flush)
    → w.flush ≡ f
    → Extends w (0, flush_end outcome w f)
unfolding flush_end held
flush_end-Extends returned w idle e = kept-Extends w w refl refl
flush_end-Extends (raises_after keys) w idle e = kept-Extends w w refl refl
flush_end-Extends returned w (events_taken es) e = kept-Extends w w refl refl
flush_end-Extends (raises_after keys) w (events_taken es) e = kept-Extends w w refl refl
flush_end-Extends returned w (counts_taken es ns) e =
    kept-Extends w (flush_end returned w (counts_taken es ns))
      (append_assoc w.stored es w.collector.pending ∙ rw e refl) refl
flush_end-Extends (raises_after keys) w (counts_taken es ns) e =
    moved-Extends w (flush_end (raises_after keys) w (counts_taken es ns)) (events_of keys es)
      (rw e refl) refl
      (All-map (events_of keys es)
        (λ x h.
          IsMember-after x w.stored (es ++ w.collector.pending)
            (IsMember-append x es w.collector.pending h))
        (events_of-IsMember keys es))

step-Extends : (x : Step) (w : World) → Extends w ((step x w).0.accepted_events, (step x w).1)
unfolding step
step-Extends (depth_update p t source) w =
    handled-Extends w (handle_binance_depth_update p t source w.collector)
      (handle_binance_depth_update-Grows p t source w.collector)
step-Extends (depth_snapshot instrument p t source) w =
    handled-Extends w (handle_binance_depth_snapshot instrument p t source w.collector)
      (handle_binance_depth_snapshot-Grows instrument p t source w.collector)
step-Extends (okx_books items action key t) w =
    handled-Extends w (handle_okx_books items action key t w.collector)
      (handle_okx_books-Grows items action key t w.collector)
step-Extends (depth_invalidated key) w =
    handled-Extends w (nothing, invalidate_binance_depth key w.collector)
      (invalidate_binance_depth-Grows key w.collector)
step-Extends (gap_marked key) w =
    handled-Extends w (nothing, mark_gap key w.collector) (mark_gap-Grows key w.collector)
step-Extends flush_begins w =
    kept-Extends w _ (flush_begin-held w w.flush refl) (flush_begin-left w w.flush)
step-Extends flush_counted w =
    kept-Extends w _ (flush_counts-held w w.flush refl) (flush_counts-left w w.flush)
step-Extends (flush_ends outcome) w = flush_end-Extends outcome w w.flush refl

-- Whatever the handlers are given, whether the writer returns or raises after some partitions, and wherever
-- the steps of a flush fall between the handlers: the events that writes that returned have stored, those
-- that a flush has taken and those that wait, in this order, are after the run what they were before it,
-- followed by exactly as many events as the results of the run say were accepted. An event that a write
-- stored in the run before it raised is still among them, so that it is stored once more.
pub run-held : (xs : List Step) (w : World) → Extends w (run xs w)
unfolding run
run-held [] w = ([], [], sym (append-nil (held w)), refl, sym (append-nil w.left_behind), tt)
run-held (x ∷ xs) w =
    let (first, left, e, n, l, kept) = step-Extends x w in
    let (rest, left', e', n', l', kept') = run-held xs (step x w).1 in
    let still =
      All-map left
        (λ y h. subst (IsMember y) (sym e') (IsMember-append y (held (step x w).1) rest h)) kept in
    (
      first ++ rest,
      left ++ left',
      e' ∙ ap (λ ys. ys ++ rest) e ∙ append_assoc (held w) first rest,
      omega (arith, length-append {0} first rest),
      l' ∙ ap (λ ys. ys ++ left') l ∙ append_assoc w.left_behind left left',
      All-append (λ y. IsMember y (held (run xs (step x w).1).1)) left left' still kept',
    )
