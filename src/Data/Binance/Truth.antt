-- ===== src/Data/Binance/Truth.antt =====
-- `BinanceDiffDepthBook` against the history of the venue's book that the updates tell of.
use polymarket_btc.Prelude.{
  if_holds, ℤ, bind-ok, Result, nat_eq, string_eq, pair_eq, ok, err, ℕ, ◌+◌, ◌≤◌, ◌≡◌, refl, sym,
  ap, subst, ◌∙◌, Option, some, List, [], arith,
}
use polymarket_btc.Data.Books.{DepthError, rows, DepthApplyResult}
use polymarket_btc.Data.Books.Views.{
  Venue, SameInRange, ShowsRange, Leads, apply_levels-SameInRange, update_all-SameInRange,
}
use polymarket_btc.Data.Binance.{
  Payload, nonnegative_int, levels, get_levels, DiffDepthBook, snapshot_parts, reset_to,
  snapshot_with, gap_result, Verdict, is_stale, is_covered, is_gap, continuity, verdict_between,
  verdict_of, change_asks, change_sides, act_on, delta_after, apply_delta,
}

verdict_between-covered :
    (p : Payload) (last first final n : ℕ)
    → verdict_between p last first final ≡ ok (is_covered n)
    → (final ≡ n) × (first ≤ last + 1) × (last + 1 ≤ n)
unfolding verdict_between continuity
verdict_between-covered p last first final n h = ground arith

-- The verdict that lets an update change the book.
verdict_of-covered :
    (p : Payload) (last final : ℕ)
    → verdict_of p last ≡ ok (is_covered final)
    → (first : ℕ) × (nonnegative_int p.first_update_id ≡ ok first)
      × (nonnegative_int p.final_update_id ≡ ok final)
      × (first ≤ last + 1)
      × (last + 1 ≤ final)
unfolding verdict_of
verdict_of-covered p last final h =
    let (first, hf, h') = bind-ok (nonnegative_int p.first_update_id) _ h in
    let (n, hn, h'') = bind-ok (nonnegative_int p.final_update_id) _ h' in
    let (same, lo, hi) = verdict_between-covered p last first n final h'' in
    (first, hf, hn ∙ ap ok same, lo, hi)

-- The venue's book, and the range of its snapshots.
module _ (venue : Venue) where
  -- An update that the venue sent: its levels can be read, and they lead from the book after any
  -- identifier that it follows on to the book after its last one.
  pub record IsTrueDelta (p : Payload) : Type 0 where
    pub new_bids : List (ℕ × ℕ)
    pub new_asks : List (ℕ × ℕ)
    pub bids_read : levels (get_levels p.b (rows [])) ≡ ok new_bids
    pub asks_read : levels (get_levels p.a (rows [])) ≡ ok new_asks
    pub leads :
        (first final n : ℕ)
        → nonnegative_int p.first_update_id ≡ ok first
        → nonnegative_int p.final_update_id ≡ ok final
        → first ≤ n + 1
        → n + 1 ≤ final
        → Leads venue.book new_bids new_asks (venue.book n).bids (venue.book n).asks final

  -- A snapshot that can be read has, in its range, the sizes of the venue's book after its identifier.
  abbrev pub IsTrueSnapshot : Payload → Type 0
  IsTrueSnapshot p =
      (n : ℕ) (bids asks : List (ℕ × ℕ))
      → snapshot_parts p ≡ ok (n, bids, asks)
      → ShowsRange bids asks venue n

  -- The book is that of the venue after its last identifier, in the range of its snapshots.
  abbrev pub Agrees : DiffDepthBook → Type 0
  Agrees k = (n : ℕ) × (k.last_update_id ≡ some n) × SameInRange k.bids k.asks venue n

  change_sides-Agrees :
      (p : Payload) (t : Option ℤ) (k : DiffDepthBook) (last first final : ℕ)
      → IsTrueDelta p
      → nonnegative_int p.first_update_id ≡ ok first
      → nonnegative_int p.final_update_id ≡ ok final
      → first ≤ last + 1
      → last + 1 ≤ final
      → SameInRange k.bids k.asks venue last
      → Agrees (change_sides p t final k (levels (get_levels p.b (rows [])))).1
  unfolding change_sides change_asks
  change_sides-Agrees p t k last first final d hf hl lo hi same =
      rw (d.bids_read, d.asks_read)
        (
          final,
          refl,
          apply_levels-SameInRange venue d.new_bids d.new_asks k.bids k.asks last final same
              (d.leads first final last hf hl lo hi),
        )

  act_on-Agrees :
      (p : Payload) (t : Option ℤ) (k : DiffDepthBook) (last : ℕ) (v : Result DepthError Verdict)
      → IsTrueDelta p
      → k.last_update_id ≡ some last
      → SameInRange k.bids k.asks venue last
      → verdict_of p last ≡ v
      → Agrees (act_on p t k v).1
  unfolding act_on gap_result
  act_on-Agrees p t k last (err e) d e' same h = (last, e', same)
  act_on-Agrees p t k last (ok (is_stale n)) d e' same h = (last, e', same)
  act_on-Agrees p t k last (ok (is_gap reason)) d e' same h = (last, e', same)
  act_on-Agrees p t k last (ok (is_covered final)) d e' same h =
      let (first, hf, hl, lo, hi) = verdict_of-covered p last final h in
      change_sides-Agrees p t k last first final d hf hl lo hi same

  delta_after-Agrees :
      (p : Payload) (t : Option ℤ) (k : DiffDepthBook) (n : ℕ)
      → IsTrueDelta p
      → k.last_update_id ≡ some n
      → SameInRange k.bids k.asks venue n
      → Agrees (delta_after p t k (some n)).1
  unfolding delta_after
  delta_after-Agrees p t k n d e same =
      if_holds {A = Result DepthError DepthApplyResult × DiffDepthBook} (λ x. Agrees x.1)
        k.is_synchronized (λ _. act_on-Agrees p t k n (verdict_of p n) d e same refl)
        (λ _. (n, e, same))

  pub apply_delta-Agrees :
      (p : Payload) (t : Option ℤ) (k : DiffDepthBook)
      → IsTrueDelta p
      → Agrees k
      → Agrees (apply_delta p t k).1
  unfolding apply_delta
  apply_delta-Agrees p t k d (n, e, same) =
      subst (λ o. Agrees (delta_after p t k o).1) (sym e) (delta_after-Agrees p t k n d e same)

  pub snapshot_with-Agrees :
      (p : Payload) (t : ℤ) (k : DiffDepthBook)
      (parts : Result DepthError (ℕ × List (ℕ × ℕ) × List (ℕ × ℕ))) {r : DepthApplyResult}
      → IsTrueSnapshot p
      → snapshot_parts p ≡ parts
      → (snapshot_with p t k parts).0 ≡ ok r
      → Agrees (snapshot_with p t k parts).1
  unfolding snapshot_with reset_to
  snapshot_with-Agrees p t k (err e) d read h = cc
  snapshot_with-Agrees p t k (ok (n, bids, asks)) d read h =
      (n, refl, update_all-SameInRange venue bids asks n (d n bids asks read))
