-- ===== src/Backtest/Strategy/Candidates.antt =====
-- btc_short_horizon/backtest/strategy.py: the side that is the candidate, over the signals that lead to
-- an order.
use polymarket_btc.Prelude.{
  Bool-cases, ℤ, bind-ok, string_eq, pair_eq, ok, ◌≡◌, refl, sym, ap, subst, ◌∙◌, ◌⊎◌, inl, inr,
  true, false, not, Option, none, some, List, [], ◌∷◌, arith,
}
use polymarket_btc.Strategy.Types.{TokenSide, OrderPlan, OutcomeBooks}
use polymarket_btc.Strategy.Maker.{CancelReason}
use polymarket_btc.Strategy.Maker.Planning.{plan_opening_mispricing_orders, round_ns, PlanDecision}
use polymarket_btc.Backtest.Signals.{Signal, opening_signal_entry_rejection_reason}
use polymarket_btc.Backtest.Strategy.{Platform, BtcOpeningMispricingConfig, Adapter, outcome_books}
use polymarket_btc.Backtest.Strategy.Entry.{
  act_on, opening_of, decide_with, unless_rejected, submit_plan_if_actionable, is_candidate,
}
use polymarket_btc.Backtest.Strategy.Persistence.{
  IsFresh, accepted-IsFresh, IsJustified, submit_plan_if_actionable-IsJustified,
}
use polymarket_btc.Backtest.Strategy.KeptCandidate.{
  SameCandidate, kept_candidate, place_persistent-SameCandidate,
}

same_candidate :
    (side : TokenSide) (o : Option TokenSide) → is_candidate side o ≡ true → o ≡ some side
same_candidate side o h = ground arith

same_side_of : (a b : TokenSide) → some a ≡ some b → a ≡ b
same_side_of a b h = ground arith

same_time : (a b : ℤ) → some a ≡ some b → a ≡ b
same_time a b h = ground arith

module _ {Book Deltas : Type 0} (v : Platform Book Deltas) (c : BtcOpeningMispricingConfig) where
  -- The signal has no defect and is fresh, both books are valid, and the planner chose the side on them.
  pub record Chooses (d : Signal) (now : ℤ) (s : Adapter Book) (side : TokenSide) : Type 0 where
    pub is_fresh : IsFresh c d now
    pub books : OutcomeBooks
    pub books_eq : outcome_books v c s ≡ some books
    pub decision : PlanDecision
    pub decided : plan_opening_mispricing_orders (opening_of v c d now) books c.maker ≡ ok decision
    pub plan : OrderPlan
    pub plan_eq : decision.plan ≡ some plan
    pub side_eq : plan.side ≡ side

  -- The time from which the side is the candidate: now, or what it was.
  abbrev Since : ℤ → TokenSide → Adapter Book → Adapter Book → Type 0
  Since now side s s' =
      (s'.candidate_since_ts_ns ≡ some now)
      ⊎ ((s.candidate_side ≡ some side) × (s'.candidate_since_ts_ns ≡ s.candidate_since_ts_ns))

  -- What a signal may do to the candidate.
  abbrev Tracks : Signal → ℤ → Adapter Book → Adapter Book → Type 0
  Tracks d now s s' =
      (s'.candidate_side ≡ none)
      ⊎ (((side : TokenSide) × Chooses d now s side
            × (s'.candidate_side ≡ some side)
            × Since now side s s')
          ⊎ ((outcome_books v c s ≡ none) × SameCandidate s s'))

  act_on-Since :
      (now : ℤ) (p : OrderPlan) (s s' : Adapter Book)
      → act_on v c now (some p) s ≡ ok s'
      → (s'.candidate_side ≡ some p.side) × Since now p.side s s'
  unfolding act_on
  act_on-Since now p s s' h = elim (Bool-cases (not (is_candidate p.side s.candidate_side))) [
    | inl new ↦
        let t = record s { candidate_side = some p.side; candidate_since_ts_ns = some now } in
        let (side, since) = kept_candidate t s' (rw new at h) in (side, inl since)
    | inr same ↦
        let (persistence, _, next) =
          bind-ok (round_ns c.maker.edge_persistence_seconds) _ (rw same at h) in
        let (side, since) =
          place_persistent-SameCandidate v c now persistence s.candidate_since_ts_ns p s s' next in
        let was = same_candidate p.side s.candidate_side (ground arith) in
        (side ∙ was, inr (was, since))
  ]

  act_on-none :
      (now : ℤ) (s s' : Adapter Book) → act_on v c now none s ≡ ok s' → s'.candidate_side ≡ none
  unfolding act_on
  act_on-none now s s' h = (kept_candidate _ s' h).0

  decision-Tracks :
      (d : Signal) (now : ℤ) (b : OutcomeBooks) (x : PlanDecision) (o : Option OrderPlan)
      (s s' : Adapter Book)
      → outcome_books v c s ≡ some b
      → IsFresh c d now
      → plan_opening_mispricing_orders (opening_of v c d now) b c.maker ≡ ok x
      → x.plan ≡ o
      → act_on v c now o s ≡ ok s'
      → Tracks d now s s'
  decision-Tracks d now b x none s s' e f q p h = inl (act_on-none now s s' h)
  decision-Tracks d now b x (some plan) s s' e f q p h =
      let (side, since) = act_on-Since now plan s s' h in
      let chooses : Chooses d now s plan.side = record {
        is_fresh = f;
        books = b;
        books_eq = e;
        decision = x;
        decided = q;
        plan = plan;
        plan_eq = p;
        side_eq = refl;
      } in
      inr (inl (plan.side, chooses, side, since))

  decide_with-Tracks :
      (d : Signal) (now : ℤ) (o : Option OutcomeBooks) (s s' : Adapter Book)
      → outcome_books v c s ≡ o
      → IsFresh c d now
      → decide_with v c d now o s ≡ ok s'
      → Tracks d now s s'
  unfolding decide_with
  decide_with-Tracks d now none s s' e f h = inr (inr (e, kept_candidate s s' h))
  decide_with-Tracks d now (some b) s s' e f h =
      let (x, q, next) =
        bind-ok (plan_opening_mispricing_orders (opening_of v c d now) b c.maker) _ h in
      decision-Tracks d now b x x.plan s s' e f q refl next

  unless_rejected-Tracks :
      (reason : Option CancelReason) (d : Signal) (now : ℤ) (s s' : Adapter Book)
      → opening_signal_entry_rejection_reason d now c.maker.stale_after_seconds ≡ ok reason
      → unless_rejected v c reason d now s ≡ ok s'
      → Tracks d now s s'
  unfolding unless_rejected
  unless_rejected-Tracks (some reason) d now s s' r h = inl (kept_candidate _ s' h).0
  unless_rejected-Tracks none d now s s' r h =
      decide_with-Tracks d now (outcome_books v c s) s s' refl (accepted-IsFresh c d now r) h

  submit_plan_if_actionable-Tracks :
      (d : Signal) (now : ℤ) (s s' : Adapter Book)
      → submit_plan_if_actionable v c d now s ≡ ok s'
      → Tracks d now s s'
  unfolding submit_plan_if_actionable
  submit_plan_if_actionable-Tracks d now s s' h =
      let (reason, eq, next) =
        bind-ok (opening_signal_entry_rejection_reason d now c.maker.stale_after_seconds) _ h in
      unless_rejected-Tracks reason d now s s' eq next

  -- A call that returned.
  pub record Evaluation : Type 0 where
    pub signal : Signal
    pub now : ℤ
    pub before : Adapter Book
    pub after : Adapter Book
    pub returned : submit_plan_if_actionable v c signal now before ≡ ok after

  -- The state has the candidate that the calls leave, the last one first, when they start with none.
  -- Between two calls anything but the candidate may change.
  abbrev pub Reaches : List Evaluation → Adapter Book → Type 0
  Reaches [] s = s.candidate_side ≡ none
  Reaches (x ∷ xs) s = SameCandidate x.after s × Reaches xs x.before

  -- One of the calls, at the given time, chose the side, and so did every call after it that had valid books.
  abbrev pub Held : TokenSide → ℤ → List Evaluation → Type 0
  Held side from [] = false ≡ true
  Held side from (x ∷ xs) =
      (Chooses x.signal x.now x.before side × ((x.now ≡ from) ⊎ Held side from xs))
      ⊎ ((outcome_books v c x.before ≡ none) × Held side from xs)

  Reaches-Held :
      (xs : List Evaluation) (s : Adapter Book) (side : TokenSide) (from : ℤ)
      → Reaches xs s
      → s.candidate_side ≡ some side
      → s.candidate_since_ts_ns ≡ some from
      → Held side from xs
  Reaches-Held [] s side from h e t = let no : none ≡ some side = sym h ∙ e in cc
  Reaches-Held (x ∷ xs) s side from ((same, since), h) e t =
      elim (submit_plan_if_actionable-Tracks x.signal x.now x.before x.after x.returned) [
        | inl dropped ↦ let no : none ≡ some side = sym dropped ∙ sym same ∙ e in cc
        | inr (inl (other, chooses, is_other, from_when)) ↦
            let side_eq = same_side_of other side (sym is_other ∙ sym same ∙ e) in
            inl (
              subst (Chooses x.signal x.now x.before) side_eq chooses,
              elim from_when [
                | inl now ↦ inl (same_time x.now from (sym now ∙ sym since ∙ t))
                | inr (was, kept) ↦ inr (
                    Reaches-Held xs x.before side from h (was ∙ ap some side_eq)
                      (sym kept ∙ sym since ∙ t))
              ],
            )
        | inr (inr (no_books, (kept, kept_since))) ↦ inr (
          no_books,
          Reaches-Held xs x.before side from h (sym kept ∙ sym same ∙ e)
              (sym kept_since ∙ sym since ∙ t),
        )
      ]

  -- After any calls of `_submit_plan_if_actionable` that returned, the first of them with no candidate, and
  -- between which anything but the candidate may change: where the next call returns and makes a call of
  -- the platform, its signal has no defect and is not stale, both books are valid, the planner accepted a
  -- plan on them, and its side is the candidate for at least the persistence that the configuration asks
  -- for. One of the calls, at the time from which this is counted, chose the same side, on a signal without
  -- defect that was not stale, and so did every call after it, but for those at which a book was not valid.
  pub submit_plan_if_actionable-Held :
      (xs : List Evaluation) (d : Signal) (now : ℤ) (s s' : Adapter Book)
      → Reaches xs s
      → submit_plan_if_actionable v c d now s ≡ ok s'
      → (s'.calls ≡ s.calls) ⊎ ((j : IsJustified v c d now s) × Held j.plan.side j.since xs)
  submit_plan_if_actionable-Held xs d now s s' r h =
      elim (submit_plan_if_actionable-IsJustified v c d now s s' h) [
        | inl quiet ↦ inl quiet
        | inr j ↦ inr (
          j,
          Reaches-Held xs s j.plan.side j.since r
              (same_candidate j.plan.side s.candidate_side j.candidate) j.since_eq,
        )
      ]
