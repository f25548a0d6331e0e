-- ===== src/Backtest/Strategy/Persistence.antt =====
-- btc_short_horizon/backtest/strategy.py: when orders are submitted, and when they are canceled.
use polymarket_btc.Prelude.{
  Bool-cases, ◌-ℤ◌, ltb_ℤ, ℤ, bind-ok, raise_if-ok, Result, string_eq, pair_eq, is_finite, zero_f,
  ◌<f◌, ◌≤f◌, Float, ok, ◌≡◌, refl, ◌⊎◌, inl, inr, true, false, not, ◌||◌, Option, none, some,
  arith,
}
use polymarket_btc.Strategy.Types.{StrategyError, bad_config, OrderPlan, OutcomeBooks}
use polymarket_btc.Strategy.Maker.{CancelReason}
use polymarket_btc.Strategy.Maker.Planning.{plan_opening_mispricing_orders, round_ns, PlanDecision}
use polymarket_btc.Backtest.Signals.{
  Signal, opening_signal_entry_rejection_reason, opening_signal_data_age_seconds, flag_reason,
  reason_or, stale_reason,
}
use polymarket_btc.Backtest.Strategy.{Platform, BtcOpeningMispricingConfig, Adapter, outcome_books}
use polymarket_btc.Backtest.Strategy.Entry.{
  place_persistent, act_on, opening_of, decide_with, unless_rejected, submit_plan_if_actionable,
  is_candidate,
}

-- The signal has no defect and is fresh.
pub record IsFresh (c : BtcOpeningMispricingConfig) (d : Signal) (now : ℤ) : Type 0 where
  pub flags : flag_reason d ≡ none
  pub age : Float
  pub age_eq : opening_signal_data_age_seconds d now ≡ ok age
  pub fresh_enough : (c.maker.stale_after_seconds <f age) ≡ false

stale_reason-none :
    (d : Signal) (now : ℤ) (x : Float)
    → stale_reason d now x ≡ ok none
    → (age : Float) × (opening_signal_data_age_seconds d now ≡ ok age) × ((x <f age) ≡ false)
unfolding stale_reason
stale_reason-none d now x h =
    let (age, eq, next) = bind-ok (opening_signal_data_age_seconds d now) _ h in
    (age, eq, ground arith)

reason_or-none :
    (o : Option CancelReason) (r : Result StrategyError (Option CancelReason))
    → reason_or o r ≡ ok none
    → (o ≡ none) × (r ≡ ok none)
unfolding reason_or
reason_or-none none r h = (refl, h)
reason_or-none (some reason) r h = absurd (ground arith)

pub accepted-IsFresh :
    (c : BtcOpeningMispricingConfig) (d : Signal) (now : ℤ)
    → opening_signal_entry_rejection_reason d now c.maker.stale_after_seconds ≡ ok none
    → IsFresh c d now
unfolding opening_signal_entry_rejection_reason
accepted-IsFresh c d now h =
    let age = c.maker.stale_after_seconds in
    let (_, next) = raise_if-ok (age ≤f zero_f || not (is_finite age)) bad_config _ h in
    let (flags, last) =
      reason_or-none (flag_reason d) (stale_reason d now c.maker.stale_after_seconds) next in
    let (old, eq, fresh_enough) = stale_reason-none d now age last in
    record { flags = flags; age = old; age_eq = eq; fresh_enough = fresh_enough }

module _ {Book Deltas : Type 0} (v : Platform Book Deltas) (c : BtcOpeningMispricingConfig) where
  -- Why orders may be submitted at the time `now`.
  pub record IsJustified (d : Signal) (now : ℤ) (s : Adapter Book) : Type 0 where
    pub is_fresh : IsFresh c d now
    pub books : OutcomeBooks
    pub books_eq : outcome_books v c s ≡ some books
    pub decision : PlanDecision
    pub decided : plan_opening_mispricing_orders (opening_of v c d now) books c.maker ≡ ok decision
    pub plan : OrderPlan
    pub plan_eq : decision.plan ≡ some plan
    pub candidate : is_candidate plan.side s.candidate_side ≡ true
    pub since : ℤ
    pub since_eq : s.candidate_since_ts_ns ≡ some since
    pub persistence : ℤ
    pub persistence_eq : round_ns c.maker.edge_persistence_seconds ≡ ok persistence
    pub long_enough : ltb_ℤ (now -ℤ since) persistence ≡ false

  -- The plan may be placed: its side has been the candidate for long enough.
  record IsPersistent (now : ℤ) (o : Option OrderPlan) (s : Adapter Book) : Type 0 where
    of : OrderPlan
    of_eq : o ≡ some of
    side_kept : is_candidate of.side s.candidate_side ≡ true
    from : ℤ
    from_eq : s.candidate_since_ts_ns ≡ some from
    least : ℤ
    least_eq : round_ns c.maker.edge_persistence_seconds ≡ ok least
    kept : ltb_ℤ (now -ℤ from) least ≡ false

  place_persistent-since :
      (now least : ℤ) (since : Option ℤ) (p : OrderPlan) (s s' : Adapter Book)
      → place_persistent v c now least since p s ≡ ok s'
      → (s' ≡ s) ⊎ ((from : ℤ) × (since ≡ some from) × (ltb_ℤ (now -ℤ from) least ≡ false))
  unfolding place_persistent
  place_persistent-since now least none p s s' h = absurd (ground arith)
  place_persistent-since now least (some from) p s s' h =
      elim (Bool-cases (ltb_ℤ (now -ℤ from) least)) [
        | inl early ↦ inl (ground arith)
        | inr late ↦ inr (from, refl, late)
      ]

  act_on-IsPersistent :
      (now : ℤ) (o : Option OrderPlan) (s s' : Adapter Book)
      → act_on v c now o s ≡ ok s'
      → (s'.calls ≡ s.calls) ⊎ IsPersistent now o s
  unfolding act_on
  act_on-IsPersistent now none s s' h = inl (ground arith)
  act_on-IsPersistent now (some p) s s' h =
      elim (Bool-cases (not (is_candidate p.side s.candidate_side))) [
        | inl new ↦ inl (ground arith)
        | inr same ↦
            let (least, eq, next) =
              bind-ok (round_ns c.maker.edge_persistence_seconds) _ (rw same at h) in
            elim (place_persistent-since now least s.candidate_since_ts_ns p s s' next) [
              | inl waits ↦ inl (rw waits refl)
              | inr (from, from_eq, late) ↦ inr (record {
                of = p;
                of_eq = refl;
                side_kept = ground arith;
                from = from;
                from_eq = from_eq;
                least = least;
                least_eq = eq;
                kept = late;
              })
            ]
      ]

  decide_with-IsJustified :
      (d : Signal) (now : ℤ) (o : Option OutcomeBooks) (s s' : Adapter Book)
      → outcome_books v c s ≡ o
      → IsFresh c d now
      → decide_with v c d now o s ≡ ok s'
      → (s'.calls ≡ s.calls) ⊎ IsJustified d now s
  unfolding decide_with
  decide_with-IsJustified d now none s s' b f h = inl (ground arith)
  decide_with-IsJustified d now (some books) s s' b f h =
      let (decision, eq, next) =
        bind-ok (plan_opening_mispricing_orders (opening_of v c d now) books c.maker) _ h in
      elim (act_on-IsPersistent now decision.plan s s' next) [
        | inl waits ↦ inl waits
        | inr q ↦ inr (record {
          is_fresh = f;
          books = books;
          books_eq = b;
          decision = decision;
          decided = eq;
          plan = q.of;
          plan_eq = q.of_eq;
          candidate = q.side_kept;
          since = q.from;
          since_eq = q.from_eq;
          persistence = q.least;
          persistence_eq = q.least_eq;
          long_enough = q.kept;
        })
      ]

  unless_rejected-IsJustified :
      (reason : Option CancelReason) (d : Signal) (now : ℤ) (s s' : Adapter Book)
      → opening_signal_entry_rejection_reason d now c.maker.stale_after_seconds ≡ ok reason
      → unless_rejected v c reason d now s ≡ ok s'
      → (s'.calls ≡ s.calls) ⊎ IsJustified d now s
  unfolding unless_rejected
  unless_rejected-IsJustified (some reason) d now s s' r h = inl (ground arith)
  unless_rejected-IsJustified none d now s s' r h =
      decide_with-IsJustified d now (outcome_books v c s) s s' refl (accepted-IsFresh c d now r) h

  -- When it does not raise, `_submit_plan_if_actionable` makes a call of the platform only if the
  -- signal has no defect and is not stale, both books are valid, the planner accepted a plan on
  -- them, and its side has been the candidate for at least the persistence that the configuration
  -- asks for.
  pub submit_plan_if_actionable-IsJustified :
      (d : Signal) (now : ℤ) (s s' : Adapter Book)
      → submit_plan_if_actionable v c d now s ≡ ok s'
      → (s'.calls ≡ s.calls) ⊎ IsJustified d now s
  unfolding submit_plan_if_actionable
  submit_plan_if_actionable-IsJustified d now s s' h =
      let (reason, eq, next) =
        bind-ok (opening_signal_entry_rejection_reason d now c.maker.stale_after_seconds) _ h in
      unless_rejected-IsJustified reason d now s s' eq next
