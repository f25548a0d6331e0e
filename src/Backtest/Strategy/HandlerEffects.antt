-- ===== src/Backtest/Strategy/HandlerEffects.antt =====
-- btc_short_horizon/backtest/strategy.py: what each handler does.
use polymarket_btc.Prelude.{
  Bool, true, false, Bool-cases, leb_ℤ, ℤ, bind-ok, Result, string_eq, pair_eq, has_key, zero_f,
  ◌≤f◌, Float, pos, ok, err, String, ◌≡◌, refl, inl, inr, not, ◌||◌, Option, none, some, [], ◌∷◌,
  ◌++◌, arith, str_eq,
}
use polymarket_btc.Strategy.Types.{StrategyError, TokenSide, up, down}
use polymarket_btc.Strategy.Lifecycle.{
  MarketExecution, order_working, monitoring, is_phase, apply, begin_event, fill_event,
  begin_monitoring, record_fill,
}
use polymarket_btc.Backtest.Signals.{Signal, validate_opening_mispricing_signal}
use polymarket_btc.Backtest.Strategy.{
  Platform, BtcOpeningMispricingConfig, Adapter, record_audit, stop, side_for_instrument,
}
use polymarket_btc.Backtest.Strategy.Effects.{
  submits_stop, Effect, Effect-idle, Effect-call, Effect-after,
}
use polymarket_btc.Backtest.Strategy.OrderEffects.{
  request_cancel_all-Effect, close_order_event-Effect,
}
use polymarket_btc.Backtest.Strategy.PlanEffects.{
  submit_plan_if_actionable-Effect, evaluate_plan-Effect,
}
use polymarket_btc.Backtest.Strategy.Handlers.{
  ReplayEvent, start_event, stop_event, reset_event, signal_event, deltas_event, filled_event,
  closed_event, process, process_latest, on_start, is_none, audit_of, is_refusal, after_validation,
  on_data, apply_to_book, deltas_for, on_order_book_deltas, keep_fill, fill_of, sized_fill,
  on_order_filled, on_stop, step,
}

abbrev pub is_reset : {Deltas : Type 0} → ReplayEvent Deltas → Bool
is_reset reset_event = true
is_reset _ = false

module _ {Book Deltas : Type 0} (v : Platform Book Deltas) (c : BtcOpeningMispricingConfig) where
  process-Effect :
      (d : Signal) (now : ℤ) (s s' : Adapter Book) → process v c d now s ≡ ok s' → Effect s s'
  unfolding process
  process-Effect d now s s' h = elim (Bool-cases (is_phase s.execution.phase monitoring)) [
    | inl watching ↦ submit_plan_if_actionable-Effect v c d now s s' (rw watching at h)
    | inr other ↦ elim (Bool-cases (is_phase s.execution.phase order_working)) [
      | inl working ↦
          evaluate_plan-Effect v c s.execution.plan d now s s' (rw (other, working) at h)
      | inr done ↦ Effect-idle s s' (rw (other, done) at h)
    ]
  ]

  process_latest-Effect :
      (o : Option Signal) (now : ℤ) (s s' : Adapter Book)
      → process_latest v c o now s ≡ ok s'
      → Effect s s'
  unfolding process_latest
  process_latest-Effect none now s s' h = Effect-idle s s' h
  process_latest-Effect (some d) now s s' h = elim (Bool-cases (leb_ℤ now (pos 0))) [
    | inl early ↦ Effect-idle s s' (rw early at h)
    | inr timed ↦ process-Effect d now s s' (rw timed at h)
  ]

  on_start-Effect : (s s' : Adapter Book) → on_start v c s ≡ ok s' → Effect s s'
  unfolding on_start apply
  on_start-Effect s s' h =
      elim (Bool-cases (is_none (v.instrument up) || is_none (v.instrument down))) [
        | inl missing ↦
            Effect-after s (record s { instruments = v.instrument; calls = s.calls ++ stop ∷ [] })
              s' refl (submits_stop s.calls) (Effect-idle _ s' (rw missing at h))
        | inr complete ↦
            let (e, eq, next) = bind-ok (begin_monitoring s.execution) _ (rw complete at h) in
            let same : s' ≡ record s { instruments = v.instrument; execution = e } = ground arith in
            rw same (
              Effect-call begin_event s (record s { instruments = v.instrument; execution = e }) tt
                eq refl)
      ]

  after_validation-Effect :
      (r : Result StrategyError Unit) (d : Signal) (s s' : Adapter Book)
      → after_validation v c r d s ≡ ok s'
      → Effect s s'
  unfolding after_validation
  after_validation-Effect (err invalid) d s s' h = Effect-idle s s' h
  after_validation-Effect (ok _) d s s' h =
      let t = record s { latest_signal = some d } in
      Effect-after s t s' refl refl (process_latest-Effect (some d) d.ts_init t s' h)

  on_data-Effect : (d : Signal) (s s' : Adapter Book) → on_data v c d s ≡ ok s' → Effect s s'
  unfolding on_data
  on_data-Effect d s s' h = elim (Bool-cases (not (str_eq d.market_slug c.market_slug))) [
    | inl other ↦ Effect-idle s s' (rw other at h)
    | inr ours ↦
        after_validation-Effect (validate_opening_mispricing_signal d) d s s' (rw ours at h)
  ]

  deltas_for-Effect :
      (o : Option TokenSide) (deltas : Deltas) (ts : ℤ) (s s' : Adapter Book)
      → deltas_for v c o deltas ts s ≡ ok s'
      → Effect s s'
  unfolding deltas_for apply_to_book
  deltas_for-Effect none deltas ts s s' h = Effect-idle s s' h
  deltas_for-Effect (some side) deltas ts s s' h =
      let t = apply_to_book v c side deltas s in
      Effect-after s t s' refl refl (process_latest-Effect t.latest_signal ts t s' h)

  keep_fill-Effect :
      (size : Float) (r : Result StrategyError MarketExecution) (s s' : Adapter Book)
      → record_fill size s.execution ≡ r
      → keep_fill v c r s ≡ ok s'
      → Effect s s'
  unfolding keep_fill apply
  keep_fill-Effect size (ok e) s s' r h =
      let same : s' ≡ record s { execution = e } = ground arith in
      rw same (Effect-call (fill_event size) s (record s { execution = e }) tt r refl)
  keep_fill-Effect size (err raised) s s' r h =
      Effect-after s (record s { calls = s.calls ++ stop ∷ [] }) s' refl (submits_stop s.calls)
        (Effect-idle _ s' h)

  sized_fill-Effect :
      (id : String) (o : Option Float) (ts : ℤ) (s s' : Adapter Book)
      → sized_fill v c id o ts s ≡ ok s'
      → Effect s s'
  unfolding sized_fill fill_of
  sized_fill-Effect id none ts s s' h = Effect-idle s s' h
  sized_fill-Effect id (some size) ts s s' h = elim (Bool-cases (size ≤f zero_f)) [
    | inl nothing ↦ Effect-idle s s' (rw nothing at h)
    | inr filled ↦
        let (audit, _, next) = bind-ok (record_audit _ s.order_audit) _ (rw filled at h) in
        let t = record s { order_audit = audit } in
        Effect-after s t s' refl refl
          (keep_fill-Effect size (record_fill size s.execution) t s' refl next)
  ]

  on_order_filled-Effect :
      (id : String) (o : Option Float) (ts : ℤ) (s s' : Adapter Book)
      → on_order_filled v c id o ts s ≡ ok s'
      → Effect s s'
  unfolding on_order_filled
  on_order_filled-Effect id o ts s s' h = elim (Bool-cases (not (has_key id s.active_orders))) [
    | inl unknown ↦ Effect-idle s s' (rw unknown at h)
    | inr known ↦ sized_fill-Effect id o ts s s' (rw known at h)
  ]

  on_stop-Effect : (s s' : Adapter Book) → on_stop v c s ≡ ok s' → Effect s s'
  unfolding on_stop
  on_stop-Effect s s' h = elim (Bool-cases (is_phase s.execution.phase order_working)) [
    | inl working ↦ request_cancel_all-Effect (pos 0) s s' (rw working at h)
    | inr other ↦ Effect-idle s s' (rw other at h)
  ]

  -- Every event but a reset.
  pub step-Effect :
      (ev : ReplayEvent Deltas) (s s' : Adapter Book)
      → is_reset ev ≡ false
      → step v c ev s ≡ ok s'
      → Effect s s'
  unfolding step on_order_book_deltas
  step-Effect start_event s s' r h = on_start-Effect s s' h
  step-Effect stop_event s s' r h = on_stop-Effect s s' h
  step-Effect reset_event s s' r h = cc
  step-Effect (signal_event d) s s' r h = on_data-Effect d s s' h
  step-Effect (deltas_event id deltas ts) s s' r h =
      deltas_for-Effect (side_for_instrument c id) deltas ts s s' h
  step-Effect (filled_event id size ts) s s' r h = on_order_filled-Effect id size ts s s' h
  step-Effect (closed_event closing id ts) s s' r h =
      close_order_event-Effect (audit_of closing) (is_refusal closing) id ts s s' h
