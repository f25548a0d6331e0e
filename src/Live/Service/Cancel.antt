-- ===== src/Live/Service/Cancel.antt =====
-- btc_short_horizon/live/service.py: `request_cancel`, `cancel_all` and `emergency_stop`.
use polymarket_btc.Prelude.{
  if◌then◌else◌, ltb_ℤ, ℤ, any, Result, string_eq, pair_eq, str_is_empty, lookup, add, pos, ok, err,
  String, Bool, true, false, not, Option, none, some, [], ◌∷◌,
}
use polymarket_btc.Live.State.{
  LiveOrder, transition_order, live, not_canceled, cancel_requested, unknown, is_status,
}
use polymarket_btc.Live.Gateway.{Outcome, returned, outcome_unknown, failed, LiveOrderGateway}
use polymarket_btc.Live.Service.{
  is_shadow, ServiceError, negative_ts, key_error, assertion_error, gateway_error,
  only_live_cancelled, no_venue_order_id, cancel_reason_required, kill_reason_required,
  shadow_cancel, cancel_requested_event, cancel_unknown, shadow_cancel_all, cancel_all_requested,
  kill_switch_activated, kill_switch_cancel_error, Service, Action, pure, raise, bind, write, note,
  order_note, put, transitioned,
}

module _ {G : Type 0} where
  -- What `request_cancel` makes of the gateway's answer.
  unfoldable pub after_cancel : String → LiveOrder → ℤ → Outcome Unit → Action G Unit
  after_cancel id o ts (returned _) = pure tt
  after_cancel id o ts outcome_unknown = transitioned (transition_order unknown none o) (λ u s.
      write (order_note cancel_unknown ts u)
        (record (put id u s) { ambiguous_markets = add o.market_id s.ambiguous_markets }))
  after_cancel id o ts failed = raise gateway_error

  -- What `emergency_stop` makes of the way in which `cancel_all` ended.
  unfoldable pub after_stop :
      ℤ → Result ServiceError Unit × Service G → Result ServiceError Bool × Service G
  after_stop ts (ok _, s) = (ok true, s)
  after_stop ts (err e, s) = bind (write (note kill_switch_cancel_error ts)) (λ _. pure true) s

  module _ (gw : LiveOrderGateway G) where
    unfoldable pub send_cancel : String → LiveOrder → String → ℤ → G → Action G Unit
    send_cancel id requested venue ts g s =
        let (answer, g') = gw.cancel_order venue g in
        after_cancel id requested ts answer (record s { gateway = some g' })

    -- From the tests of the identifier and the gateway on.
    unfoldable pub cancel_known : String → LiveOrder → ℤ → Option String → Option G → Action G Unit
    cancel_known id o ts none _ = raise no_venue_order_id
    cancel_known id o ts (some venue) none = raise assertion_error
    cancel_known id o ts (some venue) (some g) =
        transitioned (transition_order cancel_requested none o) (λ requested s.
          bind (write (order_note cancel_requested_event ts requested))
            (λ _. send_cancel id requested venue ts g) (put id requested s))

    unfoldable pub cancel_found : String → ℤ → Option LiveOrder → Action G Unit
    cancel_found id ts none s = (err key_error, s)
    cancel_found id ts (some o) s =
        if is_shadow s.config.mode
        then write (order_note shadow_cancel ts o) s
        else if not (any (is_status o.status) (live ∷ not_canceled ∷ []))
        then (err only_live_cancelled, s)
        else cancel_known id o ts o.venue_order_id s.gateway s

    -- `request_cancel`
    unfoldable pub request_cancel : String → ℤ → Action G Unit
    unfolding cancel_found
    request_cancel id ts s = cancel_found id ts (lookup id s.orders) s

    unfoldable pub send_cancel_all : ℤ → Option G → Action G Unit
    send_cancel_all ts none = raise assertion_error
    send_cancel_all ts (some g) = bind (write (note cancel_all_requested ts)) (λ _ s.
        let (answer, g') = gw.cancel_all g in
        (
          elim answer [
            | returned _ ↦ ok tt
            | outcome_unknown ↦ err gateway_error
            | failed ↦ err gateway_error
          ],
          record s { gateway = some g' },
        ))

    -- `cancel_all`
    unfoldable pub cancel_all : ℤ → String → Action G Unit
    cancel_all ts reason s =
        if str_is_empty reason
        then (err cancel_reason_required, s)
        else if is_shadow s.config.mode
        then write (note shadow_cancel_all ts) s
        else send_cancel_all ts s.gateway s

    -- `emergency_stop`: the service is halted before anything is sent, and stays so if that fails.
    unfoldable pub emergency_stop : ℤ → String → Action G Bool
    emergency_stop ts reason s =
        if ltb_ℤ ts (pos 0)
        then (err negative_ts, s)
        else if str_is_empty reason
        then (err kill_reason_required, s)
        else if s.is_halted
        then (ok false, s)
        else bind (write (note kill_switch_activated ts))
            (λ _ s. after_stop ts (cancel_all ts reason s)) (record s { is_halted = true })
