-- ===== src/Live/Service/Heartbeats.antt =====
-- btc_short_horizon/live/service.py: `record_heartbeat`, `send_venue_heartbeat` and
-- `enforce_heartbeat_timeout`.
use polymarket_btc.Prelude.{
  if◌then◌else◌, ◌-ℤ◌, ltb_ℤ, leb_ℤ, ℤ, Result, string_eq, pair_eq, Float, pos, negsuc, ok, err,
  fin, ◌+◌, ◌/◌, String, Bool, true, false, Option, none, some,
}
use polymarket_btc.Live.Gateway.{Outcome, returned, outcome_unknown, failed, LiveOrderGateway}
use polymarket_btc.Live.Service.{
  is_shadow, ServiceError, negative_ts, assertion_error, gateway_error, int_of_non_finite,
  heartbeat, venue_heartbeat, Action, pure, bind, write, note,
}
use polymarket_btc.Live.Service.Cancel.{emergency_stop}

-- `int(seconds * 1_000_000_000)`, rounded towards zero.
unfoldable pub timeout_ns : Float → Result ServiceError ℤ
timeout_ns (fin (pos n)) = ok (pos (n / 1000))
timeout_ns (fin (negsuc n)) = ok (pos 0 -ℤ pos ((n + 1) / 1000))
timeout_ns _ = err int_of_non_finite

module _ {G : Type 0} where
  -- `record_heartbeat`
  unfoldable pub record_heartbeat : ℤ → Action G Unit
  record_heartbeat ts s =
      if ltb_ℤ ts (pos 0)
      then (err negative_ts, s)
      else write (note heartbeat ts)
          (record s { last_heartbeat_ts_ns = some ts; heartbeat_cancel_requested = false })

  -- The end of `enforce_heartbeat_timeout`.
  abbrev mark_requested : Bool → Action G Bool
  mark_requested _ s = (ok true, record s { heartbeat_cancel_requested = true })

  -- What `send_venue_heartbeat` makes of the gateway's answer.
  unfoldable pub after_beat : ℤ → Outcome String → Action G String
  unfolding record_heartbeat
  after_beat ts (returned id) s =
      bind (record_heartbeat ts)
        (λ _ s.
          bind (write (record (note venue_heartbeat ts) { heartbeat_id = some s.heartbeat_id }))
            (λ _ s. (ok s.heartbeat_id, s)) s)
        (record s { heartbeat_id = id })
  after_beat ts outcome_unknown s = (err gateway_error, s)
  after_beat ts failed s = (err gateway_error, s)

  module _ (gw : LiveOrderGateway G) where
    unfoldable pub send_beat : ℤ → Option G → Action G String
    send_beat ts none s = (err assertion_error, s)
    send_beat ts (some g) s =
        let (answer, g') = gw.send_heartbeat s.heartbeat_id g in
        after_beat ts answer (record s { gateway = some g' })

    -- `send_venue_heartbeat`
    unfoldable pub send_venue_heartbeat : ℤ → Action G String
    send_venue_heartbeat ts s =
        if ltb_ℤ ts (pos 0)
        then (err negative_ts, s)
        else if is_shadow s.config.mode
        then bind (record_heartbeat ts) (λ _. pure "") s
        else send_beat ts s.gateway s

    -- The comparison with the last heartbeat, and the stop.
    unfoldable pub enforce_after : ℤ → ℤ → Result ServiceError ℤ → Action G Bool
    enforce_after now last (err e) s = (err e, s)
    enforce_after now last (ok timeout) s =
        if leb_ℤ (now -ℤ last) timeout
        then (ok false, s)
        else if s.heartbeat_cancel_requested
        then (ok false, s)
        else bind (emergency_stop gw now "heartbeat_timeout") mark_requested s

    unfoldable pub enforce_since : ℤ → Option ℤ → Action G Bool
    enforce_since now none s = (ok false, s)
    enforce_since now (some last) s =
        enforce_after now last (timeout_ns s.config.heartbeat_timeout_seconds) s

    -- `enforce_heartbeat_timeout`
    unfoldable pub enforce_heartbeat_timeout : ℤ → Action G Bool
    enforce_heartbeat_timeout now s =
        if ltb_ℤ now (pos 0)
        then (err negative_ts, s)
        else enforce_since now s.last_heartbeat_ts_ns s
