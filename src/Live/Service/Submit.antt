-- ===== src/Live/Service/Submit.antt =====
-- btc_short_horizon/live/service.py: `submit` and `_block_order`.
use polymarket_btc.Prelude.{
  if◌then◌else◌, ltb_ℤ, ℤ, string_eq, pair_eq, insert, member, add, zero_f, ◌<f◌, ◌*f◌, pos, err,
  ◌+◌, String, true, false, not, ◌&&◌, Option, none, some,
}
use polymarket_btc.Live.State.{
  LiveOrder, make_order, transition_order, signed, submitted, live, rejected, unknown, created,
}
use polymarket_btc.Live.Risk.{TradingSafetyConfig, AccountSnapshot, evaluate_order_risk}
use polymarket_btc.Live.Gateway.{
  LiveOrderRequest, GatewayOrderResponse, Outcome, returned, outcome_unknown, failed,
  LiveOrderGateway,
}
use polymarket_btc.Live.Service.{
  is_shadow, is_canary, is_paper, LiveExecutionConfig, negative_ts, assertion_error, SubmitResult,
  SubmitReason, kill_switch_active, ambiguous_submission_pending, shadow_mode, canary_size_limit,
  gateway_submission_unknown, gateway_rejected, order_submitted_reason, risk_refused,
  order_decision, order_blocked, shadow_order, order_submission_unknown, order_rejected,
  order_submitted, Action, pure, raise, bind, write, order_note, put, transitioned,
}

abbrev pub new_order : String → LiveOrderRequest → LiveOrder
new_order id r = record {
  client_order_id = id;
  market_id = r.condition_id;
  token_id = r.token_id;
  price = r.price;
  size = r.size;
  status = created;
  venue_order_id = none;
  matched_size = zero_f;
}

abbrev pub not_submitted : LiveOrder → SubmitReason → SubmitResult
not_submitted o reason = record {
  is_submitted = false;
  client_order_id = o.client_order_id;
  reason = reason;
  venue_order_id = none;
}

-- The limits that an order is judged by: the paper mode trades, wherever it runs.
unfoldable pub risk_config : LiveExecutionConfig → TradingSafetyConfig
risk_config c =
    if is_paper c.mode
    then record c.risk { trading_enabled = true; require_geo_eligible = false }
    else c.risk

module _ {G : Type 0} where
  -- `_block_order`
  unfoldable pub block_order : LiveOrder → ℤ → Action G Unit
  block_order o ts =
      transitioned (transition_order rejected none o)
        (λ r s. write (order_note order_blocked ts r) (put r.client_order_id r s))

  -- `_block_order`, and the result that names the same reason.
  unfoldable pub refused : SubmitReason → LiveOrder → ℤ → Action G SubmitResult
  unfolding block_order
  refused reason o ts = bind (block_order o ts) (λ _. pure (not_submitted o reason))

  -- What `submit` makes of the gateway's answer.
  unfoldable pub settle :
      LiveOrderRequest → LiveOrder → ℤ → Outcome GatewayOrderResponse → Action G SubmitResult
  settle r o ts (returned response) =
      transitioned (transition_order live (some response.venue_order_id) o) (λ l s.
        bind (write (order_note order_submitted ts l))
          (λ _. pure (record {
            is_submitted = true;
            client_order_id = o.client_order_id;
            reason = order_submitted_reason;
            venue_order_id = some response.venue_order_id;
          }))
          (record (put o.client_order_id l s) {
            client_order_by_venue =
                insert response.venue_order_id o.client_order_id s.client_order_by_venue;
            progress = record s.progress { submitted_orders = s.progress.submitted_orders + 1 };
          }))
  settle r o ts outcome_unknown = transitioned (transition_order unknown none o) (λ u s.
      bind (write (order_note order_submission_unknown ts u))
        (λ _. pure (not_submitted o gateway_submission_unknown))
        (record (put o.client_order_id u s) {
          ambiguous_markets = add r.condition_id s.ambiguous_markets;
        }))
  settle r o ts failed = transitioned (transition_order rejected none o) (λ x s.
      bind (write (order_note order_rejected ts x)) (λ _. pure (not_submitted o gateway_rejected))
        (put o.client_order_id x s))

  module _ (gw : LiveOrderGateway G) where
    -- The call of the gateway, and what follows it.
    unfoldable pub send : LiveOrderRequest → LiveOrder → ℤ → G → Action G SubmitResult
    send r o ts g s =
        let (answer, g') = gw.submit_post_only_buy r g in
        settle r o ts answer (record s { gateway = some g' })

    -- From the assertion on: the order is signed and kept as submitted before the call.
    unfoldable pub place : LiveOrderRequest → LiveOrder → ℤ → Option G → Action G SubmitResult
    place r o ts none = raise assertion_error
    place r o ts (some g) = transitioned (transition_order signed none o) (λ sg.
        transitioned (transition_order submitted none sg)
          (λ sub s. send r sub ts g (put o.client_order_id sub s)))

    -- What `submit` does after it has written its decision.
    unfoldable pub decide :
        LiveOrderRequest → AccountSnapshot → LiveOrder → ℤ → Action G SubmitResult
    decide r a o ts s =
        let risk = evaluate_order_risk (risk_config s.config) a (r.price *f r.size) in
        if s.is_halted
        then refused kill_switch_active o ts s
        else if member r.condition_id s.ambiguous_markets
        then refused ambiguous_submission_pending o ts s
        else if is_shadow s.config.mode
        then bind (write (order_note shadow_order ts o)) (λ _. pure (not_submitted o shadow_mode)) s
        else if is_canary s.config.mode && s.config.canary_max_shares <f r.size
        then refused canary_size_limit o ts s
        else if not risk.is_allowed
        then refused (risk_refused risk.reason) o ts s
        else place r o ts s.gateway s

    -- `submit`, with the identifier that `uuid4().hex` returned.
    unfoldable pub submit : String → LiveOrderRequest → AccountSnapshot → ℤ → Action G SubmitResult
    submit id r a ts s =
        if ltb_ℤ ts (pos 0)
        then (err negative_ts, s)
        else transitioned (make_order (new_order id r))
            (λ o s.
              bind (write (order_note order_decision ts o)) (λ _. decide r a o ts) (put id o s))
            s
