-- ===== src/Live/Gateway/Tests.antt =====
-- btc_short_horizon/live/gateway.py: the paper gateway at concrete inputs.
use polymarket_btc.Prelude.{string_eq, pair_eq, units, one_f, ◌≡◌, false, [], ◌∷◌, ◌++◌}
use polymarket_btc.Live.Gateway.{LiveOrderRequest}
use polymarket_btc.Live.Gateway.Paper.{
  new_gateway, order_id, submit_call, cancel_call, run_call, run_calls,
}
use polymarket_btc.Live.Gateway.Paper.Numbering.{run_calls-submit_call}

abbrev request : LiveOrderRequest
request = record {
  condition_id = "market";
  token_id = "up";
  price = units 500_000_000_000;
  size = one_f;
  tick_size = "0.01";
  neg_risk = false;
}

run_calls-submit_call_example :
    (run_call
      (submit_call request)
      (run_calls (submit_call request ∷ cancel_call "paper-1" ∷ []) new_gateway)).open_orders
    ≡ (run_calls (submit_call request ∷ cancel_call "paper-1" ∷ []) new_gateway).open_orders
      ++ (
        order_id
            (run_calls
              (submit_call request ∷ cancel_call "paper-1" ∷ [])
              new_gateway).next_order_number,
        request,
      )
        ∷ []
run_calls-submit_call_example =
    run_calls-submit_call (submit_call request ∷ cancel_call "paper-1" ∷ []) request
