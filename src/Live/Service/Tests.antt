-- ===== src/Live/Service/Tests.antt =====
-- btc_short_horizon/live/service.py at concrete inputs, over a venue that takes every order.
use polymarket_btc.Prelude.{
  min_f, ◌+ℤ◌, ◌-ℤ◌, ◌*ℤ◌, string_eq, pair_eq, insert, member, scale, units, zero_f, one_f, ◌+f◌,
  ◌-f◌, negate, ◌*f◌, pos, ok, ◌*◌, ◌≡◌, refl, true, false, none, some, List, [], ◌∷◌,
}
use polymarket_btc.Live.State.{
  LiveOrder, live, make_order, order_transitions, transition_order, record_match,
}
use polymarket_btc.Live.State.Orders.{IsValid}
use polymarket_btc.Live.Risk.{AccountSnapshot, default_config, evaluate_order_risk, max_notional}
use polymarket_btc.Live.Gateway.{
  LiveOrderRequest, returned, outcome_unknown, failed, LiveOrderGateway,
}
use polymarket_btc.Live.Service.{
  LiveMode, shadow, canary, Service, write, put, order_submitted_reason,
}
use polymarket_btc.Live.Service.Submit.{submit, decide, place, send, settle, risk_config}
use polymarket_btc.Live.Service.Guards.{Idle}
use polymarket_btc.Live.Service.Cancel.{emergency_stop}
use polymarket_btc.Live.Service.Reconcile.{cancellation, record_cumulative_match}
use polymarket_btc.Live.Service.Cumulative.{record_cumulative_match-repeat}
use polymarket_btc.Live.Service.Commands.{
  Command, submit_command, cancel_command, venue_heartbeat_command, timeout_command, order_command,
  restore_command, perform_all, perform_all-shadow, emergency_stop-perform_all,
}

-- The venue keeps the requests it was sent; it loses every cancellation.
abbrev venue : LiveOrderGateway (List LiveOrderRequest)
venue = record {
  submit_post_only_buy = λ r g. (
    returned (record {
      venue_order_id = "v1";
      status = "live";
      order_build_ns = none;
      submit_round_trip_ns = none;
    }),
    r ∷ g,
  );
  cancel_order = λ v g. (failed, g);
  cancel_all = λ g. (outcome_unknown, g);
  send_heartbeat = λ id g. (returned "beat", g);
}

abbrev request : LiveOrderRequest
request = record {
  condition_id = "market";
  token_id = "up";
  price = units 500_000_000_000;
  size = one_f;
  tick_size = "0.01";
  neg_risk = false;
}

abbrev account : AccountSnapshot
account = record {
  available_balance = units (100 * scale);
  unresolved_notional = zero_f;
  daily_realized_pnl = zero_f;
  working_markets = pos 0;
  open_orders = pos 0;
  feeds_healthy = true;
  geo_eligible = true;
}

abbrev service : LiveMode → Service (List LiveOrderRequest)
service mode = record {
  config = record {
    mode = mode;
    risk = record default_config { trading_enabled = true };
    heartbeat_timeout_seconds = units (5 * scale);
    canary_max_shares = one_f;
  };
  wal = [];
  gateway = some [];
  orders = [];
  trades = [];
  client_order_by_venue = [];
  progress = record { submitted_orders = 0; fills = 0 };
  last_heartbeat_ts_ns = none;
  heartbeat_cancel_requested = false;
  heartbeat_id = "";
  ambiguous_markets = [];
  is_halted = false;
}

canary_submit :
    (submit venue "c1" request account (pos 5) (service canary)).0
    ≡ ok (record {
      is_submitted = true;
      client_order_id = "c1";
      reason = order_submitted_reason;
      venue_order_id = some "v1";
    })
unfolding submit decide place send settle risk_config write put make_order transition_order
    order_transitions evaluate_order_risk max_notional default_config insert member ◌+f◌ ◌*f◌ negate
    ◌*ℤ◌ ◌-ℤ◌ ◌+ℤ◌
canary_submit = refl

abbrev commands : List Command
commands =
    submit_command "c1" request account (pos 5)
    ∷ venue_heartbeat_command (pos 6)
    ∷ cancel_command "c1" (pos 7)
    ∷ order_command (record { id = "v1"; kind = cancellation; size_matched = zero_f }) (pos 8)
    ∷ timeout_command (pos 9_000_000_000)
    ∷ submit_command "c2" request account (pos 9_000_000_001)
    ∷ restore_command
    ∷ []

perform_all-shadow_example : (perform_all venue commands (service shadow)).gateway ≡ some []
perform_all-shadow_example = perform_all-shadow venue commands (service shadow) refl

emergency_stop-perform_all_example :
    ((perform_all venue commands
        (emergency_stop venue (pos 1) "operator" (service canary)).1).is_halted
      ≡ true)
    × Idle
        (perform_all venue commands (emergency_stop venue (pos 1) "operator" (service canary)).1)
        (submit venue "c2" request account
          (pos 5)
          (perform_all venue commands (emergency_stop venue (pos 1) "operator" (service canary)).1))
emergency_stop-perform_all_example =
    emergency_stop-perform_all venue (pos 1) "operator" commands (service canary) "c2" request
      account (pos 5) refl refl

abbrev unmatched : LiveOrder
unmatched = record {
  client_order_id = "c1";
  market_id = "market";
  token_id = "up";
  price = units 500_000_000_000;
  size = one_f;
  status = live;
  venue_order_id = some "v1";
  matched_size = zero_f;
}

unmatched-IsValid : IsValid unmatched
unfolding make_order
unmatched-IsValid = refl

abbrev matched_part : LiveOrder
matched_part = record unmatched { matched_size = units 290_000_000_000 }

reported : record_cumulative_match unmatched (units 290_000_000_000) ≡ ok matched_part
unfolding record_cumulative_match record_match make_order ◌+f◌ ◌-f◌ ◌-ℤ◌ ◌+ℤ◌
reported = refl

record_cumulative_match-repeat_example :
    (matched_part ≡ record unmatched { matched_size = min_f one_f (units 290_000_000_000) })
    × (record_cumulative_match matched_part (units 290_000_000_000) ≡ ok matched_part)
record_cumulative_match-repeat_example =
    record_cumulative_match-repeat unmatched matched_part (units 290_000_000_000) unmatched-IsValid
      refl reported
