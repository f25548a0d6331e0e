-- ===== src/Live/Gateway/Paper.antt =====
-- btc_short_horizon/live/gateway.py: `PaperOrderGateway`, the gateway of the paper mode.
pub mod Numbering
use polymarket_btc.Prelude.{
  if◌then◌else◌, string_eq, pair_eq, str_is_empty, Dict, insert, remove, ℕ, ◌+◌, String, Bool, not,
  ◌||◌, Option, none, some, List, [], ◌∷◌, str_eq,
}
use polymarket_btc.Prelude.Digits.{show, text_append}
use polymarket_btc.Live.Gateway.{
  LiveOrderRequest, GatewayOrderResponse, Outcome, returned, LiveOrderGateway,
}

pub record PaperOrderGateway : Type 0 where
  pub next_order_number : ℕ
  pub open_orders : Dict String LiveOrderRequest

-- `__init__`
unfoldable pub new_gateway : PaperOrderGateway
new_gateway = record { next_order_number = 1; open_orders = [] }

abbrev pub order_id : ℕ → String
order_id n = text_append "paper-" (show n)

unfoldable pub submit_post_only_buy :
    LiveOrderRequest → PaperOrderGateway → Outcome GatewayOrderResponse × PaperOrderGateway
submit_post_only_buy r g = (
  returned (record {
    venue_order_id = order_id g.next_order_number;
    status = "paper_live";
    order_build_ns = none;
    submit_round_trip_ns = none;
  }),
  record {
    next_order_number = g.next_order_number + 1;
    open_orders = insert (order_id g.next_order_number) r g.open_orders;
  },
)

unfoldable pub cancel_order : String → PaperOrderGateway → Outcome Unit × PaperOrderGateway
cancel_order id g = (returned tt, record g { open_orders = remove id g.open_orders })

-- The order is not of the market, or of another token of it.
unfoldable pub is_kept : String → Option String → LiveOrderRequest → Bool
is_kept condition_id none r = not (str_eq r.condition_id condition_id)
is_kept condition_id (some token_id) r =
    not (str_eq r.condition_id condition_id) || not (str_eq r.token_id token_id)

unfoldable pub keep_orders :
    (LiveOrderRequest → Bool) → Dict String LiveOrderRequest → Dict String LiveOrderRequest
keep_orders p [] = []
keep_orders p ((id, r) ∷ d) = if p r then (id, r) ∷ keep_orders p d else keep_orders p d

unfoldable pub cancel_market :
    String → Option String → PaperOrderGateway → Outcome Unit × PaperOrderGateway
cancel_market condition_id token_id g = (
  returned tt,
  record g { open_orders = keep_orders (is_kept condition_id token_id) g.open_orders },
)

unfoldable pub cancel_all : PaperOrderGateway → Outcome Unit × PaperOrderGateway
cancel_all g = (returned tt, record g { open_orders = [] })

unfoldable pub send_heartbeat : String → PaperOrderGateway → Outcome String × PaperOrderGateway
send_heartbeat id g = (returned (if str_is_empty id then "paper-heartbeat" else id), g)

-- The paper gateway as the service takes it.
abbrev pub paper_gateway : LiveOrderGateway PaperOrderGateway
paper_gateway = record {
  submit_post_only_buy = submit_post_only_buy;
  cancel_order = cancel_order;
  cancel_all = cancel_all;
  send_heartbeat = send_heartbeat;
}

-- A call of the gateway.
pub data Call : Type 0 where
  submit_call : LiveOrderRequest → Call
  cancel_call : String → Call
  market_call : String → Option String → Call
  all_call : Call
  heartbeat_call : String → Call

unfoldable pub run_call : Call → PaperOrderGateway → PaperOrderGateway
run_call (submit_call r) g = (submit_post_only_buy r g).1
run_call (cancel_call id) g = (cancel_order id g).1
run_call (market_call c t) g = (cancel_market c t g).1
run_call all_call g = (cancel_all g).1
run_call (heartbeat_call id) g = (send_heartbeat id g).1

unfoldable pub run_calls : List Call → PaperOrderGateway → PaperOrderGateway
run_calls [] g = g
run_calls (c ∷ cs) g = run_calls cs (run_call c g)
