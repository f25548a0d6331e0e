-- ===== src/Live/Gateway.antt =====
-- btc_short_horizon/live/gateway.py: the request and the protocol `LiveOrderGateway`. The gateway
-- over the venue's SDK is a parameter of whoever uses it.
pub mod Paper
mod Tests
use polymarket_btc.Prelude.{
  ℤ, ◌>>◌, raise_if, Result, str_is_empty, zero_f, one_f, ◌<f◌, ◌≤f◌, Float, ok, String, Bool, not,
  ◌&&◌, ◌||◌, Option,
}

pub record LiveOrderRequest : Type 0 where
  pub condition_id : String
  pub token_id : String
  pub price : Float
  pub size : Float
  pub tick_size : String
  pub neg_risk : Bool

-- The `ValueError`s of `LiveOrderRequest`.
pub data RequestError : Type 0 where
  ids_required price_out_of_range size_above_zero_required tick_size_required : RequestError

-- `LiveOrderRequest.__post_init__`: a size that is a NaN or infinite passes.
unfoldable pub make_request : LiveOrderRequest → Result RequestError LiveOrderRequest
make_request r = do
  raise_if (str_is_empty r.condition_id || str_is_empty r.token_id) ids_required
  raise_if (not (zero_f <f r.price && r.price <f one_f)) price_out_of_range
  raise_if (r.size ≤f zero_f) size_above_zero_required
  raise_if (str_is_empty r.tick_size) tick_size_required
  ok r

pub record GatewayOrderResponse : Type 0 where
  pub venue_order_id : String
  pub status : String
  pub order_build_ns : Option ℤ
  pub submit_round_trip_ns : Option ℤ

-- A call of the gateway returns, raises the error that leaves the outcome open
-- (`GatewaySubmissionUnknownError`, `GatewayCancellationUnknownError`), or raises another one.
pub data Outcome (A : Type 0) : Type 0 where
  returned : A → Outcome A
  outcome_unknown failed : Outcome A

-- What the service calls of `LiveOrderGateway`. `G` is the state of the gateway and of the venue.
pub record LiveOrderGateway (G : Type 0) : Type 0 where
  pub submit_post_only_buy : LiveOrderRequest → G → Outcome GatewayOrderResponse × G
  pub cancel_order : String → G → Outcome Unit × G
  pub cancel_all : G → Outcome Unit × G
  pub send_heartbeat : String → G → Outcome String × G
