-- ===== src/Live/Service.antt =====
-- btc_short_horizon/live/service.py: the state of the order service, and its methods as actions that
-- change the state and may raise. What was changed before a raise stays changed. The gateway is a
-- parameter; `uuid4().hex` is an argument of `submit`.
pub mod Submit
pub mod Guards
pub mod Cancel
pub mod Heartbeats
pub mod Reconcile
pub mod Cumulative
pub mod Effects
pub mod Restore
pub mod Commands
mod Tests
use polymarket_btc.Prelude.{
  leb, if◌then◌else◌, ltb_ℤ, ℤ, ◌>>=◌, ◌>>◌, raise_if, Result, string_eq, pair_eq, Dict, insert,
  not_positive, Float, pos, ok, err, ℕ, String, Bool, true, false, not, ◌&&◌, Option, none, some,
  List, [], ◌∷◌, ◌++◌,
}
use polymarket_btc.Live.State.{StateError, LiveOrder, LiveTrade}
use polymarket_btc.Live.Risk.{TradingSafetyConfig, RiskReason}

pub data LiveMode : Type 0 where
  shadow paper canary : LiveMode

abbrev pub is_shadow : LiveMode → Bool
is_shadow shadow = true
is_shadow _ = false

abbrev pub is_canary : LiveMode → Bool
is_canary canary = true
is_canary _ = false

abbrev pub is_paper : LiveMode → Bool
is_paper paper = true
is_paper _ = false

pub record LiveExecutionConfig : Type 0 where
  pub mode : LiveMode
  pub risk : TradingSafetyConfig
  pub heartbeat_timeout_seconds : Float
  pub canary_max_shares : Float

-- What the service raises: its own `ValueError`s, those of live/state.py, a `KeyError` on an
-- identifier that it does not know, an `AssertionError` without a gateway, and what the gateway raised.
pub data ServiceError : Type 0 where
  negative_ts key_error assertion_error gateway_error : ServiceError
  only_live_cancelled no_venue_order_id cancel_reason_required kill_reason_required : ServiceError
  one_of_two_required only_unknown_resolved matched_size_decreased : ServiceError
  bad_timeout bad_canary_size gateway_required int_of_non_finite not_empty : ServiceError
  bad_matched_amount bad_trade_price : ServiceError
  state_error : StateError → ServiceError

-- `LiveExecutionConfig.__post_init__`
unfoldable pub make_execution_config : LiveExecutionConfig → Result ServiceError LiveExecutionConfig
make_execution_config c = do
  raise_if (not_positive c.heartbeat_timeout_seconds) bad_timeout
  raise_if (not_positive c.canary_max_shares) bad_canary_size
  ok c

-- The reason of a `SubmitResult`.
pub data SubmitReason : Type 0 where
  kill_switch_active ambiguous_submission_pending shadow_mode canary_size_limit : SubmitReason
  gateway_submission_unknown gateway_rejected order_submitted_reason : SubmitReason
  risk_refused : RiskReason → SubmitReason

pub record SubmitResult : Type 0 where
  pub is_submitted : Bool
  pub client_order_id : String
  pub reason : SubmitReason
  pub venue_order_id : Option String

pub record CanaryProgress : Type 0 where
  pub submitted_orders : ℕ
  pub fills : ℕ

unfoldable pub ready_for_extended_canary : CanaryProgress → Bool
ready_for_extended_canary p = leb 200 p.submitted_orders && leb 50 p.fills

unfoldable pub ready_for_scale_review : CanaryProgress → Bool
ready_for_scale_review p = leb 2_000 p.submitted_orders && leb 300 p.fills

-- The `event_type`s that the service writes.
pub data EventType : Type 0 where
  order_decision order_blocked shadow_order order_submission_unknown order_rejected : EventType
  order_submitted shadow_cancel cancel_requested_event cancel_unknown shadow_cancel_all : EventType
  cancel_all_requested kill_switch_activated kill_switch_cancel_error heartbeat : EventType
  venue_heartbeat order_submission_found order_submission_confirmed_absent : EventType
  user_order user_trade : EventType

-- A record of the log, with the parts of its payload that `restore_from_wal` reads.
pub record WalRecord : Type 0 where
  pub event_type : EventType
  pub ts_ns : ℤ
  pub order : Option LiveOrder
  pub trade : Option LiveTrade
  pub heartbeat_id : Option String

-- The attributes of `LiveExecutionService`. `G` is the state of the gateway.
pub record Service (G : Type 0) : Type 0 where
  pub config : LiveExecutionConfig
  pub wal : List WalRecord
  pub gateway : Option G
  pub orders : Dict String LiveOrder
  pub trades : Dict (String × String) LiveTrade
  pub client_order_by_venue : Dict String String
  pub progress : CanaryProgress
  pub last_heartbeat_ts_ns : Option ℤ
  pub heartbeat_cancel_requested : Bool
  pub heartbeat_id : String
  pub ambiguous_markets : List String
  pub is_halted : Bool

-- `LiveExecutionService.__init__`, whose test of the gateway's class is the caller's.
unfoldable pub new_service :
    {G : Type 0} → LiveExecutionConfig → List WalRecord → Option G → Result ServiceError (Service G)
new_service config wal gateway =
    if not (is_shadow config.mode) && no_gateway gateway
    then err gateway_required
    else ok (record {
      config = config;
      wal = wal;
      gateway = gateway;
      orders = [];
      trades = [];
      client_order_by_venue = [];
      progress = record { submitted_orders = 0; fills = 0 };
      last_heartbeat_ts_ns = none;
      heartbeat_cancel_requested = false;
      heartbeat_id = "";
      ambiguous_markets = [];
      is_halted = false;
    })
  where
    no_gateway : {G : Type 0} → Option G → Bool
    no_gateway none = true
    no_gateway (some g) = false

-- An action: it changes the state, and returns or raises.
abbrev pub Action : Type 0 → Type 0 → Type 0
Action G A = Service G → Result ServiceError A × Service G

module _ {G A : Type 0} where
  abbrev pub pure : A → Action G A
  pure a s = (ok a, s)

  abbrev pub raise : ServiceError → Action G A
  raise e s = (err e, s)

  abbrev pub next :
      {B : Type 0}
      → (A → Action G B)
      → Result ServiceError A × Service G
      → Result ServiceError B × Service G
  next k (ok a, s) = k a s
  next k (err e, s) = (err e, s)

  -- m; k
  abbrev pub bind : {B : Type 0} → Action G A → (A → Action G B) → Action G B
  bind m k s = next k (m s)

-- `wal.append`, which refuses a negative time.
unfoldable pub write : {G : Type 0} → WalRecord → Action G Unit
write r s =
    if ltb_ℤ r.ts_ns (pos 0)
    then (err negative_ts, s)
    else (ok tt, record s { wal = s.wal ++ r ∷ [] })

abbrev pub note : EventType → ℤ → WalRecord
note e ts = record { event_type = e; ts_ns = ts; order = none; trade = none; heartbeat_id = none }

abbrev pub order_note : EventType → ℤ → LiveOrder → WalRecord
order_note e ts o = record {
  event_type = e;
  ts_ns = ts;
  order = some o;
  trade = none;
  heartbeat_id = none;
}

-- `self.orders[id] = o`
unfoldable pub put : {G : Type 0} → String → LiveOrder → Service G → Service G
put id o s = record s { orders = insert id o s.orders }

-- A transition of an order, and what comes after it.
abbrev pub transitioned :
    {G A : Type 0} → Result StateError LiveOrder → (LiveOrder → Action G A) → Action G A
transitioned (ok o) k = k o
transitioned (err e) k = raise (state_error e)
