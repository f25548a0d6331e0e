-- ===== src/Live/Service/Restore.antt =====
-- btc_short_horizon/live/service.py: `restore_from_wal`, over the records that `wal.read` returns.
pub mod Latest
pub mod Kept
mod Tests
use polymarket_btc.Prelude.{
  if◌then◌else◌, length, is_empty, string_eq, pair_eq, str_is_empty, Dict, insert, add, ok, err, ℕ,
  ◌+◌, String, true, not, ◌&&◌, Option, none, some, List, [], ◌∷◌,
}
use polymarket_btc.Live.State.{LiveOrder, LiveTrade, make_order, make_trade, is_status, unknown}
use polymarket_btc.Live.Service.{
  state_error, not_empty, EventType, kill_switch_activated, heartbeat, venue_heartbeat, WalRecord,
  Service, Action, pure, next, bind,
}

-- A venue's identifier that is not empty leads to the order.
abbrev pub index_venue : Option String → String → Dict String String → Dict String String
index_venue none id d = d
index_venue (some venue) id d = if str_is_empty venue then d else insert venue id d

abbrev pub text_of : Option String → String → String
text_of none old = old
text_of (some new) old = new

-- The orders with an identifier of the venue.
unfoldable pub count_venues : Dict String LiveOrder → ℕ
count_venues [] = 0
count_venues ((id, o) ∷ d) =
    let rest = count_venues d in elim o.venue_order_id [ none ↦ rest | some _ ↦ rest + 1 ]

module _ {G : Type 0} where
  -- An order that was read, in the tables of the service.
  unfoldable pub keep_snapshot : LiveOrder → Service G → Service G
  keep_snapshot o s = record s {
    orders = insert o.client_order_id o s.orders;
    client_order_by_venue = index_venue o.venue_order_id o.client_order_id s.client_order_by_venue;
    ambiguous_markets =
        if is_status o.status unknown
        then add o.market_id s.ambiguous_markets
        else s.ambiguous_markets;
  }

  -- What the type of a record means for the service.
  unfoldable pub keep_event : EventType → WalRecord → Service G → Service G
  keep_event kill_switch_activated r s = record s { is_halted = true }
  keep_event heartbeat r s = record s { last_heartbeat_ts_ns = some r.ts_ns }
  keep_event venue_heartbeat r s = record s { heartbeat_id = text_of r.heartbeat_id s.heartbeat_id }
  keep_event _ r s = s

  -- `_live_order_from_json` builds the order anew, with its checks; so does `_live_trade_from_json`.
  unfoldable pub restore_order : Option LiveOrder → Action G ℕ
  restore_order none s = (ok 0, s)
  restore_order (some raw) s = elim (make_order raw) [
    | ok o ↦ (ok 1, keep_snapshot o s)
    | err e ↦ (err (state_error e), s)
  ]

  unfoldable pub restore_trade : Option LiveTrade → Action G Unit
  restore_trade none s = (ok tt, s)
  restore_trade (some raw) s = elim (make_trade raw) [
    | ok t ↦ (ok tt, record s { trades = insert (t.trade_id, t.client_order_id) t s.trades })
    | err e ↦ (err (state_error e), s)
  ]

  -- One turn of the loop: how many orders it restored.
  unfoldable pub restore_one : WalRecord → Action G ℕ
  unfolding restore_order
  restore_one r =
      bind (restore_order r.order)
        (λ n. bind (restore_trade r.trade) (λ _ s. (ok n, keep_event r.event_type r s)))

  unfoldable pub restore_all : List WalRecord → Action G ℕ
  restore_all [] s = (ok 0, s)
  restore_all (r ∷ rs) s = next (λ n. bind (restore_all rs) (λ k. pure (n + k))) (restore_one r s)

  -- The progress that follows from the tables.
  unfoldable pub recount : Service G → Service G
  recount s = record s {
    progress = record { submitted_orders = count_venues s.orders; fills = length s.trades };
  }

  unfoldable pub restore_from_wal : Action G ℕ
  restore_from_wal s =
      if not (is_empty s.orders && is_empty s.trades)
      then (err not_empty, s)
      else bind (restore_all s.wal) (λ n s. (ok n, recount s)) s
