-- ===== src/Live/Service/Restore/Tests.antt =====
-- btc_short_horizon/live/service.py: `restore_from_wal` at a concrete log.
use polymarket_btc.Prelude.{
  All, is_ok, string_eq, pair_eq, lookup, insert, member, add, scale, units, zero_f, one_f, pos,
  ◌*◌, String, ◌≡◌, refl, true, false, ◌||◌, Option, none, some, List, [], ◌∷◌,
}
use polymarket_btc.Live.State.{LiveOrder, LiveOrderStatus, live, unknown, make_order}
use polymarket_btc.Live.Risk.{default_config}
use polymarket_btc.Live.Service.{
  shadow, order_submission_unknown, order_submission_found, heartbeat, kill_switch_activated,
  WalRecord, Service, note, order_note,
}
use polymarket_btc.Live.Service.Restore.{
  restore_from_wal, restore_one, restore_all, restore_trade, keep_snapshot, keep_event, recount,
  restore_order,
}
use polymarket_btc.Live.Service.Restore.Latest.{
  IsReadable, latest, has_kill, restore_from_wal-latest,
}

abbrev order : LiveOrderStatus → Option String → LiveOrder
order status venue = record {
  client_order_id = "c1";
  market_id = "market";
  token_id = "up";
  price = units 500_000_000_000;
  size = one_f;
  status = status;
  venue_order_id = venue;
  matched_size = zero_f;
}

-- A submission whose outcome was unknown, and was found at the venue; then the kill switch.
abbrev log : List WalRecord
log =
    order_note order_submission_unknown (pos 5) (order unknown none)
    ∷ note heartbeat (pos 6)
    ∷ order_note order_submission_found (pos 7) (order live (some "v1"))
    ∷ note kill_switch_activated (pos 8)
    ∷ []

abbrev service : Service Unit
service = record {
  config = record {
    mode = shadow;
    risk = default_config;
    heartbeat_timeout_seconds = units (5 * scale);
    canary_max_shares = one_f;
  };
  wal = log;
  gateway = none;
  orders = [];
  trades = [];
  client_order_by_venue = [];
  progress = record { submitted_orders = 0; fills = 0 };
  last_heartbeat_ts_ns = none;
  heartbeat_cancel_requested = false;
  heartbeat_id = "";
  ambiguous_markets = [];
  is_halted = false;
}

log-IsReadable : All IsReadable log
unfolding make_order
log-IsReadable = (
  record { order = refl; trade = tt },
  (
    record { order = tt; trade = tt },
    (record { order = refl; trade = tt }, (record { order = tt; trade = tt }, tt)),
  ),
)

restore_from_wal-latest_example :
    (is_ok (restore_from_wal service).0 ≡ true)
    × ((id : String) → lookup id (restore_from_wal service).1.orders ≡ latest id log)
    × ((restore_from_wal service).1.is_halted ≡ (false || has_kill log))
restore_from_wal-latest_example = restore_from_wal-latest service log-IsReadable refl refl

-- The market stays ambiguous after a restart, though its order was found at the venue.
still_ambiguous : (restore_from_wal service).1.ambiguous_markets ≡ "market" ∷ []
unfolding restore_from_wal restore_all restore_one restore_order restore_trade keep_snapshot
    keep_event recount make_order add member insert
still_ambiguous = refl
