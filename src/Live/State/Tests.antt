-- ===== src/Live/State/Tests.antt =====
-- btc_short_horizon/live/state.py at concrete inputs.
use polymarket_btc.Prelude.{
  ◌+ℤ◌, nat_eq, string_eq, pair_eq, scale, units, zero_f, ◌≤f◌, ◌+f◌, ok, String, ◌≡◌, refl, true,
  Option, none, some, List, [], ◌∷◌,
}
use polymarket_btc.Live.State.{
  live, cancel_requested, canceled, LiveOrder, make_order, transition_order, order_transitions,
  record_match, LiveTrade, LiveTradeStatus, confirmed, failed, mined, is_terminal,
}
use polymarket_btc.Live.State.Orders.{
  IsValid, Update, to_status, add_match, update, updates, is_ended,
}
use polymarket_btc.Live.State.Matches.{updates-matched_size}
use polymarket_btc.Live.State.Endings.{ending, order_can_end}

abbrev order : LiveOrder
order = record {
  client_order_id = "c1";
  market_id = "m1";
  token_id = "t1";
  price = units 400_000_000_000;
  size = units scale;
  status = live;
  venue_order_id = some "v1";
  matched_size = zero_f;
}

order-IsValid : IsValid order
unfolding make_order
order-IsValid = refl

-- A match arrives after the cancellation; a second one would pass the size and is dropped.
abbrev late_fill : List Update
late_fill =
    to_status cancel_requested none
    ∷ to_status canceled none
    ∷ add_match (units 600_000_000_000)
    ∷ add_match (units 600_000_000_000)
    ∷ to_status live none
    ∷ []

late_fill_ends :
    updates late_fill order
    ≡ record order { status = canceled; matched_size = units 600_000_000_000 }
unfolding updates update transition_order order_transitions make_order record_match ◌+f◌ ◌+ℤ◌
late_fill_ends = refl

updates-matched_size_example :
    ((order.matched_size ≤f (updates late_fill order).matched_size) ≡ true)
    × (((updates late_fill order).matched_size ≤f order.size) ≡ true)
    × ((updates late_fill order).size ≡ order.size)
updates-matched_size_example = updates-matched_size late_fill order order-IsValid

order_can_end_example :
    (o : LiveOrder) × (transition_order (ending live) none order ≡ ok o)
    × (is_ended o.status ≡ true)
    × (o ≡ record order { status = canceled })
order_can_end_example = order_can_end order order-IsValid refl

abbrev trade : LiveTrade
trade = record {
  trade_id = "x1";
  client_order_id = "c1";
  price = units 400_000_000_000;
  size = units scale;
  status = confirmed;
  transaction_hash = some "0xabc";
}

abbrev reports : List (LiveTradeStatus × Option String)
reports = (mined, none) ∷ (failed, some "0xdef") ∷ []

trade_confirmed : is_terminal trade ≡ true
unfolding is_terminal
trade_confirmed = refl
