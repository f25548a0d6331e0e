-- ===== src/Live/State/Endings.antt =====
-- btc_short_horizon/live/state.py: how orders and trades end.
use polymarket_btc.Prelude.{
  if◌then◌else◌, ap, false, string_eq, pair_eq, ok, err, String, ◌≡◌, refl, true, Option, none,
  List, [], ◌∷◌, arith,
}
use polymarket_btc.Live.State.{
  LiveOrderStatus, created, signed, submitted, rejected, canceled, order_transitions, LiveOrder,
  make_order, transition_order, LiveTradeStatus, LiveTrade, is_terminal, transition_trade,
  trade_transitions,
}
use polymarket_btc.Live.State.Orders.{IsValid, is_ended, is_acknowledged}

-- The status that ends an order from where it is.
abbrev pub ending : LiveOrderStatus → LiveOrderStatus
ending created = rejected
ending signed = rejected
ending submitted = rejected
ending rejected = rejected
ending _ = canceled

make_order-status :
    (s : LiveOrderStatus) (o : LiveOrder)
    → IsValid o
    → make_order (record o { status = s }) ≡ ok (record o { status = s })
unfolding make_order
make_order-status s o v = ground arith

-- Every valid order that has not ended can end: one transition succeeds, takes it to `rejected` if it was
-- not acknowledged and to `canceled` if it was, and changes nothing but the status.
pub order_can_end :
    (o : LiveOrder)
    → IsValid o
    → is_ended o.status ≡ false
    → (o' : LiveOrder) × (transition_order (ending o.status) none o ≡ ok o')
      × (is_ended o'.status ≡ true)
      × (o' ≡ record o { status = if is_acknowledged o.status then canceled else rejected })
unfolding transition_order order_transitions
order_can_end o v h = (
  record o { status = ending o.status },
  ground (arith, make_order-status rejected o v, make_order-status canceled o v),
  ground arith,
  ap (λ s. record o { status = s }) (ground arith),
)

-- The reports of a trade, in the order in which they come; a report that raises changes nothing.
pub trade_updates : List (LiveTradeStatus × Option String) → LiveTrade → LiveTrade
trade_updates [] t = t
trade_updates ((s, hash) ∷ us) t =
    trade_updates us (elim (transition_trade s hash t) [ ok t' ↦ t' | err _ ↦ t ])

terminal_stays :
    (s : LiveTradeStatus) (hash : Option String) (t : LiveTrade)
    → is_terminal t ≡ true
    → elim (transition_trade s hash t) as (λ _. LiveTrade) [ ok t' ↦ t' | err _ ↦ t ] ≡ t
unfolding is_terminal transition_trade trade_transitions
terminal_stays s hash t h = ground arith

-- A confirmed or failed trade never changes again.
pub trade_updates-is_terminal :
    (us : List (LiveTradeStatus × Option String)) (t : LiveTrade)
    → is_terminal t ≡ true
    → trade_updates us t ≡ t
unfolding trade_updates
trade_updates-is_terminal [] t h = refl
trade_updates-is_terminal ((s, hash) ∷ us) t h =
    rw (terminal_stays s hash t h) (trade_updates-is_terminal us t h)
