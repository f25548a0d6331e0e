-- ===== src/Live/Service/Effects.antt =====
-- btc_short_horizon/live/service.py: what every call leaves alone, whether it returns or raises.
use polymarket_btc.Prelude.{
  if◌then◌else◌, ℤ, Result, string_eq, pair_eq, str_is_empty, lookup, ok, err, String, ◌≡◌, refl,
  ap, ◌∙◌, inl, inr, Bool, true, Option, none, some, List, [], ◌∷◌, arith,
}
use polymarket_btc.Live.State.{LiveOrder, LiveTradeStatus, LiveTrade}
use polymarket_btc.Live.Risk.{AccountSnapshot}
use polymarket_btc.Live.Gateway.{LiveOrderRequest, LiveOrderGateway}
use polymarket_btc.Live.Service.{
  is_shadow, ServiceError, Service, Action, write, put, next, WalRecord,
}
use polymarket_btc.Live.Service.Submit.{submit, settle, send, place, decide, refused, block_order}
use polymarket_btc.Live.Service.Guards.{submit-Permitted}
use polymarket_btc.Live.Service.Cancel.{
  request_cancel, cancel_all, emergency_stop, after_cancel, after_stop, send_cancel, cancel_known,
  cancel_found, send_cancel_all,
}
use polymarket_btc.Live.Service.Heartbeats.{
  record_heartbeat, send_venue_heartbeat, enforce_heartbeat_timeout, after_beat, send_beat,
  enforce_after, enforce_since,
}
use polymarket_btc.Live.Service.Reconcile.{
  OrderEvent, TradeEvent, MakerOrder, reconcile_order, reconcile_trade, resolve_submission_unknown,
  keep_order, reconcile_matched, reconcile_found, reconcile_known, keep_trade, open_trade,
  trade_for, maker_found, maker_known, reconcile_makers, reconcile_status, resolve_as,
  resolve_found,
}

-- What every call keeps: the configuration, a halt, in the shadow mode the gateway, and while the
-- service is halted the count of submitted orders.
pub record Safe {G : Type 0} (s s' : Service G) : Type 0 where
  pub config : s'.config ≡ s.config
  pub halted : s.is_halted ≡ true → s'.is_halted ≡ true
  pub gateway : is_shadow s.config.mode ≡ true → s'.gateway ≡ s.gateway
  pub submitted : s.is_halted ≡ true → s'.progress.submitted_orders ≡ s.progress.submitted_orders

module _ {G : Type 0} where
  pub Safe-refl : (s : Service G) → Safe s s
  Safe-refl s = record {
    config = refl;
    halted = λ h. h;
    gateway = λ h. refl;
    submitted = λ h. refl;
  }

  pub Safe-trans : (s t u : Service G) → Safe s t → Safe t u → Safe s u
  Safe-trans s t u f g = record {
    config = g.config ∙ f.config;
    halted = λ h. g.halted (f.halted h);
    gateway = λ h. g.gateway (rw f.config h) ∙ f.gateway h;
    submitted = λ h. g.submitted (f.halted h) ∙ f.submitted h;
  }

  -- What keeps the service safe twice, keeps it safe in sequence.
  next-Safe :
      {A B : Type 0} (s : Service G) (k : Action G B) (x : Result ServiceError A × Service G)
      → Safe s x.1
      → ((t : Service G) → Safe t (k t).1)
      → Safe s (next (λ _. k) x).1
  next-Safe s k (ok _, t) h after = Safe-trans s t (k t).1 h (after t)
  next-Safe s k (err _, t) h after = h

  write-Safe : (w : WalRecord) (s : Service G) → Safe s (write w s).1
  unfolding write
  write-Safe w s = ground arith

  keep_order-Safe : (ts : ℤ) (o : LiveOrder) (s : Service G) → Safe s (keep_order ts o s).1
  unfolding keep_order put write
  keep_order-Safe ts o s = ground arith

  pub reconcile_order-Safe :
      (ev : OrderEvent) (ts : ℤ) (s : Service G) → Safe s (reconcile_order ev ts s).1
  unfolding reconcile_order reconcile_known reconcile_found reconcile_matched keep_order put write
  reconcile_order-Safe ev ts s = ground arith

  keep_trade-Safe :
      (key : String × String) (st : LiveTradeStatus) (ts : ℤ) (o : LiveOrder) (t : LiveTrade)
      (s : Service G)
      → Safe s (keep_trade key st ts o t s).1
  unfolding keep_trade write
  keep_trade-Safe key st ts o t s = ground arith

  maker_known-Safe :
      (ev : TradeEvent) (st : LiveTradeStatus) (m : MakerOrder) (ts : ℤ) (c : Option String)
      (s : Service G)
      → Safe s (maker_known ev st m ts c s).1
  unfolding maker_known maker_found trade_for open_trade keep_trade put write
  maker_known-Safe ev st m ts c s = ground arith

  pub resolve-Safe :
      (id : String) (ts : ℤ) (venue : Option String) (absent : Bool) (s : Service G)
      → Safe s (resolve_submission_unknown id ts venue absent s).1
  unfolding resolve_submission_unknown resolve_found resolve_as put write
  resolve-Safe id ts venue absent s = ground arith

  pub record_heartbeat-Safe : (ts : ℤ) (s : Service G) → Safe s (record_heartbeat ts s).1
  unfolding record_heartbeat write
  record_heartbeat-Safe ts s = ground arith

  module _ (gw : LiveOrderGateway G) where
    pub request_cancel-Safe :
        (id : String) (ts : ℤ) (s : Service G) → Safe s (request_cancel gw id ts s).1
    unfolding request_cancel cancel_found cancel_known send_cancel after_cancel put write
    request_cancel-Safe id ts s = ground arith

    pub cancel_all-Safe :
        (ts : ℤ) (reason : String) (s : Service G) → Safe s (cancel_all gw ts reason s).1
    unfolding cancel_all send_cancel_all write
    cancel_all-Safe ts reason s = ground arith

    pub emergency_stop-Safe :
        (ts : ℤ) (reason : String) (s : Service G) → Safe s (emergency_stop gw ts reason s).1
    unfolding emergency_stop after_stop cancel_all send_cancel_all write
    emergency_stop-Safe ts reason s = ground arith

    pub send_venue_heartbeat-Safe :
        (ts : ℤ) (s : Service G) → Safe s (send_venue_heartbeat gw ts s).1
    unfolding send_venue_heartbeat send_beat after_beat record_heartbeat write
    send_venue_heartbeat-Safe ts s = ground arith

    pub enforce-Safe : (now : ℤ) (s : Service G) → Safe s (enforce_heartbeat_timeout gw now s).1
    unfolding enforce_heartbeat_timeout enforce_since enforce_after
    enforce-Safe now s =
        let stop =
          next-Safe s (λ t. (ok true, record t { heartbeat_cancel_requested = true }))
            (emergency_stop gw now "heartbeat_timeout" s)
            (emergency_stop-Safe now "heartbeat_timeout" s) (λ t. ground arith) in
        ground (arith, stop)

    makers-Safe :
        (ev : TradeEvent) (st : LiveTradeStatus) (ms : List MakerOrder) (ts : ℤ) (s : Service G)
        → Safe s (reconcile_makers ev st ms ts s).1
    unfolding reconcile_makers
    makers-Safe ev st [] ts s = Safe-refl s
    makers-Safe ev st (m ∷ ms) ts s =
        let known = lookup m.order_id s.client_order_by_venue in
        next-Safe s (reconcile_makers ev st ms ts) (maker_known ev st m ts known s)
          (maker_known-Safe ev st m ts known s) (makers-Safe ev st ms ts)

    pub reconcile_trade-Safe :
        (ev : TradeEvent) (ts : ℤ) (s : Service G) → Safe s (reconcile_trade ev ts s).1
    unfolding reconcile_trade reconcile_status
    reconcile_trade-Safe ev ts s = reported ev.status
      where
        reported :
            (st : Option LiveTradeStatus)
            → Safe s (if str_is_empty ev.id then (ok tt, s) else reconcile_status ev st ts s).1
        reported none = ground arith
        reported (some st) = ground (arith, makers-Safe ev st ev.maker_orders ts s)

    submit_rest :
        (id : String) (r : LiveOrderRequest) (a : AccountSnapshot) (ts : ℤ) (s : Service G)
        → ((submit gw id r a ts s).1.config ≡ s.config)
          × ((submit gw id r a ts s).1.is_halted ≡ s.is_halted)
    unfolding submit decide refused block_order place send settle put write
    submit_rest id r a ts s = (ground arith, ground arith)

    pub submit-Safe :
        (id : String) (r : LiveOrderRequest) (a : AccountSnapshot) (ts : ℤ) (s : Service G)
        → Safe s (submit gw id r a ts s).1
    submit-Safe id r a ts s =
        let (config, halted) = submit_rest id r a ts s in
        elim (submit-Permitted gw r a id ts s) [
          | inl p ↦ record {
            config = config;
            halted = λ h. halted ∙ h;
            gateway = λ h. absurd (ground (arith, p.real));
            submitted = λ h. absurd (ground (arith, p.running));
          }
          | inr i ↦ record {
            config = config;
            halted = λ h. halted ∙ h;
            gateway = λ h. i.gateway;
            submitted = λ h. ap (λ q. q.submitted_orders) i.progress;
          }
        ]
