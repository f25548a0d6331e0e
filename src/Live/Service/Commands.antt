-- ===== src/Live/Service/Commands.antt =====
-- btc_short_horizon/live/service.py: any sequence of calls of the service. A call that raises leaves
-- behind what it had changed.
use polymarket_btc.Prelude.{
  refl, sym, ◌⊎◌, inl, inr, Result, ltb_ℤ, ℤ, string_eq, pair_eq, str_is_empty, pos, String, ◌≡◌,
  ◌∙◌, Bool, true, false, Option, List, [], ◌∷◌, arith,
}
use polymarket_btc.Live.Risk.{AccountSnapshot}
use polymarket_btc.Live.Gateway.{LiveOrderRequest, LiveOrderGateway}
use polymarket_btc.Live.Service.{is_shadow, ServiceError, SubmitResult, Service, write}
use polymarket_btc.Live.Service.Guards.{Permitted, Idle, submit-Permitted}
use polymarket_btc.Live.Service.Restore.{restore_from_wal}
use polymarket_btc.Live.Service.Restore.Kept.{Kept, restore_from_wal-Kept}
use polymarket_btc.Live.Service.Submit.{submit}
use polymarket_btc.Live.Service.Cancel.{
  request_cancel, cancel_all, emergency_stop, after_stop, send_cancel_all,
}
use polymarket_btc.Live.Service.Heartbeats.{
  record_heartbeat, send_venue_heartbeat, enforce_heartbeat_timeout,
}
use polymarket_btc.Live.Service.Reconcile.{
  OrderEvent, TradeEvent, reconcile_order, reconcile_trade, resolve_submission_unknown,
}
use polymarket_btc.Live.Service.Effects.{
  Safe, reconcile_order-Safe, resolve-Safe, record_heartbeat-Safe, request_cancel-Safe,
  cancel_all-Safe, emergency_stop-Safe, send_venue_heartbeat-Safe, enforce-Safe,
  reconcile_trade-Safe, submit-Safe,
}

-- A call of a method, with its arguments.
pub data Command : Type 0 where
  submit_command : String → LiveOrderRequest → AccountSnapshot → ℤ → Command
  cancel_command : String → ℤ → Command
  cancel_all_command stop_command : ℤ → String → Command
  heartbeat_command venue_heartbeat_command timeout_command : ℤ → Command
  order_command : OrderEvent → ℤ → Command
  trade_command : TradeEvent → ℤ → Command
  resolve_command : String → ℤ → Option String → Bool → Command
  restore_command : Command

module _ {G : Type 0} (gw : LiveOrderGateway G) where
  unfoldable pub perform : Command → Service G → Service G
  perform (submit_command id r a ts) s = (submit gw id r a ts s).1
  perform (cancel_command id ts) s = (request_cancel gw id ts s).1
  perform (cancel_all_command ts reason) s = (cancel_all gw ts reason s).1
  perform (stop_command ts reason) s = (emergency_stop gw ts reason s).1
  perform (heartbeat_command ts) s = (record_heartbeat ts s).1
  perform (venue_heartbeat_command ts) s = (send_venue_heartbeat gw ts s).1
  perform (timeout_command ts) s = (enforce_heartbeat_timeout gw ts s).1
  perform (order_command ev ts) s = (reconcile_order ev ts s).1
  perform (trade_command ev ts) s = (reconcile_trade ev ts s).1
  perform (resolve_command id ts venue absent) s =
      (resolve_submission_unknown id ts venue absent s).1
  perform restore_command s = (restore_from_wal s).1

  unfoldable pub perform_all : List Command → Service G → Service G
  unfolding perform
  perform_all [] s = s
  perform_all (c ∷ cs) s = perform_all cs (perform c s)

-- What every call keeps: the configuration, a halt, and in the shadow mode the gateway.
record Steady {G : Type 0} (s s' : Service G) : Type 0 where
  config : s'.config ≡ s.config
  halted : s.is_halted ≡ true → s'.is_halted ≡ true
  gateway : is_shadow s.config.mode ≡ true → s'.gateway ≡ s.gateway

Safe-Steady : {G : Type 0} {s s' : Service G} → Safe s s' → Steady s s'
Safe-Steady h = record { config = h.config; halted = h.halted; gateway = h.gateway }

Kept-Steady : {G : Type 0} {s s' : Service G} → Kept s s' → Steady s s'
Kept-Steady h = record { config = h.config; halted = h.halted; gateway = λ _. h.gateway }

-- A service that is halted, or becomes so, permits nothing.
halted-Idle :
    {G : Type 0} {r : LiveOrderRequest} {a : AccountSnapshot} (s : Service G)
    (x : Result ServiceError SubmitResult × Service G)
    → s.is_halted ≡ true
    → Permitted r a s ⊎ Idle s x
    → Idle s x
halted-Idle s x h (inl p) = absurd (let no : false ≡ true = sym p.running ∙ h in ground arith)
halted-Idle s x h (inr i) = i

module _ {G : Type 0} (gw : LiveOrderGateway G) where
  perform-Steady : (c : Command) (s : Service G) → Steady s (perform gw c s)
  unfolding perform
  perform-Steady (submit_command id r a ts) s = Safe-Steady (submit-Safe gw id r a ts s)
  perform-Steady (cancel_command id ts) s = Safe-Steady (request_cancel-Safe gw id ts s)
  perform-Steady (cancel_all_command ts reason) s = Safe-Steady (cancel_all-Safe gw ts reason s)
  perform-Steady (stop_command ts reason) s = Safe-Steady (emergency_stop-Safe gw ts reason s)
  perform-Steady (heartbeat_command ts) s = Safe-Steady (record_heartbeat-Safe ts s)
  perform-Steady (venue_heartbeat_command ts) s = Safe-Steady (send_venue_heartbeat-Safe gw ts s)
  perform-Steady (timeout_command ts) s = Safe-Steady (enforce-Safe gw ts s)
  perform-Steady (order_command ev ts) s = Safe-Steady (reconcile_order-Safe ev ts s)
  perform-Steady (trade_command ev ts) s = Safe-Steady (reconcile_trade-Safe gw ev ts s)
  perform-Steady (resolve_command id ts venue absent) s =
      Safe-Steady (resolve-Safe id ts venue absent s)
  perform-Steady restore_command s = Kept-Steady (restore_from_wal-Kept s)

  perform_all-Steady : (cs : List Command) (s : Service G) → Steady s (perform_all gw cs s)
  unfolding perform_all
  perform_all-Steady [] s = record { config = refl; halted = λ h. h; gateway = λ h. refl }
  perform_all-Steady (c ∷ cs) s =
      let f = perform-Steady c s in
      let g = perform_all-Steady cs (perform gw c s) in
      record {
        config = g.config ∙ f.config;
        halted = λ h. g.halted (f.halted h);
        gateway = λ h. g.gateway (rw f.config h) ∙ f.gateway h;
      }

  -- In the shadow mode no sequence of calls ever reaches the gateway: its state stays as it was.
  pub perform_all-shadow :
      (cs : List Command) (s : Service G)
      → is_shadow s.config.mode ≡ true
      → (perform_all gw cs s).gateway ≡ s.gateway
  perform_all-shadow cs s h = (perform_all-Steady cs s).gateway h

  stop_lem :
      (ts : ℤ) (reason : String) (s : Service G)
      → ltb_ℤ ts (pos 0) ≡ false
      → str_is_empty reason ≡ false
      → (emergency_stop gw ts reason s).1.is_halted ≡ true
  unfolding emergency_stop after_stop cancel_all send_cancel_all write
  stop_lem ts reason s t r = ground arith

  -- Once `emergency_stop` was called with a time that is not negative and a reason, whatever the
  -- gateway answers and whatever is called after it, a restore from the log included: the service is
  -- halted, and a submission then leaves the gateway and the counts as they are, and reports no order as
  -- submitted.
  pub emergency_stop-perform_all :
      (ts : ℤ) (reason : String) (cs : List Command) (s : Service G) (id : String)
      (r : LiveOrderRequest) (a : AccountSnapshot) (now : ℤ)
      → ltb_ℤ ts (pos 0) ≡ false
      → str_is_empty reason ≡ false
      → ((perform_all gw cs (emergency_stop gw ts reason s).1).is_halted ≡ true)
        × Idle
            (perform_all gw cs (emergency_stop gw ts reason s).1)
            (submit gw id r a now (perform_all gw cs (emergency_stop gw ts reason s).1))
  emergency_stop-perform_all ts reason cs s id r a now t e =
      let last = perform_all gw cs (emergency_stop gw ts reason s).1 in
      let halted =
        (perform_all-Steady cs (emergency_stop gw ts reason s).1).halted
          (stop_lem ts reason s t e) in
      (halted, halted-Idle last _ halted (submit-Permitted gw r a id now last))
