-- ===== src/Live/Service/Restore/Kept.antt =====
-- btc_short_horizon/live/service.py: what `restore_from_wal` leaves alone, whether it returns or raises.
use polymarket_btc.Prelude.{
  if_holds, is_empty, Result, ok, err, ℕ, ◌≡◌, refl, ◌∙◌, true, not, ◌&&◌, Option, none, some, List,
  [], ◌∷◌, string_eq, pair_eq, arith,
}
use polymarket_btc.Live.State.{LiveOrder, LiveTrade}
use polymarket_btc.Live.Service.{ServiceError, EventType, WalRecord, Service, Action, next}
use polymarket_btc.Live.Service.Restore.{
  keep_snapshot, keep_event, restore_order, restore_trade, restore_one, restore_all, recount,
  restore_from_wal,
}

-- The configuration and the gateway stay, and a halt does.
pub record Kept {G : Type 0} (s s' : Service G) : Type 0 where
  pub config : s'.config ≡ s.config
  pub halted : s.is_halted ≡ true → s'.is_halted ≡ true
  pub gateway : s'.gateway ≡ s.gateway

module _ {G : Type 0} where
  Kept-refl : (s : Service G) → Kept s s
  Kept-refl s = record { config = refl; halted = λ h. h; gateway = refl }

  next-Kept :
      {A B : Type 0} (s : Service G) (k : A → Action G B) (x : Result ServiceError A × Service G)
      → Kept s x.1
      → ((a : A) (t : Service G) → Kept t (k a t).1)
      → Kept s (next k x).1
  next-Kept s k (ok a, t) h after =
      let f = after a t in
      record {
        config = f.config ∙ h.config;
        halted = λ e. f.halted (h.halted e);
        gateway = f.gateway ∙ h.gateway;
      }
  next-Kept s k (err e, t) h after = h

  keep_event-Kept : (t : EventType) (r : WalRecord) (s : Service G) → Kept s (keep_event t r s)
  unfolding keep_event
  keep_event-Kept t r s = record {
    config = ground arith;
    halted = λ h. ground (arith, h);
    gateway = ground arith;
  }

  restore_order-Kept : (o : Option LiveOrder) (s : Service G) → Kept s (restore_order o s).1
  unfolding restore_order keep_snapshot
  restore_order-Kept none s = Kept-refl s
  restore_order-Kept (some raw) s = record {
    config = ground arith;
    halted = λ h. ground (arith, h);
    gateway = ground arith;
  }

  restore_trade-Kept : (o : Option LiveTrade) (s : Service G) → Kept s (restore_trade o s).1
  unfolding restore_trade
  restore_trade-Kept none s = Kept-refl s
  restore_trade-Kept (some raw) s = record {
    config = ground arith;
    halted = λ h. ground (arith, h);
    gateway = ground arith;
  }

  restore_one-Kept : (r : WalRecord) (s : Service G) → Kept s (restore_one r s).1
  unfolding restore_one
  restore_one-Kept r s =
      next-Kept s _ (restore_order r.order s) (restore_order-Kept r.order s) (λ n t.
        next-Kept t _ (restore_trade r.trade t) (restore_trade-Kept r.trade t)
          (λ _ u. keep_event-Kept r.event_type r u))

  restore_all-Kept : (rs : List WalRecord) (s : Service G) → Kept s (restore_all rs s).1
  unfolding restore_all
  restore_all-Kept [] s = Kept-refl s
  restore_all-Kept (r ∷ rs) s =
      next-Kept s _ (restore_one r s) (restore_one-Kept r s)
        (λ n t. next-Kept t _ (restore_all rs t) (restore_all-Kept rs t) (λ k u. Kept-refl u))

  pub restore_from_wal-Kept : (s : Service G) → Kept s (restore_from_wal s).1
  unfolding restore_from_wal recount
  restore_from_wal-Kept s =
      if_holds {A = Result ServiceError ℕ × Service G} (λ x. Kept s x.1)
        (not (is_empty s.orders && is_empty s.trades)) (λ _. Kept-refl s)
        (λ _.
          next-Kept s _ (restore_all s.wal s) (restore_all-Kept s.wal s)
            (λ n t. record { config = refl; halted = λ h. h; gateway = refl }))
