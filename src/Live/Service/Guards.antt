-- ===== src/Live/Service/Guards.antt =====
-- btc_short_horizon/live/service.py: what keeps an order from the gateway.
use polymarket_btc.Prelude.{
  if_holds, ltb_ℤ, ℤ, Result, string_eq, pair_eq, member, ◌<f◌, ◌*f◌, pos, ok, err, String, ◌≡◌,
  refl, ◌⊎◌, inl, inr, Bool, true, false, not, ◌&&◌, List, [], ◌∷◌, ◌++◌, arith,
}
use polymarket_btc.Live.State.{LiveOrder, StateError, make_order}
use polymarket_btc.Live.Risk.{AccountSnapshot, evaluate_order_risk}
use polymarket_btc.Live.Gateway.{LiveOrderRequest, LiveOrderGateway}
use polymarket_btc.Live.Service.{
  is_shadow, is_canary, ServiceError, SubmitResult, SubmitReason, Service, write,
  kill_switch_active, ambiguous_submission_pending, shadow_mode, canary_size_limit, risk_refused,
  shadow_order, order_note, WalRecord, put, transitioned, bind, pure, next, order_decision,
}
use polymarket_btc.Live.Service.Submit.{
  new_order, not_submitted, risk_config, block_order, refused, decide, submit,
}

abbrev pub is_sent : Result ServiceError SubmitResult → Bool
is_sent (ok r) = r.is_submitted
is_sent (err e) = false

-- Every gate that an order has passed when it reaches the gateway.
pub record Permitted {G : Type 0} (r : LiveOrderRequest) (a : AccountSnapshot) (s : Service G)
    : Type 0 where
  pub running : s.is_halted ≡ false
  pub clear : member r.condition_id s.ambiguous_markets ≡ false
  pub real : is_shadow s.config.mode ≡ false
  pub small : (is_canary s.config.mode && s.config.canary_max_shares <f r.size) ≡ false
  pub within : (evaluate_order_risk (risk_config s.config) a (r.price *f r.size)).is_allowed ≡ true

-- The gateway was not called, and nothing counts as submitted.
pub record Idle {G : Type 0} (s : Service G) (x : Result ServiceError SubmitResult × Service G)
    : Type 0 where
  pub gateway : x.1.gateway ≡ s.gateway
  pub progress : x.1.progress ≡ s.progress
  pub unsent : is_sent x.0 ≡ false

module _ {G : Type 0} where
  write-Idle :
      (w : WalRecord) (o : LiveOrder) (reason : SubmitReason) (s : Service G)
      → Idle s (bind (write w) (λ _. pure (not_submitted o reason)) s)
  unfolding write
  write-Idle w o reason s = record {
    gateway = ground arith;
    progress = ground arith;
    unsent = ground arith;
  }

  refused-Idle :
      (reason : SubmitReason) (o : LiveOrder) (ts : ℤ) (s : Service G)
      → Idle s (refused reason o ts s)
  unfolding refused block_order put write
  refused-Idle reason o ts s = record {
    gateway = ground arith;
    progress = ground arith;
    unsent = ground arith;
  }

  module _ (gw : LiveOrderGateway G) (r : LiveOrderRequest) (a : AccountSnapshot) where
    -- A service that is past its guards permits the order; on any other the order is refused.
    decide-cases :
        (o : LiveOrder) (ts : ℤ) (s : Service G) → Permitted r a s ⊎ Idle s (decide gw r a o ts s)
    unfolding decide
    decide-cases o ts s =
        let risk = evaluate_order_risk (risk_config s.config) a (r.price *f r.size) in
        let Settled =
          λ (x : Result ServiceError SubmitResult × Service G). Permitted r a s ⊎ Idle s x in
        if_holds Settled s.is_halted (λ _. inr (refused-Idle kill_switch_active o ts s))
          λ running.
            if_holds Settled (member r.condition_id s.ambiguous_markets)
              (λ _. inr (refused-Idle ambiguous_submission_pending o ts s))
              λ clear.
                if_holds Settled (is_shadow s.config.mode)
                  (λ _. inr (write-Idle (order_note shadow_order ts o) o shadow_mode s))
                  λ real.
                    if_holds Settled
                      (is_canary s.config.mode && s.config.canary_max_shares <f r.size)
                      (λ _. inr (refused-Idle canary_size_limit o ts s))
                      λ small.
                        if_holds Settled (not risk.is_allowed)
                          (λ _. inr (refused-Idle (risk_refused risk.reason) o ts s))
                          λ within. inl (record {
                            running = running;
                            clear = clear;
                            real = real;
                            small = small;
                            within = ground arith;
                          })

    -- After the order is kept and its decision written, the guards are those of the service before.
    kept-cases :
        (id : String) (o : LiveOrder) (ts : ℤ) (s : Service G) (w : List WalRecord)
        → Permitted r a s ⊎ Idle s (decide gw r a o ts (record (put id o s) { wal = w }))
    unfolding put
    kept-cases id o ts s w = elim (decide-cases o ts (record (put id o s) { wal = w })) [
      | inl p ↦ inl (record {
        running = p.running;
        clear = p.clear;
        real = p.real;
        small = p.small;
        within = p.within;
      })
      | inr i ↦ inr (record { gateway = i.gateway; progress = i.progress; unsent = i.unsent })
    ]

    made-cases :
        (id : String) (m : Result StateError LiveOrder) (ts : ℤ) (s : Service G)
        → Permitted r a s
          ⊎ Idle s (
              transitioned m
                (λ o s.
                  bind
                    (write (order_note order_decision ts o))
                    (λ _. decide gw r a o ts)
                    (put id o s))
                s)
    unfolding write put
    made-cases id (err e) ts s = inr (record { gateway = refl; progress = refl; unsent = refl })
    made-cases id (ok o) ts s =
        if_holds
          (λ (x : Result ServiceError Unit × Service G).
            Permitted r a s ⊎ Idle s (next (λ _. decide gw r a o ts) x))
          (ltb_ℤ ts (pos 0)) (λ _. inr (record { gateway = refl; progress = refl; unsent = refl }))
          (λ _. kept-cases id o ts s (s.wal ++ order_note order_decision ts o ∷ []))

    pub submit-Permitted :
        (id : String) (ts : ℤ) (s : Service G) → Permitted r a s ⊎ Idle s (submit gw id r a ts s)
    unfolding submit
    submit-Permitted id ts s =
        if_holds (λ (x : Result ServiceError SubmitResult × Service G). Permitted r a s ⊎ Idle s x)
          (ltb_ℤ ts (pos 0)) (λ _. inr (record { gateway = refl; progress = refl; unsent = refl }))
          (λ _. made-cases id (make_order (new_order id r)) ts s)
