-- ===== src/Live/Service/Restore/Latest.antt =====
-- btc_short_horizon/live/service.py: what `restore_from_wal` restores.
use polymarket_btc.Prelude.{
  if◌then◌else◌, is_empty, All, is_ok, Result, string_eq, pair_eq, lookup, insert, lookup-insert,
  ok, err, ℕ, ◌+◌, String, ◌≡◌, refl, ap, ◌∙◌, Bool, true, false, ◌&&◌, ◌||◌, Option, none, some,
  List, [], ◌∷◌, arith, str_eq,
}
use polymarket_btc.Live.State.{LiveOrder, LiveTrade, make_order, make_trade}
use polymarket_btc.Live.Service.{
  ServiceError, EventType, kill_switch_activated, WalRecord, Service, Action, next, bind, pure,
}
use polymarket_btc.Live.Service.Restore.{
  keep_snapshot, keep_event, restore_order, restore_trade, restore_one, restore_all, recount,
  restore_from_wal,
}

-- The order of a record, if it has one under the identifier.
abbrev snapshot : String → Option LiveOrder → Option LiveOrder
snapshot id none = none
snapshot id (some o) = if str_eq o.client_order_id id then some o else none

abbrev or_else : Option LiveOrder → Option LiveOrder → Option LiveOrder
or_else (some o) old = some o
or_else none old = old

-- The last order that a log holds under an identifier.
pub latest : String → List WalRecord → Option LiveOrder
latest id [] = none
latest id (r ∷ rs) = or_else (latest id rs) (snapshot id r.order)

is_kill_event : EventType → Bool
is_kill_event kill_switch_activated = true
is_kill_event _ = false

pub has_kill : List WalRecord → Bool
unfolding is_kill_event
has_kill [] = false
has_kill (r ∷ rs) = is_kill_event r.event_type || has_kill rs

-- The snapshots of a record pass their own checks.
abbrev IsOrder : Option LiveOrder → Type 0
IsOrder none = Unit
IsOrder (some o) = make_order o ≡ ok o

abbrev IsTrade : Option LiveTrade → Type 0
IsTrade none = Unit
IsTrade (some t) = make_trade t ≡ ok t

pub record IsReadable (r : WalRecord) : Type 0 where
  pub order : IsOrder r.order
  pub trade : IsTrade r.trade

or_else-or_else : (a b c : Option LiveOrder) → or_else a (or_else b c) ≡ or_else (or_else a b) c
or_else-or_else (some o) b c = refl
or_else-or_else none b c = refl

or_else-none : (a : Option LiveOrder) → or_else a none ≡ a
or_else-none (some o) = refl
or_else-none none = refl

module _ {G : Type 0} where
  -- What reading does to a service, for a description of the orders and of the halt.
  record Reads (s : Service G) (x : Result ServiceError ℕ × Service G)
      (found : String → Option LiveOrder) (kill : Bool) : Type 0 where
    count : ℕ
    done : x.0 ≡ ok count
    orders : (id : String) → lookup id x.1.orders ≡ or_else (found id) (lookup id s.orders)
    halted : x.1.is_halted ≡ (s.is_halted || kill)

  event_rest :
      (e : EventType) (r : WalRecord) (s : Service G)
      → ((keep_event e r s).orders ≡ s.orders)
        × ((keep_event e r s).is_halted ≡ (s.is_halted || is_kill_event e))
  unfolding keep_event is_kill_event
  event_rest kill_switch_activated r s = ground arith
  event_rest e r s = ground arith

  -- A part of a record that was read, and the service that it leads to.
  record Ordered (o : Option LiveOrder) (s : Service G) : Type 0 where
    count : ℕ
    next : Service G
    eq : restore_order o s ≡ (ok count, next)
    orders : (id : String) → lookup id next.orders ≡ or_else (snapshot id o) (lookup id s.orders)
    halted : next.is_halted ≡ s.is_halted

  order_read : (o : Option LiveOrder) (s : Service G) → IsOrder o → Ordered o s
  unfolding restore_order keep_snapshot
  order_read none s h = record {
    count = 0;
    next = s;
    eq = refl;
    orders = λ id. refl;
    halted = refl;
  }
  order_read (some o) s h = record {
    count = 1;
    next = keep_snapshot o s;
    eq = rw (h, restore_order) refl;
    orders = λ id. ground (arith, lookup-insert o.client_order_id id o s.orders);
    halted = refl;
  }

  record Traded (t : Option LiveTrade) (s : Service G) : Type 0 where
    next : Service G
    eq : restore_trade t s ≡ (ok tt, next)
    orders : next.orders ≡ s.orders
    halted : next.is_halted ≡ s.is_halted

  trade_read : (t : Option LiveTrade) (s : Service G) → IsTrade t → Traded t s
  unfolding restore_trade
  trade_read none s h = record { next = s; eq = refl; orders = refl; halted = refl }
  trade_read (some t) s h = record {
    next = record s { trades = insert (t.trade_id, t.client_order_id) t s.trades };
    eq = rw (h, restore_trade) refl;
    orders = refl;
    halted = refl;
  }

  restore_one-Reads :
      (r : WalRecord) (s : Service G)
      → IsReadable r
      → Reads s (restore_one r s) (λ id. snapshot id r.order) (is_kill_event r.event_type)
  unfolding restore_one
  restore_one-Reads r s h =
      let o = order_read r.order s h.order in
      let t = trade_read r.trade o.next h.trade in
      let (orders, halted) = event_rest r.event_type r t.next in
      rw (o.eq, t.eq)
        (record {
          count = o.count;
          done = refl;
          orders = λ id. ap (lookup id) (orders ∙ t.orders) ∙ o.orders id;
          halted = halted ∙ ap (λ b. b || is_kill_event r.event_type) (t.halted ∙ o.halted);
        })

  next_done :
      {A B : Type 0} (k : A → Action G B) (x : Result ServiceError A × Service G) (a : A)
      → x.0 ≡ ok a
      → next k x ≡ k a x.1
  next_done k (ok b, s) a h = cc h
  next_done k (err e, s) a h = cc h

  after_one :
      (r : WalRecord) (rs : List WalRecord) (s : Service G) (x : Result ServiceError ℕ × Service G)
      → Reads s x (λ id. snapshot id r.order) (is_kill_event r.event_type)
      → ((t : Service G) → Reads t (restore_all rs t) (λ id. latest id rs) (has_kill rs))
      → Reads s
          (next (λ n. bind (restore_all rs) (λ k. pure (n + k))) x)
          (λ id. latest id (r ∷ rs))
          (has_kill (r ∷ rs))
  unfolding latest has_kill
  after_one r rs s (err e, t) one rest = absurd (ground (arith, one.done))
  after_one r rs s (ok n, t) one rest =
      let more = rest t in
      rw (next_done (λ k. pure (n + k)) (restore_all rs t) more.count more.done) (record {
        count = n + more.count;
        done = refl;
        orders = λ id.
            more.orders id
            ∙ ap (or_else (latest id rs)) (one.orders id)
            ∙ or_else-or_else (latest id rs) (snapshot id r.order) (lookup id s.orders);
        halted = ground (arith, more.halted, one.halted);
      })

  restore_all-Reads :
      (rs : List WalRecord) (s : Service G)
      → All IsReadable rs
      → Reads s (restore_all rs s) (λ id. latest id rs) (has_kill rs)
  unfolding restore_all latest has_kill
  restore_all-Reads [] s h = record {
    count = 0;
    done = refl;
    orders = λ id. refl;
    halted = ground arith;
  }
  restore_all-Reads (r ∷ rs) s h =
      after_one r rs s (restore_one r s) (restore_one-Reads r s h.0)
        (λ t. restore_all-Reads rs t h.1)

  recount_rest :
      (s : Service G) → ((recount s).orders ≡ s.orders) × ((recount s).is_halted ≡ s.is_halted)
  unfolding recount
  recount_rest s = (refl, refl)

  -- On a service with no orders and no trades whose log holds valid snapshots only,
  -- `restore_from_wal` succeeds; afterwards the order under each identifier is the last one that the
  -- log holds for it, and the service is halted if it was or if the log holds an activation of the
  -- kill switch.
  pub restore_from_wal-latest :
      (s : Service G)
      → All IsReadable s.wal
      → s.orders ≡ []
      → s.trades ≡ []
      → (is_ok (restore_from_wal s).0 ≡ true)
        × ((id : String) → lookup id (restore_from_wal s).1.orders ≡ latest id s.wal)
        × ((restore_from_wal s).1.is_halted ≡ (s.is_halted || has_kill s.wal))
  unfolding restore_from_wal lookup
  restore_from_wal-latest s h o t =
      let all = restore_all-Reads s.wal s h in
      let bare : (is_empty s.orders && is_empty s.trades) ≡ true = ground (arith, o, t) in
      let (orders, halted) = recount_rest (restore_all s.wal s).1 in
      let run : restore_from_wal s ≡ (ok all.count, recount (restore_all s.wal s).1) =
        rw (bare, restore_from_wal)
          (next_done (λ n x. (ok n, recount x)) (restore_all s.wal s) all.count all.done) in
      rw run (
        refl,
        λ id.
            ap (lookup id) orders
            ∙ all.orders id
            ∙ ap (λ d. or_else (latest id s.wal) (lookup id d)) o
            ∙ or_else-none (latest id s.wal),
        halted ∙ all.halted,
      )
