-- ===== src/Strategy/Lifecycle/Accounts.antt =====
-- btc_short_horizon/strategy/lifecycle.py: the filled size against the fills that were accepted.
use polymarket_btc.Prelude.{
  pos_part, All, Result, string_eq, pair_eq, str_is_empty, units, Float, ok, err, fin, ℕ, ◌+◌, ◌≤◌,
  String, ◌≡◌, refl, ◌∙◌, Bool, true, false, List, [], ◌∷◌, arith,
}
use native.Mathlib.Nat.{add-zero}
use polymarket_btc.Strategy.Types.{StrategyError}
use polymarket_btc.Strategy.Lifecycle.{
  MarketExecution, make_execution, transition, begin_monitoring, submit_plan, request_cancel,
  reject_cancel, record_fill, acknowledge_cancel, reject_order, complete_working_orders,
  record_resolution, redeem, Event, begin_event, fill_event, apply, keep, run, fresh,
}
use polymarket_btc.Strategy.Lifecycle.Invariant.{IsValid, Numbers, fresh-IsValid}
use polymarket_btc.Strategy.Lifecycle.Spec.{
  is_open, IsLegal, after, filled_after, apply-IsValid, record_fill-Filled,
}
use polymarket_btc.Strategy.Lifecycle.Runs.{is_final, keep_induction}

abbrev size_units : Float → ℕ
size_units (fin z) = pos_part z
size_units _ = 0

-- The size of a fill that was accepted, in units.
abbrev accepted_units : Event → Result StrategyError MarketExecution → ℕ
accepted_units (fill_event size) (ok _) = size_units size
accepted_units _ _ = 0

-- The sizes of all fills that a sequence of calls got accepted, added up.
pub total_accepted : List Event → MarketExecution → ℕ
total_accepted [] e = 0
total_accepted (ev ∷ evs) e =
    accepted_units ev (apply ev e) + total_accepted evs (keep e (apply ev e))

add_regroup : (a b c : ℕ) → a + b + c ≡ b + (a + c)
add_regroup a b c = omega arith

-- The filled size is what was accepted, and at most one unit less once the cycle has ended.
pub record Accounts (s : ℕ) (e : MarketExecution) : Type 0 where
  pub size : ℕ
  pub size_eq : e.filled_size ≡ units size
  pub le : size ≤ s
  pub ge : s ≤ size + 1
  pub exact : is_final e.phase ≡ false → s ≡ size

is_fill : Event → Bool
is_fill (fill_event _) = true
is_fill _ = false

other_call :
    (ev : Event) (e : MarketExecution) {e' : MarketExecution}
    → is_fill ev ≡ false
    → apply ev e ≡ ok e'
    → (e'.filled_size ≡ e.filled_size) × (is_final e'.phase ≡ false → is_final e.phase ≡ false)
unfolding apply begin_monitoring request_cancel reject_cancel acknowledge_cancel reject_order
    complete_working_orders record_resolution redeem submit_plan transition make_execution is_fill
other_call (fill_event _) e f h = absurd (ground arith)
other_call _ e f h = ground arith

after-Accounts :
    (s m : ℕ) (e : MarketExecution)
    → (n : Numbers e.market_slug e.filled_size e.plan) → is_open e.phase ≡ true
    → n.size + m ≤ n.total + 1
    → Accounts s e
    → Accounts (m + s) (after n.total n.size m e)
after-Accounts s m e n o r a =
    let same : n.size ≡ a.size = ground (arith, n.size_eq, a.size_eq) in
    let sum : s ≡ a.size = a.exact (ground arith) in
    record {
      size = filled_after n.total n.size m;
      size_eq = refl;
      le = ground (arith, n.size_le);
      ge = ground (arith, n.size_le);
      exact = λ h. ground (arith, n.size_le);
    }

fill_call :
    (size : Float) (s : ℕ) (e : MarketExecution) {e' : MarketExecution}
    → IsValid e
    → Accounts s e
    → record_fill size e ≡ ok e'
    → Accounts (size_units size + s) e'
fill_call size s e v a h =
    let f = record_fill-Filled size e v h in
    rw (f.next, f.size_eq) (after-Accounts s f.units_of e f.before f.open_phase f.room a)

same-Accounts :
    (s : ℕ) (e e' : MarketExecution)
    → (e'.filled_size ≡ e.filled_size) × (is_final e'.phase ≡ false → is_final e.phase ≡ false)
    → Accounts s e
    → Accounts (0 + s) e'
same-Accounts s e e' h a = record {
  size = a.size;
  size_eq = h.0 ∙ a.size_eq;
  le = omega (arith, a.le);
  ge = omega (arith, a.ge);
  exact = λ f. omega (arith, a.exact (h.1 f));
}

apply-Accounts :
    (ev : Event) (s : ℕ) (e e' : MarketExecution)
    → IsValid e
    → Accounts s e
    → apply ev e ≡ ok e'
    → Accounts (accepted_units ev (ok e') + s) e'
unfolding is_fill apply
apply-Accounts (fill_event size) s e e' v a h = fill_call size s e v a h
apply-Accounts begin_event s e e' v a h = same-Accounts s e e' (other_call begin_event e refl h) a
apply-Accounts ev s e e' v a h = same-Accounts s e e' (other_call ev e refl h) a

keep-Accounts :
    (ev : Event) (s : ℕ) (e : MarketExecution) (r : Result StrategyError MarketExecution)
    → apply ev e ≡ r
    → IsValid e
    → Accounts s e
    → Accounts (accepted_units ev r + s) (keep e r)
unfolding keep
keep-Accounts ev s e (ok e') h v a = apply-Accounts ev s e e' v a h
keep-Accounts (fill_event size) s e (err x) h v a = same-Accounts s e e (refl, λ f. f) a
keep-Accounts ev s e (err x) h v a = same-Accounts s e e (refl, λ f. f) a

run-Accounts :
    (evs : List Event) (s : ℕ) (e : MarketExecution)
    → All IsLegal evs
    → IsValid e
    → Accounts s e
    → Accounts (total_accepted evs e + s) (run evs e)
unfolding total_accepted run
run-Accounts [] s e l v a = same-Accounts s e e (refl, λ f. f) a
run-Accounts (ev ∷ evs) s e l v a = rw add_regroup (
    run-Accounts evs (accepted_units ev (apply ev e) + s) (keep e (apply ev e)) l.1
      (keep_induction IsValid (λ ev e e' l v h. apply-IsValid ev l v h) ev e (apply ev e) l.0 refl
        v)
      (keep-Accounts ev s e (apply ev e) refl v a))

-- From a new market with a non-empty slug, after any calls in any order whose plans have passed
-- their own checks: the filled size is at most the sum of the fills that the calls accepted and at
-- most one unit (1e-12) below it, and equals it while the cycle has not ended.
pub run-fresh-Accounts :
    (slug : String) (evs : List Event)
    → str_is_empty slug ≡ false
    → All IsLegal evs
    → Accounts (total_accepted evs (fresh slug)) (run evs (fresh slug))
unfolding fresh
run-fresh-Accounts slug evs h l = rw add-zero at (
    run-Accounts evs 0 (fresh slug) l (fresh-IsValid slug h)
      (record { size = 0; size_eq = refl; le = omega arith; ge = omega arith; exact = λ _. refl }))
