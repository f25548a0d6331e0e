-- ===== src/Live/Gateway/Paper/Numbering.antt =====
-- btc_short_horizon/live/gateway.py: the order ids of `PaperOrderGateway`, and its open orders.
use polymarket_btc.Prelude.{
  Bool-cases, if_holds, All, All-append, string_eq, pair_eq, Dict, insert, has_key, remove, ℕ, ◌+◌,
  ◌≤◌, ◌<◌, String, ◌≡◌, refl, sym, ap, ◌∙◌, inl, inr, Bool, false, some, List, [], ◌∷◌, ◌++◌,
  arith, str_eq, eq_iff,
}
use polymarket_btc.Prelude.Digits.{show, drop_prefix, drop_prefix_append, read, read-show}
use polymarket_btc.Live.Gateway.{LiveOrderRequest}
use polymarket_btc.Live.Gateway.Paper.{
  PaperOrderGateway, new_gateway, order_id, submit_post_only_buy, cancel_order, is_kept,
  keep_orders, cancel_market, cancel_all, send_heartbeat, Call, submit_call, cancel_call,
  market_call, all_call, heartbeat_call, run_call, run_calls,
}

-- Every id is that of an order that was made before.
abbrev pub Numbered : ℕ → Dict String LiveOrderRequest → Type 0
Numbered n d = All (λ (o : String × LiveOrderRequest). (k : ℕ) × (k < n) × (o.0 ≡ order_id k)) d

some_value : {A : Type 0} {x y : A} → some x ≡ some y → x ≡ y
some_value h = cc

order_id_same : (j k : ℕ) → order_id j ≡ order_id k → j ≡ k
order_id_same j k h =
    let texts =
      sym (drop_prefix_append "paper-" (show j))
      ∙ ap (drop_prefix "paper-") h
      ∙ drop_prefix_append "paper-" (show k) in
    some_value (sym (read-show j) ∙ ap read (some_value texts) ∙ read-show k)

other_id : (n k : ℕ) (id : String) → k < n → id ≡ order_id k → str_eq id (order_id n) ≡ false
other_id n k id less eq = elim (Bool-cases (str_eq id (order_id n))) [
  | inl same ↦
      let again : k ≡ n = order_id_same k n (sym eq ∙ (eq_iff id (order_id n)).0 same) in
      absurd (omega (arith, less, again))
  | inr other ↦ other
]

-- A new id is not in use.
fresh_id :
    (n : ℕ) (d : Dict String LiveOrderRequest) → Numbered n d → has_key (order_id n) d ≡ false
unfolding has_key
fresh_id n [] h = refl
fresh_id n ((id, r) ∷ d) ((k, less, eq), rest) =
    rw (other_id n k id less eq, fresh_id n d rest) refl

insert_new :
    (id : String) (r : LiveOrderRequest) (d : Dict String LiveOrderRequest)
    → has_key id d ≡ false
    → insert id r d ≡ d ++ (id, r) ∷ []
unfolding insert has_key
insert_new id r [] h = refl
insert_new id r ((j, q) ∷ d) h =
    let other : str_eq j id ≡ false = ground arith in
    rw (other, insert_new id r d (ground arith)) refl

Numbered-le : (m n : ℕ) (d : Dict String LiveOrderRequest) → m ≤ n → Numbered m d → Numbered n d
Numbered-le m n [] l h = tt
Numbered-le m n (o ∷ d) l ((k, less, eq), rest) = ((k, omega arith, eq), Numbered-le m n d l rest)

keep_orders-Numbered :
    (n : ℕ) (p : LiveOrderRequest → Bool) (d : Dict String LiveOrderRequest)
    → Numbered n d
    → Numbered n (keep_orders p d)
unfolding keep_orders
keep_orders-Numbered n p [] h = tt
keep_orders-Numbered n p ((id, r) ∷ d) h =
    if_holds (Numbered n) (p r) (λ _. (h.0, keep_orders-Numbered n p d h.1))
      (λ _. keep_orders-Numbered n p d h.1)

remove-Numbered :
    (n : ℕ) (id : String) (d : Dict String LiveOrderRequest)
    → Numbered n d
    → Numbered n (remove id d)
unfolding remove
remove-Numbered n id [] h = tt
remove-Numbered n id ((j, r) ∷ d) h =
    if_holds (Numbered n) (str_eq j id) (λ _. h.1) (λ _. (h.0, remove-Numbered n id d h.1))

abbrev pub IsNumbered : PaperOrderGateway → Type 0
IsNumbered g = Numbered g.next_order_number g.open_orders

submit-new :
    (r : LiveOrderRequest) (g : PaperOrderGateway)
    → IsNumbered g
    → (run_call (submit_call r) g).open_orders
      ≡ g.open_orders ++ (order_id g.next_order_number, r) ∷ []
unfolding run_call submit_post_only_buy
submit-new r g h =
    insert_new (order_id g.next_order_number) r g.open_orders
      (fresh_id g.next_order_number g.open_orders h)

run_call-IsNumbered : (c : Call) (g : PaperOrderGateway) → IsNumbered g → IsNumbered (run_call c g)
unfolding run_call submit_post_only_buy cancel_order cancel_market cancel_all send_heartbeat
run_call-IsNumbered (submit_call r) g h =
    let n = g.next_order_number in
    rw (insert_new (order_id n) r g.open_orders (fresh_id n g.open_orders h)) (
      All-append _ g.open_orders ((order_id n, r) ∷ [])
        (Numbered-le n (n + 1) g.open_orders (omega arith) h) ((n, omega arith, refl), tt))
run_call-IsNumbered (cancel_call id) g h = remove-Numbered g.next_order_number id g.open_orders h
run_call-IsNumbered (market_call c t) g h =
    keep_orders-Numbered g.next_order_number (is_kept c t) g.open_orders h
run_call-IsNumbered all_call g h = tt
run_call-IsNumbered (heartbeat_call id) g h = h

run_calls-IsNumbered :
    (cs : List Call) (g : PaperOrderGateway) → IsNumbered g → IsNumbered (run_calls cs g)
unfolding run_calls
run_calls-IsNumbered [] g h = h
run_calls-IsNumbered (c ∷ cs) g h =
    run_calls-IsNumbered cs (run_call c g) (run_call-IsNumbered c g h)

-- After any calls of a new paper gateway, in any order, a submission gives the order an id that no
-- open order has: it adds one open order after the others, and replaces none.
pub run_calls-submit_call :
    (cs : List Call) (r : LiveOrderRequest)
    → (run_call (submit_call r) (run_calls cs new_gateway)).open_orders
      ≡ (run_calls cs new_gateway).open_orders
        ++ (order_id (run_calls cs new_gateway).next_order_number, r) ∷ []
unfolding new_gateway
run_calls-submit_call cs r =
    submit-new r (run_calls cs new_gateway) (run_calls-IsNumbered cs new_gateway tt)
