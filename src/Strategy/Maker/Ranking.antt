-- ===== src/Strategy/Maker/Ranking.antt =====
-- btc_short_horizon/strategy/maker.py: the order of the plans by their keys, and the largest of a list.
use polymarket_btc.Prelude.{
  subst, ◌⊎◌, if◌then◌else◌, Bool-cases, if_holds, All, IsMember, string_eq, pair_eq, is_finite,
  ◌<f◌, ◌==f◌, Float, fin, zero, suc, ◌≡◌, refl, inl, inr, Bool, true, false, some, List, [], ◌∷◌,
  arith,
}
use polymarket_btc.Strategy.Types.{TokenSide, up, down, OrderPlan, net_edge, model_edge}
use polymarket_btc.Strategy.Maker.Planning.{key_lt, first_price, max_plan, choose}

-- Both edges of a plan are finite, so that its key compares.
abbrev pub HasKey : OrderPlan → Type 0
HasKey p = (is_finite (net_edge p (first_price p)) ≡ true) × (is_finite (model_edge p) ≡ true)

-- The comparison of a key's first part, and of the rest where it is equal.
abbrev lex : Float → Float → Bool → Bool
lex x y rest = if x ==f y then rest else x <f y

abbrev before : TokenSide → TokenSide → Bool
before s t = elim s [ up ↦ false | down ↦ elim t [ up ↦ true | down ↦ false ] ]

lex_trans :
    (x y z : Float) (r s t : Bool)
    → is_finite x ≡ true
    → is_finite y ≡ true
    → is_finite z ≡ true
    → (r ≡ false → s ≡ false → t ≡ false)
    → lex x y r ≡ false
    → lex y z s ≡ false
    → lex x z t ≡ false
lex_trans (fin x) (fin y) (fin z) true s t _ _ _ h f g = ground arith
lex_trans (fin x) (fin y) (fin z) false true t _ _ _ h f g = ground arith
lex_trans (fin x) (fin y) (fin z) false false t _ _ _ h f g = let last = h refl refl in ground arith
lex_trans x y z r s t a b c h f g = absurd (ground arith)

lex-asymmetric :
    (x y : Float) (r s : Bool)
    → is_finite x ≡ true
    → is_finite y ≡ true
    → (r ≡ true → s ≡ false)
    → lex x y r ≡ true
    → lex y x s ≡ false
lex-asymmetric (fin x) (fin y) true s _ _ h f = let last = h refl in ground arith
lex-asymmetric (fin x) (fin y) false s _ _ h f = ground arith
lex-asymmetric x y r s a b h f = absurd (ground arith)

before_trans : (s t u : TokenSide) → before s t ≡ false → before t u ≡ false → before s u ≡ false
before_trans up t u f g = refl
before_trans down up u f g = cc
before_trans down down u f g = g

before-asymmetric : (s t : TokenSide) → before s t ≡ true → before t s ≡ false
before-asymmetric up t f = cc
before-asymmetric down up f = refl
before-asymmetric down down f = cc

not_lt_trans :
    (p q r : OrderPlan)
    → HasKey p
    → HasKey q
    → HasKey r
    → key_lt p q ≡ false
    → key_lt q r ≡ false
    → key_lt p r ≡ false
unfolding key_lt
not_lt_trans p q r hp hq hr f g =
    lex_trans _ _ _ _ _ _ hp.0 hq.0 hr.0
      (lex_trans (model_edge p) (model_edge q) (model_edge r) _ _ _ hp.1 hq.1 hr.1
        (before_trans p.side q.side r.side))
      f g

lt-not_lt : (p q : OrderPlan) → HasKey p → HasKey q → key_lt p q ≡ true → key_lt q p ≡ false
unfolding key_lt
lt-not_lt p q hp hq f =
    lex-asymmetric _ _ _ _ hp.0 hq.0
      (lex-asymmetric (model_edge p) (model_edge q) _ _ hp.1 hq.1 (before-asymmetric p.side q.side))
      f

not_lt_self : (p : OrderPlan) → HasKey p → key_lt p p ≡ false
not_lt_self p h = elim (Bool-cases (key_lt p p)) [
  | inl less ↦ lt-not_lt p p h h less
  | inr keep ↦ keep
]

-- Nothing in the list has a larger key.
abbrev IsLargest : OrderPlan → List OrderPlan → Type 0
IsLargest p ps = All (λ q. key_lt p q ≡ false) ps

max_plan-HasKey :
    (p : OrderPlan) (ps : List OrderPlan) → HasKey p → All HasKey ps → HasKey (max_plan p ps)
unfolding max_plan
max_plan-HasKey p [] h hs = h
max_plan-HasKey p (q ∷ qs) h hs =
    if_holds (λ (r : OrderPlan). HasKey (max_plan r qs)) (key_lt p q)
      (λ _. max_plan-HasKey q qs hs.0 hs.1) (λ _. max_plan-HasKey p qs h hs.1)

max_plan-IsLargest :
    (p : OrderPlan) (ps : List OrderPlan)
    → HasKey p
    → All HasKey ps
    → IsLargest (max_plan p ps) (p ∷ ps)
unfolding max_plan
max_plan-IsLargest p [] h hs = (not_lt_self p h, tt)
max_plan-IsLargest p (q ∷ qs) h hs =
    if_holds (λ (r : OrderPlan). IsLargest (max_plan r qs) (p ∷ q ∷ qs)) (key_lt p q)
      (λ less.
        let (first, rest) = max_plan-IsLargest q qs hs.0 hs.1 in
        let top = max_plan-HasKey q qs hs.0 hs.1 in
        (not_lt_trans _ q p top hs.0 h first (lt-not_lt p q h hs.0 less), (first, rest)))
      (λ keep.
        let (first, rest) = max_plan-IsLargest p qs h hs.1 in
        let top = max_plan-HasKey p qs h hs.1 in
        (first, (not_lt_trans _ p q top h hs.0 first keep, rest)))

skip_second :
    {x : OrderPlan} (p q : OrderPlan) (qs : List OrderPlan)
    → IsMember x (p ∷ qs)
    → IsMember x (p ∷ q ∷ qs)
skip_second p q qs (zero, eq) = (0, eq)
skip_second p q qs (suc n, eq) = (suc (suc n), eq)

max_plan-IsMember : (p : OrderPlan) (ps : List OrderPlan) → IsMember (max_plan p ps) (p ∷ ps)
unfolding max_plan
max_plan-IsMember p [] = (0, refl)
max_plan-IsMember p (q ∷ qs) =
    if_holds (λ (r : OrderPlan). IsMember (max_plan r qs) (p ∷ q ∷ qs)) (key_lt p q)
      (λ _. let (n, eq) = max_plan-IsMember q qs in (suc n, eq))
      (λ _. skip_second p q qs (max_plan-IsMember p qs))

-- The net edge of a plan at its first price.
abbrev pub first_edge : OrderPlan → Float
first_edge p = net_edge p (first_price p)

-- The first plan is no better than the second: it has a smaller net edge at its first price, or the same
-- and a smaller model edge, or both the same and does not win by its side, where UP wins over DOWN.
abbrev pub IsNoBetter : OrderPlan → OrderPlan → Type 0
IsNoBetter q p =
    ((first_edge q <f first_edge p) ≡ true)
    ⊎ ((first_edge q ≡ first_edge p)
        × (((model_edge q <f model_edge p) ≡ true)
            ⊎ ((model_edge q ≡ model_edge p) × ((p.side ≡ up) ⊎ (q.side ≡ down)))))

lex-false :
    (x y : Float) (r : Bool)
    → is_finite x ≡ true
    → is_finite y ≡ true
    → lex x y r ≡ false
    → ((y <f x) ≡ true) ⊎ ((y ≡ x) × (r ≡ false))
lex-false (fin x) (fin y) r _ _ h = ground arith
lex-false x y r a b h = absurd (ground arith)

before-false : (s t : TokenSide) → before s t ≡ false → (s ≡ up) ⊎ (t ≡ down)
before-false up t h = inl refl
before-false down up h = cc
before-false down down h = inr refl

key_lt-IsNoBetter : (p q : OrderPlan) → HasKey p → HasKey q → key_lt p q ≡ false → IsNoBetter q p
unfolding key_lt
key_lt-IsNoBetter p q hp hq h = elim (lex-false (first_edge p) (first_edge q) _ hp.0 hq.0 h) [
  | inl less ↦ inl less
  | inr (same, rest) ↦ elim (lex-false (model_edge p) (model_edge q) _ hp.1 hq.1 rest) [
    | inl less ↦ inr (same, inl less)
    | inr (equal, last) ↦ inr (same, inr (equal, before-false p.side q.side last))
  ]
]

none_better :
    (p : OrderPlan) (ps : List OrderPlan)
    → HasKey p
    → All HasKey ps
    → IsLargest p ps
    → All (λ q. IsNoBetter q p) ps
none_better p [] h hs largest = tt
none_better p (q ∷ qs) h hs largest =
    (key_lt-IsNoBetter p q h hs.0 largest.0, none_better p qs h hs.1 largest.1)

pub chosen :
    (ps : List OrderPlan) (p : OrderPlan)
    → All HasKey ps
    → (choose ps).plan ≡ some p
    → IsMember p ps × All (λ q. IsNoBetter q p) ps
unfolding choose
chosen [] p h e = absurd (ground arith)
chosen (q ∷ qs) p h e =
    let same : max_plan q qs ≡ p = ground arith in
    subst (λ m. IsMember m (q ∷ qs) × All (λ x. IsNoBetter x m) (q ∷ qs)) same
      (
        max_plan-IsMember q qs,
        none_better (max_plan q qs) (q ∷ qs) (max_plan-HasKey q qs h.0 h.1) h
            (max_plan-IsLargest q qs h.0 h.1),
      )
