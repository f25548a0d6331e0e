-- ===== src/Prelude/Sets.antt =====
-- A set that is kept beside the queue of its members.
use mathlib.Core.Path.{◌≡◌, refl}
use mathlib.Core.Bool.{false, ◌||◌}
use mathlib.Core.List.{List, [], ◌∷◌, ◌++◌}
use native.Mathlib.Omega.{arith}
use polymarket_btc.Prelude.Dicts.{Eq, member, add, discard, member-add, member-discard}

module _ {K : Type 0} ⦃e : Eq K⦄ where
  -- No key stands twice in the queue.
  abbrev pub Distinct : List K → Type 0
  Distinct [] = Unit
  Distinct (k ∷ ks) = (member k ks ≡ false) × Distinct ks

  -- The set holds what the queue holds.
  abbrev pub SameMembers : List K → List K → Type 0
  SameMembers s q = (k : K) → member k s ≡ member k q

module _ {K : Type 0} ⦃e : Eq K⦄ where
  pub member-append : (k j : K) (q : List K) → member k (q ++ j ∷ []) ≡ (e.beq j k || member k q)
  unfolding member
  member-append k j [] = refl
  member-append k j (i ∷ q) = ground (arith, member-append k j q)

  pub Distinct-append :
      (j : K) (q : List K) → Distinct q → member j q ≡ false → Distinct (q ++ j ∷ [])
  unfolding member
  Distinct-append j [] d h = (refl, tt)
  Distinct-append j (i ∷ q) d h = (
    ground (arith, member-append i j q, e.beq_iff i j, e.beq_iff j i),
    Distinct-append j q d.1 (ground arith),
  )

  pub SameMembers-add :
      (j : K) (s q : List K) → SameMembers s q → SameMembers (add j s) (q ++ j ∷ [])
  SameMembers-add j s q h k = ground (arith, h k, member-add j k s, member-append k j q)

  -- Dropping the oldest member of the queue from the set keeps them the same.
  pub SameMembers-discard :
      (j : K) (s q : List K)
      → SameMembers s (j ∷ q)
      → member j q ≡ false
      → SameMembers (discard j s) q
  unfolding member
  SameMembers-discard j s q h d k = ground (arith, h k, member-discard j k s, e.beq_iff j k)
