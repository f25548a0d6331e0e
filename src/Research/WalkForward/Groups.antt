-- ===== src/Research/WalkForward/Groups.antt =====
-- btc_short_horizon/research/walk_forward.py: a partition takes whole groups.
use polymarket_btc.Prelude.{
  if◌then◌else◌, Bool-cases, if_holds, ℤ, all, any, All, string_eq, pair_eq, Dict, has_key, member,
  String, ◌≡◌, refl, inl, inr, Bool, true, false, not, ◌&&◌, ◌||◌, Option, List, [], ◌∷◌, ◌++◌,
  arith, str_eq, eq_iff,
}
use mathlib.Core.List.{append_assoc}
use polymarket_btc.Research.WalkForward.{
  Entry, group_of, append_to, groups_from, accepted_groups, filter, belongs, partition_indices,
}

-- Every key stands once.
AllOnce : Dict String (List Entry) → Type 0
AllOnce [] = Unit
AllOnce ((k, es) ∷ d) = (has_key k d ≡ false) × AllOnce d

has_key-append_to :
    (k : String) (e : Entry) (d : Dict String (List Entry))
    → has_key k (append_to e d) ≡ (has_key k d || str_eq k (group_of e))
unfolding has_key append_to
has_key-append_to k e [] = ground (arith, eq_iff k (group_of e), eq_iff (group_of e) k)
has_key-append_to k e ((j, es) ∷ d) = ground (
  arith,
  eq_iff k (group_of e),
  eq_iff (group_of e) k,
  eq_iff j (group_of e),
  eq_iff j k,
  eq_iff k j,
  has_key-append_to k e d,
)

append_to-AllOnce : (e : Entry) (d : Dict String (List Entry)) → AllOnce d → AllOnce (append_to e d)
unfolding AllOnce append_to has_key
append_to-AllOnce e [] h = (refl, tt)
append_to-AllOnce e ((j, es) ∷ d) h =
    if_holds AllOnce (str_eq j (group_of e)) (λ _. h)
      (λ other. (ground (arith, has_key-append_to j e d), append_to-AllOnce e d h.1))

all-append :
    (p : Entry → Bool) (es : List Entry) (e : Entry) → all p (es ++ e ∷ []) ≡ (all p es && p e)
all-append p [] e = ground arith
all-append p (x ∷ es) e = ground (arith, all-append p es e)

module _ (p : Entry → Bool) (k : String) where
  -- Every entry of the group passes, and the list has one.
  abbrev pub passes : List Entry → Bool
  passes es = all (λ (e : Entry). not (str_eq k (group_of e)) || p e) es

  abbrev pub occurs : List Entry → Bool
  occurs es = any (λ (e : Entry). str_eq k (group_of e)) es

  accepted : Dict String (List Entry) → Bool
  accepted d = member k (accepted_groups p d)

  accepted_known : (d : Dict String (List Entry)) → has_key k d ≡ false → accepted d ≡ false
  unfolding accepted accepted_groups member has_key
  accepted_known [] h = refl
  accepted_known ((j, es) ∷ d) h =
      let rest = accepted_known d (ground arith) in ground (arith, rest)

  accepted_here :
      (e : Entry) (es : List Entry) (d : Dict String (List Entry)) (j : String)
      → j ≡ group_of e
      → AllOnce ((j, es) ∷ d)
      → accepted ((j, es ++ e ∷ []) ∷ d) ≡ (
          if str_eq k (group_of e)
          then (if has_key k ((j, es) ∷ d) then accepted ((j, es) ∷ d) else true) && p e
          else accepted ((j, es) ∷ d))
  unfolding accepted accepted_groups has_key member AllOnce
  accepted_here e es d j same h =
      ground (arith, all-append p es e, accepted_known d, eq_iff k (group_of e), eq_iff j k, h.0)

  accepted_cons :
      (j : String) (es : List Entry) (d : Dict String (List Entry))
      → accepted ((j, es) ∷ d) ≡ ((all p es && str_eq j k) || accepted d)
  unfolding accepted accepted_groups member
  accepted_cons j es d = ground arith

  accepted_there :
      (e : Entry) (es : List Entry) (d : Dict String (List Entry)) (j : String)
      → str_eq j (group_of e) ≡ false
      → accepted (append_to e d) ≡ (
          if str_eq k (group_of e)
          then (if has_key k d then accepted d else true) && p e
          else accepted d)
      → accepted ((j, es) ∷ append_to e d) ≡ (
          if str_eq k (group_of e)
          then (if has_key k ((j, es) ∷ d) then accepted ((j, es) ∷ d) else true) && p e
          else accepted ((j, es) ∷ d))
  unfolding has_key
  accepted_there e es d j other h = ground (
    arith,
    accepted_cons j es d,
    accepted_cons j es (append_to e d),
    eq_iff k (group_of e),
    eq_iff j k,
    eq_iff j (group_of e),
  )

  accepted-append_to :
      (e : Entry) (d : Dict String (List Entry))
      → AllOnce d
      → accepted (append_to e d) ≡ (
          if str_eq k (group_of e)
          then (if has_key k d then accepted d else true) && p e
          else accepted d)
  unfolding accepted accepted_groups append_to has_key member AllOnce
  accepted-append_to e [] h = ground (arith, eq_iff k (group_of e), eq_iff (group_of e) k)
  accepted-append_to e ((j, es) ∷ d) h = elim (Bool-cases (str_eq j (group_of e))) [
    | inl found ↦
        let same : j ≡ group_of e = (eq_iff j (group_of e)).0 found in
        rw found (accepted_here e es d j same h)
    | inr other ↦ rw other (accepted_there e es d j other (accepted-append_to e d h.1))
  ]

  accepted-groups_from :
      (d : Dict String (List Entry)) (es : List Entry)
      → AllOnce d
      → accepted (groups_from d es) ≡ ((if has_key k d then accepted d else occurs es) && passes es)
  unfolding groups_from
  accepted-groups_from d [] h = ground (arith, accepted_known d)
  accepted-groups_from d (e ∷ es) h =
      let step = accepted-append_to e d h in
      let next = accepted-groups_from (append_to e d) es (append_to-AllOnce e d h) in
      ground (arith, accepted_known d, has_key-append_to k e d, step, next)

-- The entries whose whole group passes.
abbrev pub whole_groups : (Entry → Bool) → List Entry → List Entry
whole_groups p es = filter (λ e. passes p (group_of e) es) es

occurs_append :
    (k : String) (p : Entry → Bool) (e : Entry) (xs es : List Entry)
    → str_eq k (group_of e) ≡ true
    → occurs p k (xs ++ e ∷ es) ≡ true
occurs_append k p e [] es h = ground arith
occurs_append k p e (x ∷ xs) es h = ground (arith, occurs_append k p e xs es h)

filter_same :
    (p : Entry → Bool) (cs es : List Entry)
    → All (λ (e : Entry). occurs p (group_of e) cs ≡ true) es
    → filter (λ e. member (group_of e) (accepted_groups p (groups_from [] cs))) es
      ≡ filter (λ e. passes p (group_of e) cs) es
unfolding has_key accepted AllOnce
filter_same p cs [] h = refl
filter_same p cs (e ∷ es) h =
    let test = accepted-groups_from p (group_of e) [] cs tt in
    let same : member (group_of e) (accepted_groups p (groups_from [] cs))
        ≡ passes p (group_of e) cs =
      ground (arith, h.0, test) in
    rw (same, filter_same p cs es h.1) refl

own_occurrence :
    (p : Entry → Bool) (xs es : List Entry)
    → All (λ (e : Entry). occurs p (group_of e) (xs ++ es) ≡ true) es
own_occurrence p xs [] = tt
own_occurrence p xs (e ∷ es) = (
  occurs_append (group_of e) p e xs es ((eq_iff (group_of e) (group_of e)).1 refl),
  rw (append_assoc xs (e ∷ []) es) at (own_occurrence p (xs ++ e ∷ []) es),
)

-- `_partition_indices` on the groups of its candidates takes exactly the candidates whose whole group
-- is within the bounds and labelled in time: the dictionary of groups, and the set of accepted ids,
-- never change what is taken.
pub partition_indices-whole_groups :
    (candidates : List Entry) (start end : ℤ) (label_deadline : Option ℤ)
    → partition_indices candidates (groups_from [] candidates) start end label_deadline
      ≡ whole_groups (belongs start end label_deadline) candidates
unfolding partition_indices
partition_indices-whole_groups candidates start end label_deadline =
    filter_same (belongs start end label_deadline) candidates candidates
      (own_occurrence (belongs start end label_deadline) [] candidates)

passes_append :
    (k : String) (p : Entry → Bool) (e : Entry) (xs es : List Entry)
    → str_eq k (group_of e) ≡ true
    → passes p k (xs ++ e ∷ es) ≡ true
    → p e ≡ true
passes_append k p e [] es h q = ground arith
passes_append k p e (x ∷ xs) es h q = passes_append k p e xs es h (ground arith)

whole-All :
    (p : Entry → Bool) (xs es : List Entry)
    → All (λ (e : Entry). p e ≡ true) (filter (λ e. passes p (group_of e) (xs ++ es)) es)
whole-All p xs [] = tt
whole-All p xs (e ∷ es) =
    let rest = rw (append_assoc xs (e ∷ []) es) at (whole-All p (xs ++ e ∷ []) es) in
    if_holds (λ (r : List Entry). All (λ (x : Entry). p x ≡ true) r)
      (passes p (group_of e) (xs ++ e ∷ es))
      (λ whole. (
        passes_append (group_of e) p e xs es ((eq_iff (group_of e) (group_of e)).1 refl) whole,
        rest,
      ))
      (λ _. rest)

-- What a partition takes passes its test.
pub partition_indices-All :
    (candidates : List Entry) (start end : ℤ) (label_deadline : Option ℤ)
    → All
        (λ (e : Entry). belongs start end label_deadline e ≡ true)
        (partition_indices candidates (groups_from [] candidates) start end label_deadline)
partition_indices-All candidates start end label_deadline =
    rw (partition_indices-whole_groups candidates start end label_deadline)
      (whole-All (belongs start end label_deadline) [] candidates)
