-- ===== src/Research/WalkForward/Plans.antt =====
-- btc_short_horizon/research/walk_forward.py: what every plan that is built is like.
use polymarket_btc.Prelude.{
  Bool-cases, if_holds, pos_part, ◌+ℤ◌, ◌-ℤ◌, ◌≤ℤ◌, ltb_ℤ, int_laws, ℤ, is_empty, All, bind-ok,
  raise_if-ok, bind-err, string_eq, pair_eq, Dict, pos, ok, err, ℕ, ◌+◌, String, ◌≡◌, refl, ◌≢◌,
  inl, inr, not, List, [], ◌∷◌, map, arith,
}
use polymarket_btc.Research.WalkForward.{
  out_of_fuel, samples_empty, duplicate_ids, WalkForwardConfig, make_walk_forward_config, Entry,
  WalkForwardPlan, make_walk_forward_plan, grouped_indices, groups_from, ResearchSample,
}
use polymarket_btc.Research.WalkForward.Plan.{
  Development, folds_from, fuel_for, plan_from, min_ts, plan_of_split, plan_of_sorted, sort_entries,
  enumerate, is_unique, build_walk_forward_plan, earliest_test_start,
}
use polymarket_btc.Research.WalkForward.Folds.{IsCausal, folds_from-IsCausal, folds_from-ends}

plan_from-IsCausal :
    (c : WalkForwardConfig) (dev : Development) (earliest : ℤ) (sealed : List Entry)
    (plan : WalkForwardPlan)
    → dev.groups ≡ groups_from [] dev.entries
    → plan_from c dev earliest sealed ≡ ok plan
    → All (IsCausal c plan.sealed_holdout_start) plan.folds
      × (plan.sealed_holdout ≡ sealed)
      × (plan.sealed_holdout_start ≡ dev.sealed_holdout_start)
unfolding plan_from make_walk_forward_plan
plan_from-IsCausal c dev earliest sealed plan g h =
    let (folds, eq, next) =
      bind-ok (folds_from c dev (fuel_for earliest dev.sealed_holdout_start) earliest 0) _ h in
    let same : plan ≡ record {
      folds = folds;
      sealed_holdout = sealed;
      sealed_holdout_start = dev.sealed_holdout_start;
    } =
      ground arith in
    rw same (
      folds_from-IsCausal c dev (fuel_for earliest dev.sealed_holdout_start) earliest 0 folds g eq,
      refl,
      refl,
    )

-- No entry is before the minimum.
abbrev pub NotBefore : ℤ → List Entry → Type 0
NotBefore t es = All (λ (e : Entry). t ≤ℤ e.sample.feature_ts) es

NotBefore-along : {t u : ℤ} {es fs : List Entry} → fs ≡ es → u ≡ t → NotBefore t es → NotBefore u fs
NotBefore-along p q h = rw (p, q) h

min_ts-le : (t : ℤ) (es : List Entry) → (min_ts t es ≤ℤ t) × NotBefore (min_ts t es) es
unfolding min_ts
min_ts-le t [] = (omega int_laws, tt)
min_ts-le t (e ∷ es) =
    if_holds (λ (x : ℤ). (min_ts x es ≤ℤ t) × NotBefore (min_ts x es) (e ∷ es))
      (ltb_ℤ e.sample.feature_ts t)
      (λ less.
        let (le, rest) = min_ts-le e.sample.feature_ts es in
        let below : e.sample.feature_ts ≤ℤ t = ground arith in
        (omega (int_laws, le, below), (le, rest)))
      (λ keep.
        let (le, rest) = min_ts-le t es in
        let above : t ≤ℤ e.sample.feature_ts = ground arith in
        (le, (omega (int_laws, le, above), rest)))

grouped_indices-groups :
    (es : List Entry) (groups : Dict String (List Entry))
    → grouped_indices es ≡ ok groups
    → groups ≡ groups_from [] es
unfolding grouped_indices
grouped_indices-groups es groups h = ground arith

plan_of_split-IsCausal :
    (c : WalkForwardConfig) (first : ℤ) (es xs : List Entry) (plan : WalkForwardPlan)
    → plan_of_split c first es xs ≡ ok plan
    → All (IsCausal c plan.sealed_holdout_start) plan.folds
      × NotBefore plan.sealed_holdout_start plan.sealed_holdout
unfolding plan_of_split
plan_of_split-IsCausal c first [] xs plan h = absurd (ground arith)
plan_of_split-IsCausal c first (e ∷ es) [] plan h = absurd (ground arith)
plan_of_split-IsCausal c first (e ∷ es) (x ∷ xs) plan h =
    let (groups, eq, next) = bind-ok (grouped_indices (e ∷ es)) _ h in
    let (causal, sealed, start) =
      plan_from-IsCausal c
        (record {
          entries = e ∷ es;
          groups = groups;
          sealed_holdout_start = min_ts x.sample.feature_ts xs;
        })
        (earliest_test_start c first) (x ∷ xs) plan (grouped_indices-groups (e ∷ es) groups eq)
        next in
    (causal, NotBefore-along sealed start (min_ts-le x.sample.feature_ts xs))

plan_of_sorted-IsCausal :
    (c : WalkForwardConfig) (es : List Entry) (plan : WalkForwardPlan)
    → plan_of_sorted c es ≡ ok plan
    → All (IsCausal c plan.sealed_holdout_start) plan.folds
      × NotBefore plan.sealed_holdout_start plan.sealed_holdout
unfolding plan_of_sorted
plan_of_sorted-IsCausal c [] plan h = absurd (ground arith)
plan_of_sorted-IsCausal c (e ∷ es) plan h =
    let (groups, _, next) = bind-ok (grouped_indices (e ∷ es)) _ h in
    plan_of_split-IsCausal c e.sample.feature_ts _ _ plan next

-- In every plan that is built: the samples of each partition of a fold lie in its bounds, the labels
-- of training and calibration were available when their partition ended, at least one embargo lies
-- between two partitions, every test ends before the sealed holdout starts, and no sample of the
-- sealed holdout is before its start.
pub build_walk_forward_plan-IsCausal :
    (samples : List ResearchSample) (c : WalkForwardConfig) (plan : WalkForwardPlan)
    → build_walk_forward_plan samples c ≡ ok plan
    → All (IsCausal c plan.sealed_holdout_start) plan.folds
      × NotBefore plan.sealed_holdout_start plan.sealed_holdout
unfolding build_walk_forward_plan
build_walk_forward_plan-IsCausal samples c plan h =
    let (_, next) = raise_if-ok (is_empty samples) samples_empty _ h in
    let (_, last) =
      raise_if-ok (not (is_unique (map (λ (s : ResearchSample). s.sample_id) samples)))
        duplicate_ids _ next in
    plan_of_sorted-IsCausal c (sort_entries (enumerate 0 samples)) plan last

config_steps :
    (c : WalkForwardConfig)
    → make_walk_forward_config c ≡ ok c
    → (pos 1 ≤ℤ c.step_duration) × (pos 1 ≤ℤ c.test_duration)
unfolding make_walk_forward_config
config_steps c h = (ground arith, ground arith)

le_pos_part : (z : ℤ) → z ≤ℤ pos (pos_part z + 1)
le_pos_part z = ground arith

distance : (t sealed : ℤ) (n : ℕ) → sealed -ℤ t ≤ℤ pos n → sealed ≤ℤ t +ℤ pos n
distance t sealed n h = omega int_laws

fuel_covers : (t sealed : ℤ) → sealed ≤ℤ t +ℤ pos (fuel_for t sealed)
fuel_covers t sealed = distance t sealed (fuel_for t sealed) (le_pos_part (sealed -ℤ t))

grouped_indices-out_of_fuel : (es : List Entry) → grouped_indices es ≢ err out_of_fuel
unfolding grouped_indices
grouped_indices-out_of_fuel es h = ground arith

make_walk_forward_plan-out_of_fuel :
    (p : WalkForwardPlan) → make_walk_forward_plan p ≢ err out_of_fuel
unfolding make_walk_forward_plan
make_walk_forward_plan-out_of_fuel p h = ground arith

module _ (c : WalkForwardConfig) (v : make_walk_forward_config c ≡ ok c) where
  plan_from-out_of_fuel :
      (dev : Development) (earliest : ℤ) (sealed : List Entry)
      → plan_from c dev earliest sealed ≢ err out_of_fuel
  unfolding plan_from
  plan_from-out_of_fuel dev earliest sealed h =
      let (step, test) = config_steps c v in
      let fuel = fuel_for earliest dev.sealed_holdout_start in
      elim (bind-err (folds_from c dev fuel earliest 0) _ h) [
        | inl spent ↦
            folds_from-ends c dev fuel earliest 0 step test
              (fuel_covers earliest dev.sealed_holdout_start) spent
        | inr (folds, _, next) ↦ make_walk_forward_plan-out_of_fuel _ next
      ]

  plan_of_split-out_of_fuel :
      (first : ℤ) (es xs : List Entry) → plan_of_split c first es xs ≢ err out_of_fuel
  unfolding plan_of_split
  plan_of_split-out_of_fuel first [] xs h = ground arith
  plan_of_split-out_of_fuel first (e ∷ es) [] h = ground arith
  plan_of_split-out_of_fuel first (e ∷ es) (x ∷ xs) h =
      elim (bind-err (grouped_indices (e ∷ es)) _ h) [
        | inl spent ↦ grouped_indices-out_of_fuel (e ∷ es) spent
        | inr (groups, _, next) ↦ plan_from-out_of_fuel _ _ _ next
      ]

  plan_of_sorted-out_of_fuel : (es : List Entry) → plan_of_sorted c es ≢ err out_of_fuel
  unfolding plan_of_sorted
  plan_of_sorted-out_of_fuel [] h = ground arith
  plan_of_sorted-out_of_fuel (e ∷ es) h = elim (bind-err (grouped_indices (e ∷ es)) _ h) [
    | inl spent ↦ grouped_indices-out_of_fuel (e ∷ es) spent
    | inr (groups, _, next) ↦ plan_of_split-out_of_fuel _ _ _ next
  ]

  -- For a configuration that passed its checks, the loop over the folds ends before its fuel is spent:
  -- a plan is built, or an exception of the program is raised.
  pub build_walk_forward_plan-out_of_fuel :
      (samples : List ResearchSample) → build_walk_forward_plan samples c ≢ err out_of_fuel
  unfolding build_walk_forward_plan
  build_walk_forward_plan-out_of_fuel samples h =
      let ids = is_unique (map (λ (s : ResearchSample). s.sample_id) samples) in
      elim (Bool-cases (is_empty samples)) [
        | inl none_given ↦ ground arith
        | inr given ↦ elim (Bool-cases (not ids)) [
          | inl twice ↦ ground arith
          | inr unique ↦
              plan_of_sorted-out_of_fuel (sort_entries (enumerate 0 samples))
                (rw (given, unique) at h)
        ]
      ]
