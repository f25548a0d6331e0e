-- ===== src/Research/WalkForward/Plan.antt =====
-- btc_short_horizon/research/walk_forward.py: `build_walk_forward_plan`. The loop over the folds runs
-- on fuel.
use polymarket_btc.Prelude.{
  if◌then◌else◌, pos_part, ◌+ℤ◌, ◌-ℤ◌, ltb_ℤ, leb_ℤ, ℤ, is_empty, any, ◌>>=◌, ◌>>◌, raise_if,
  Result, string_eq, pair_eq, Dict, member, ok, err, ℕ, zero, suc, ◌+◌, String, Bool, true, not,
  ◌&&◌, none, some, List, [], ◌∷◌, map,
}
use polymarket_btc.Research.WalkForward.{
  WalkForwardError, samples_empty, duplicate_ids, no_separate_holdout, out_of_fuel, ResearchSample,
  WalkForwardConfig, Entry, group_of, WalkForwardFold, make_fold, WalkForwardPlan,
  make_walk_forward_plan, grouped_indices, filter, partition_indices,
}

unfoldable pub enumerate : ℕ → List ResearchSample → List Entry
enumerate n [] = []
enumerate n (s ∷ ss) = record { index = n; sample = s } ∷ enumerate (suc n) ss

-- `len(set(xs)) == len(xs)`
unfoldable pub is_unique : List String → Bool
is_unique [] = true
is_unique (x ∷ xs) = not (member x xs) && is_unique xs

-- `sorted(..., key=feature_ts)`, which keeps the order of entries of the same time.
unfoldable pub place_sorted : Entry → List Entry → List Entry
place_sorted e [] = e ∷ []
place_sorted e (x ∷ xs) =
    if leb_ℤ e.sample.feature_ts x.sample.feature_ts then e ∷ x ∷ xs else x ∷ place_sorted e xs

unfoldable pub sort_entries : List Entry → List Entry
sort_entries [] = []
sort_entries (e ∷ es) = place_sorted e (sort_entries es)

-- The first and the last feature time of sorted entries, from that of the first.
unfoldable pub last_ts : ℤ → List Entry → ℤ
last_ts t [] = t
last_ts t (e ∷ es) = last_ts e.sample.feature_ts es

unfoldable pub min_ts : ℤ → List Entry → ℤ
min_ts t [] = t
min_ts t (e ∷ es) = min_ts (if ltb_ℤ e.sample.feature_ts t then e.sample.feature_ts else t) es

-- The groups with an entry in the holdout.
unfoldable pub sealed_groups : ℤ → Dict String (List Entry) → List String
sealed_groups start [] = []
sealed_groups start ((k, es) ∷ d) =
    if any (λ (e : Entry). leb_ℤ start e.sample.feature_ts) es
    then k ∷ sealed_groups start d
    else sealed_groups start d

-- The entries that the folds are made of, with their groups.
pub record Development : Type 0 where
  pub entries : List Entry
  pub groups : Dict String (List Entry)
  pub sealed_holdout_start : ℤ

module _ (c : WalkForwardConfig) (dev : Development) where
  -- The fold whose test begins at a time, before its checks.
  unfoldable pub fold_at : ℕ → ℤ → WalkForwardFold
  fold_at number test_start =
      let calibration_end = test_start -ℤ c.embargo_duration in
      let calibration_start = calibration_end -ℤ c.calibration_duration in
      let train_end = calibration_start -ℤ c.embargo_duration in
      let train_start = train_end -ℤ c.train_duration in
      let test_end = test_start +ℤ c.test_duration in
      record {
        number = number;
        train = partition_indices dev.entries dev.groups train_start train_end (some train_end);
        calibration =
            partition_indices dev.entries dev.groups calibration_start calibration_end
              (some calibration_end);
        test = partition_indices dev.entries dev.groups test_start test_end none;
        train_start = train_start;
        train_end = train_end;
        calibration_start = calibration_start;
        calibration_end = calibration_end;
        test_start = test_start;
        test_end = test_end;
      }

  abbrev pub is_kept : WalkForwardFold → Bool
  is_kept f = not (is_empty f.train) && not (is_empty f.calibration) && not (is_empty f.test)

  -- The fold at a time comes before those of the later times, if it is kept.
  unfoldable pub with_fold :
      WalkForwardFold
      → (ℕ → Result WalkForwardError (List WalkForwardFold))
      → ℕ
      → Result WalkForwardError (List WalkForwardFold)
  with_fold f later number =
      if is_kept f
      then (make_fold f >>= λ made. later (suc number) >>= λ fs. ok (made ∷ fs))
      else later number

  -- `while test_start + test_duration <= sealed_holdout_start`
  unfoldable pub folds_from : ℕ → ℤ → ℕ → Result WalkForwardError (List WalkForwardFold)
  folds_from zero test_start number =
      if leb_ℤ (test_start +ℤ c.test_duration) dev.sealed_holdout_start
      then err out_of_fuel
      else ok []
  folds_from (suc fuel) test_start number =
      if leb_ℤ (test_start +ℤ c.test_duration) dev.sealed_holdout_start
      then with_fold (fold_at number test_start) (folds_from fuel (test_start +ℤ c.step_duration))
          number
      else ok []

-- The microseconds between two times: a step takes at least one.
abbrev pub fuel_for : ℤ → ℤ → ℕ
fuel_for test_start sealed = pos_part (sealed -ℤ test_start) + 1

unfoldable pub plan_from :
    WalkForwardConfig → Development → ℤ → List Entry → Result WalkForwardError WalkForwardPlan
plan_from c dev earliest sealed = do
  folds ← folds_from c dev (fuel_for earliest dev.sealed_holdout_start) earliest 0
  make_walk_forward_plan (record {
    folds = folds;
    sealed_holdout = sealed;
    sealed_holdout_start = dev.sealed_holdout_start;
  })

-- The first test begins after one training, one calibration and two embargoes.
unfoldable pub earliest_test_start : WalkForwardConfig → ℤ → ℤ
earliest_test_start c first =
    first
    +ℤ c.train_duration
    +ℤ c.calibration_duration
    +ℤ (c.embargo_duration +ℤ c.embargo_duration)

-- The plan from the development entries and the sealed ones; neither may be missing.
unfoldable pub plan_of_split :
    WalkForwardConfig → ℤ → List Entry → List Entry → Result WalkForwardError WalkForwardPlan
plan_of_split c first [] sealed = err no_separate_holdout
plan_of_split c first (e ∷ es) [] = err no_separate_holdout
plan_of_split c first (e ∷ es) (x ∷ xs) = do
  groups ← grouped_indices (e ∷ es)
  plan_from c
      (record {
        entries = e ∷ es;
        groups = groups;
        sealed_holdout_start = min_ts x.sample.feature_ts xs;
      })
      (earliest_test_start c first) (x ∷ xs)

-- The entries in the order of their times.
unfoldable pub plan_of_sorted :
    WalkForwardConfig → List Entry → Result WalkForwardError WalkForwardPlan
plan_of_sorted c [] = err samples_empty
plan_of_sorted c (e ∷ es) = do
  all_groups ← grouped_indices (e ∷ es)
  let sealed_ids =
      sealed_groups (last_ts e.sample.feature_ts es -ℤ c.sealed_holdout_duration) all_groups
  plan_of_split c e.sample.feature_ts (filter (λ x. not (member (group_of x) sealed_ids)) (e ∷ es))
      (filter (λ x. member (group_of x) sealed_ids) (e ∷ es))

unfoldable pub build_walk_forward_plan :
    List ResearchSample → WalkForwardConfig → Result WalkForwardError WalkForwardPlan
build_walk_forward_plan samples c = do
  raise_if (is_empty samples) samples_empty
  raise_if (not (is_unique (map (λ (s : ResearchSample). s.sample_id) samples))) duplicate_ids
  plan_of_sorted c (sort_entries (enumerate 0 samples))
