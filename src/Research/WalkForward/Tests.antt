-- ===== src/Research/WalkForward/Tests.antt =====
-- btc_short_horizon/research/walk_forward.py at concrete inputs: days 0, 2, 4 and 9 with durations of
-- a day or so.
use polymarket_btc.Prelude.{
  ◌+ℤ◌, ◌-ℤ◌, All, string_eq, pair_eq, member, pos, ok, err, ℕ, ◌+◌, String, ◌≡◌, refl, ◌≢◌, some,
  List, [], ◌∷◌,
}
use polymarket_btc.Research.WalkForward.{
  WalkForwardConfig, make_walk_forward_config, Entry, ResearchSample, make_fold, WalkForwardPlan,
  make_walk_forward_plan, append_to, groups_from, has_one_label, grouped_indices, accepted_groups,
  belongs, partition_indices, out_of_fuel,
}
use polymarket_btc.Research.WalkForward.Plan.{
  enumerate, is_unique, place_sorted, sort_entries, last_ts, min_ts, sealed_groups, fold_at,
  with_fold, folds_from, plan_from, earliest_test_start, plan_of_split, plan_of_sorted,
  build_walk_forward_plan,
}
use polymarket_btc.Research.WalkForward.Groups.{whole_groups, partition_indices-whole_groups}
use polymarket_btc.Research.WalkForward.Folds.{IsCausal}
use polymarket_btc.Research.WalkForward.Plans.{
  NotBefore, build_walk_forward_plan-IsCausal, build_walk_forward_plan-out_of_fuel,
}

abbrev config : WalkForwardConfig
config = record {
  train_duration = pos 10;
  calibration_duration = pos 10;
  test_duration = pos 10;
  step_duration = pos 5;
  embargo_duration = pos 2;
  sealed_holdout_duration = pos 5;
}

config_made : make_walk_forward_config config ≡ ok config
unfolding make_walk_forward_config
config_made = refl

abbrev sample_at : String → ℕ → ResearchSample
sample_at id n = record {
  sample_id = id;
  feature_ts = pos n;
  label_available_ts = pos (n + 1);
  label = pos 1;
  group_id = id;
}

abbrev samples : List ResearchSample
samples = sample_at "late" 50 ∷ sample_at "a" 0 ∷ sample_at "b" 14 ∷ sample_at "c" 26 ∷ []

abbrev entry : String → ℕ → ℕ → Entry
entry id number n = record { index = number; sample = sample_at id n }

abbrev plan : WalkForwardPlan
plan = record {
  folds =
      record {
        number = 0;
        train = entry "a" 1 0 ∷ [];
        calibration = entry "b" 2 14 ∷ [];
        test = entry "c" 3 26 ∷ [];
        train_start = pos 0;
        train_end = pos 10;
        calibration_start = pos 12;
        calibration_end = pos 22;
        test_start = pos 24;
        test_end = pos 34;
      }
      ∷ [];
  sealed_holdout = entry "late" 0 50 ∷ [];
  sealed_holdout_start = pos 50;
}

plan_built : build_walk_forward_plan samples config ≡ ok plan
unfolding build_walk_forward_plan plan_of_sorted plan_of_split plan_from earliest_test_start
    folds_from with_fold fold_at sealed_groups min_ts last_ts sort_entries place_sorted is_unique
    enumerate make_fold make_walk_forward_plan append_to groups_from has_one_label grouped_indices
    accepted_groups belongs partition_indices member ◌+ℤ◌ ◌-ℤ◌
plan_built = refl

build_walk_forward_plan-IsCausal_example :
    All (IsCausal config plan.sealed_holdout_start) plan.folds
    × NotBefore plan.sealed_holdout_start plan.sealed_holdout
build_walk_forward_plan-IsCausal_example =
    build_walk_forward_plan-IsCausal samples config plan plan_built

build_walk_forward_plan-out_of_fuel_example :
    build_walk_forward_plan samples config ≢ err out_of_fuel
build_walk_forward_plan-out_of_fuel_example =
    build_walk_forward_plan-out_of_fuel config config_made samples

partition_indices-whole_groups_example :
    partition_indices plan.sealed_holdout
      (groups_from [] plan.sealed_holdout)
      (pos 0)
      (pos 60)
      (some (pos 60))
    ≡ whole_groups (belongs (pos 0) (pos 60) (some (pos 60))) plan.sealed_holdout
partition_indices-whole_groups_example =
    partition_indices-whole_groups plan.sealed_holdout (pos 0) (pos 60) (some (pos 60))
