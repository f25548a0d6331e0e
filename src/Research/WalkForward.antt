-- ===== src/Research/WalkForward.antt =====
-- btc_short_horizon/research/walk_forward.py: chronological folds with an embargo, and a sealed
-- holdout. A `datetime` is aware and in UTC, as its number of microseconds; a `timedelta` too.
pub mod Plan
pub mod Groups
pub mod Folds
pub mod Plans
mod Tests
use polymarket_btc.Prelude.{
  ◌==◌, if◌then◌else◌, ltb_ℤ, leb_ℤ, ℤ, is_empty, all, any, ◌>>=◌, ◌>>◌, raise_if, Result,
  string_eq, pair_eq, str_is_empty, Dict, member, pos, ok, ℕ, String, Bool, false, not, ◌&&◌, ◌||◌,
  Option, none, some, List, [], ◌∷◌, ◌++◌, str_eq,
}

pub data WalkForwardError : Type 0 where
  bad_duration id_required label_not_after bad_label group_not_trimmed : WalkForwardError
  samples_empty duplicate_ids conflicting_labels no_separate_holdout : WalkForwardError
  partitions_overlap bounds_not_ordered partition_empty no_folds holdout_empty holdout_overlap :
      WalkForwardError
  -- No exception of the program: the loop had not ended when its fuel was spent.
  out_of_fuel : WalkForwardError

pub record ResearchSample : Type 0 where
  pub sample_id : String
  pub feature_ts : ℤ
  pub label_available_ts : ℤ
  pub label : ℤ
  pub group_id : String

abbrev pub same_int : ℤ → ℤ → Bool
same_int a b = leb_ℤ a b && leb_ℤ b a

-- `ResearchSample.__post_init__`; `is_trimmed` tells whether `strip` leaves a text as it is.
unfoldable pub make_sample :
    (String → Bool) → ResearchSample → Result WalkForwardError ResearchSample
make_sample is_trimmed s = do
  raise_if (str_is_empty s.sample_id) id_required
  raise_if (leb_ℤ s.label_available_ts s.feature_ts) label_not_after
  raise_if (not (same_int s.label (pos 0) || same_int s.label (pos 1))) bad_label
  raise_if (not (is_trimmed (if str_is_empty s.group_id then s.sample_id else s.group_id)))
      group_not_trimmed
  ok (record s { group_id = if str_is_empty s.group_id then s.sample_id else s.group_id })

pub record WalkForwardConfig : Type 0 where
  pub train_duration : ℤ
  pub calibration_duration : ℤ
  pub test_duration : ℤ
  pub step_duration : ℤ
  pub embargo_duration : ℤ
  pub sealed_holdout_duration : ℤ

-- `WalkForwardConfig.__post_init__`, with `_require_positive_duration`.
unfoldable pub make_walk_forward_config :
    WalkForwardConfig → Result WalkForwardError WalkForwardConfig
make_walk_forward_config c = do
  raise_if
      (any (λ d. leb_ℤ d (pos 0))
        (c.train_duration ∷ c.calibration_duration ∷ c.test_duration ∷ c.step_duration
          ∷ c.embargo_duration ∷ c.sealed_holdout_duration ∷ []))
      bad_duration
  ok c

-- A sample with its index.
pub record Entry : Type 0 where
  pub index : ℕ
  pub sample : ResearchSample

abbrev pub group_of : Entry → String
group_of e = e.sample.group_id

pub record WalkForwardFold : Type 0 where
  pub number : ℕ
  pub train : List Entry
  pub calibration : List Entry
  pub test : List Entry
  pub train_start : ℤ
  pub train_end : ℤ
  pub calibration_start : ℤ
  pub calibration_end : ℤ
  pub test_start : ℤ
  pub test_end : ℤ

-- Two partitions have an index in common.
abbrev pub overlap : List Entry → List Entry → Bool
overlap as' bs = any (λ (a : Entry). any (λ (b : Entry). a.index == b.index) bs) as'

-- `WalkForwardFold.__post_init__`
unfoldable pub make_fold : WalkForwardFold → Result WalkForwardError WalkForwardFold
make_fold f = do
  raise_if (overlap f.train f.calibration || overlap f.train f.test || overlap f.calibration f.test)
      partitions_overlap
  raise_if
      (not (
        ltb_ℤ f.train_start f.train_end
        && leb_ℤ f.train_end f.calibration_start
        && ltb_ℤ f.calibration_start f.calibration_end
        && leb_ℤ f.calibration_end f.test_start
        && ltb_ℤ f.test_start f.test_end))
      bounds_not_ordered
  raise_if (is_empty f.train || is_empty f.calibration || is_empty f.test) partition_empty
  ok f

pub record WalkForwardPlan : Type 0 where
  pub folds : List WalkForwardFold
  pub sealed_holdout : List Entry
  pub sealed_holdout_start : ℤ

-- `WalkForwardPlan.__post_init__`
unfoldable pub make_walk_forward_plan : WalkForwardPlan → Result WalkForwardError WalkForwardPlan
make_walk_forward_plan p = do
  raise_if (is_empty p.folds) no_folds
  raise_if (is_empty p.sealed_holdout) holdout_empty
  raise_if
      (any (λ (f : WalkForwardFold). overlap (f.train ++ f.calibration ++ f.test) p.sealed_holdout)
        p.folds)
      holdout_overlap
  ok p

-- `groups.setdefault(group_id, []).append(index)`
unfoldable pub append_to : Entry → Dict String (List Entry) → Dict String (List Entry)
append_to e [] = (group_of e, e ∷ []) ∷ []
append_to e ((k, es) ∷ d) =
    if str_eq k (group_of e) then (k, es ++ e ∷ []) ∷ d else (k, es) ∷ append_to e d

unfoldable pub groups_from : Dict String (List Entry) → List Entry → Dict String (List Entry)
groups_from d [] = d
groups_from d (e ∷ es) = groups_from (append_to e d) es

-- A group has one label.
unfoldable pub has_one_label : List Entry → Bool
has_one_label [] = false
has_one_label (e ∷ es) = all (λ (x : Entry). same_int x.sample.label e.sample.label) es

-- `_grouped_indices`
unfoldable pub grouped_indices : List Entry → Result WalkForwardError (Dict String (List Entry))
grouped_indices candidates =
    let groups = groups_from [] candidates in
    raise_if (not (all (λ g. has_one_label g.1) groups)) conflicting_labels >> ok groups

-- The ids of the groups all of whose entries pass a test.
unfoldable pub accepted_groups : (Entry → Bool) → Dict String (List Entry) → List String
accepted_groups p [] = []
accepted_groups p ((k, es) ∷ d) = if all p es then k ∷ accepted_groups p d else accepted_groups p d

abbrev pub filter : (Entry → Bool) → List Entry → List Entry
filter p [] = []
filter p (e ∷ es) = if p e then e ∷ filter p es else filter p es

-- The time test of a partition: within its bounds, and labelled in time.
unfoldable pub belongs : ℤ → ℤ → Option ℤ → Entry → Bool
belongs start end none e = leb_ℤ start e.sample.feature_ts && ltb_ℤ e.sample.feature_ts end
belongs start end (some deadline) e =
    leb_ℤ start e.sample.feature_ts
    && ltb_ℤ e.sample.feature_ts end
    && leb_ℤ e.sample.label_available_ts deadline

-- `_partition_indices`
unfoldable pub partition_indices :
    List Entry → Dict String (List Entry) → ℤ → ℤ → Option ℤ → List Entry
partition_indices candidates groups start end label_deadline =
    filter (λ e. member (group_of e) (accepted_groups (belongs start end label_deadline) groups))
      candidates

-- `select_complete_group_indices`
unfoldable pub select_complete_group_indices :
    List Entry → ℤ → ℤ → Option ℤ → Result WalkForwardError (List Entry)
select_complete_group_indices candidates start end label_deadline = do
  groups ← grouped_indices candidates
  ok (partition_indices candidates groups start end label_deadline)
