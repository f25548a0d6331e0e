-- ===== src/Research/Gates.antt =====
-- btc_short_horizon/research/gates.py: the registered thresholds, and which evidence passes them.
pub mod Thresholds
pub mod Maker
mod Tests
use polymarket_btc.Prelude.{
  if◌then◌else◌, ltb_ℤ, ℤ, is_empty, ◌>>=◌, ◌>>◌, raise_if, Result, is_finite, units, zero_f, ◌<f◌,
  ◌≤f◌, not_nonnegative, Float, pos, ok, Bool, true, false, not, ◌&&◌, List, [], ◌∷◌,
}

pub data GateError : Type 0 where
  negative_number no_target_bins not_finite ratio_out_of_range : GateError

-- The conditions that a decision names as failed.
pub data FailedCondition : Type 0 where
  insufficient_sealed_holdout_markets log_loss_improvement_below_threshold : FailedCondition
  log_loss_ci_lower_not_positive brier_improvement_below_threshold : FailedCondition
  brier_ci_lower_not_positive calibration_slope_out_of_range : FailedCondition
  target_bin_insufficient_samples target_bin_calibration_error_exceeds_limit : FailedCondition
  paired_net_edge_ci_lower_must_be_positive insufficient_total_fills : FailedCondition
  insufficient_up_fills insufficient_down_fills net_ev_per_share_below_threshold : FailedCondition
  net_ev_ci_lower_not_positive top_one_percent_removal_not_positive : FailedCondition
  insufficient_positive_test_weeks single_month_pnl_concentration : FailedCondition
  capacity_ci_lower_not_positive rebate_free_requirement_failed : FailedCondition
  pessimistic_queue_requirement_failed p99_latency_requirement_failed : FailedCondition
  trade_ordering_not_robust : FailedCondition

pub record GateDecision : Type 0 where
  pub is_accepted : Bool
  pub failed_conditions : List FailedCondition

-- `_decision`
unfoldable pub decision : List FailedCondition → GateDecision
decision failures = record { is_accepted = is_empty failures; failed_conditions = failures }

-- `if condition: failures.append(name)`, before the failures that are found after it.
abbrev pub append_if : Bool → FailedCondition → List FailedCondition → List FailedCondition
append_if true f fs = f ∷ fs
append_if false f fs = fs

-- `_require_finite` and `_require_finite_nonnegative`
abbrev pub require_finite : Float → Result GateError Unit
require_finite x = raise_if (not (is_finite x)) not_finite

abbrev pub require_finite_nonnegative : Float → Result GateError Unit
require_finite_nonnegative x = raise_if (not_nonnegative x) negative_number

pub record CalibrationBinEvidence : Type 0 where
  pub sample_count : ℤ
  pub calibration_error : Float

unfoldable pub make_bin : CalibrationBinEvidence → Result GateError CalibrationBinEvidence
make_bin b = do
  raise_if (ltb_ℤ b.sample_count (pos 0)) negative_number
  require_finite_nonnegative b.calibration_error
  ok b

pub record DirectionGateEvidence : Type 0 where
  pub sealed_holdout_markets : ℤ
  pub log_loss_improvement : Float
  pub log_loss_ci_lower : Float
  pub brier_improvement : Float
  pub brier_ci_lower : Float
  pub calibration_slope : Float
  pub target_bins : List CalibrationBinEvidence

unfoldable pub make_direction_evidence :
    DirectionGateEvidence → Result GateError DirectionGateEvidence
make_direction_evidence e = do
  raise_if (ltb_ℤ e.sealed_holdout_markets (pos 0)) negative_number
  raise_if (is_empty e.target_bins) no_target_bins
  require_finite e.log_loss_improvement
  require_finite e.log_loss_ci_lower
  require_finite e.brier_improvement
  require_finite e.brier_ci_lower
  require_finite e.calibration_slope
  ok e

-- The loop over the bins.
unfoldable pub bin_failures : List CalibrationBinEvidence → List FailedCondition
bin_failures [] = []
bin_failures (b ∷ bs) = append_if (ltb_ℤ b.sample_count (pos 300)) target_bin_insufficient_samples (
    append_if (units 30_000_000_000 <f b.calibration_error)
      target_bin_calibration_error_exceeds_limit (bin_failures bs))

unfoldable pub evaluate_direction_gate : DirectionGateEvidence → GateDecision
unfolding decision
evaluate_direction_gate e = decision (
    append_if (ltb_ℤ e.sealed_holdout_markets (pos 2_500)) insufficient_sealed_holdout_markets (
      append_if (e.log_loss_improvement <f units 2_000_000_000) log_loss_improvement_below_threshold
        (append_if (e.log_loss_ci_lower ≤f zero_f) log_loss_ci_lower_not_positive (
          append_if (e.brier_improvement <f units 1_000_000_000) brier_improvement_below_threshold (
            append_if (e.brier_ci_lower ≤f zero_f) brier_ci_lower_not_positive (
              append_if
                (not (
                  units 800_000_000_000 ≤f e.calibration_slope
                  && e.calibration_slope ≤f units 1_200_000_000_000))
                calibration_slope_out_of_range (bin_failures e.target_bins)))))))

pub record OpeningMispricingGateEvidence : Type 0 where
  pub paired_net_edge_ci_lower : Float

unfoldable pub make_opening_evidence :
    OpeningMispricingGateEvidence → Result GateError OpeningMispricingGateEvidence
make_opening_evidence e = do require_finite e.paired_net_edge_ci_lower; ok e

unfoldable pub evaluate_opening_mispricing_gate : OpeningMispricingGateEvidence → GateDecision
unfolding decision
evaluate_opening_mispricing_gate e = decision (
    if zero_f <f e.paired_net_edge_ci_lower
    then []
    else paired_net_edge_ci_lower_must_be_positive ∷ [])
