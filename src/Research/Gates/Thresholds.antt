-- ===== src/Research/Gates/Thresholds.antt =====
-- btc_short_horizon/research/gates.py: what accepted evidence of the direction model shows.
use polymarket_btc.Prelude.{
  ◌≤ℤ◌, is_empty, All, string_eq, pair_eq, units, zero_f, ◌<f◌, ◌≤f◌, pos, ok, ◌≡◌, refl, ◌↔◌, true,
  List, [], ◌∷◌, arith,
}
use polymarket_btc.Research.Gates.{
  CalibrationBinEvidence, DirectionGateEvidence, make_bin, make_direction_evidence, bin_failures,
  evaluate_direction_gate,
}

-- A target bin with enough samples and a small enough error.
abbrev pub IsCalibrated : CalibrationBinEvidence → Type 0
IsCalibrated b =
    (pos 300 ≤ℤ b.sample_count) × ((b.calibration_error ≤f units 30_000_000_000) ≡ true)

pub record IsReady (e : DirectionGateEvidence) : Type 0 where
  pub markets : pos 2_500 ≤ℤ e.sealed_holdout_markets
  pub log_loss : (units 2_000_000_000 ≤f e.log_loss_improvement) ≡ true
  pub log_loss_ci : (zero_f <f e.log_loss_ci_lower) ≡ true
  pub brier : (units 1_000_000_000 ≤f e.brier_improvement) ≡ true
  pub brier_ci : (zero_f <f e.brier_ci_lower) ≡ true
  pub slope_above : (units 800_000_000_000 ≤f e.calibration_slope) ≡ true
  pub slope_below : (e.calibration_slope ≤f units 1_200_000_000_000) ≡ true
  pub bins : All IsCalibrated e.target_bins

bins_pass :
    (bs : List CalibrationBinEvidence)
    → All (λ (b : CalibrationBinEvidence). make_bin b ≡ ok b) bs
    → (is_empty (bin_failures bs) ≡ true) ↔ All IsCalibrated bs
unfolding bin_failures make_bin
bins_pass [] h = (λ _. tt, λ _. refl)
bins_pass (b ∷ bs) h = ground (arith, bins_pass bs h.1)

-- For evidence and target bins that passed their checks, the direction gate accepts exactly if the
-- sealed markets, both improvements, both lower confidence bounds, the calibration slope and every
-- target bin meet their thresholds.
pub evaluate_direction_gate-IsReady :
    (e : DirectionGateEvidence)
    → make_direction_evidence e ≡ ok e
    → All (λ (b : CalibrationBinEvidence). make_bin b ≡ ok b) e.target_bins
    → ((evaluate_direction_gate e).is_accepted ≡ true) ↔ IsReady e
unfolding evaluate_direction_gate make_direction_evidence
evaluate_direction_gate-IsReady e v h =
    let (to, from) = bins_pass e.target_bins h in
    (
      λ a. record {
        markets = ground arith;
        log_loss = ground arith;
        log_loss_ci = ground arith;
        brier = ground arith;
        brier_ci = ground arith;
        slope_above = ground arith;
        slope_below = ground arith;
        bins = to (ground arith);
      },
      λ r. ground (arith, r, from r.bins),
    )
