-- ===== src/Research/Gates/Tests.antt =====
-- btc_short_horizon/research/gates.py at concrete inputs.
use polymarket_btc.Prelude.{
  All, string_eq, pair_eq, scale, units, zero_f, one_f, pos, ok, ◌*◌, ◌≡◌, refl, ◌↔◌, true, [], ◌∷◌,
}
use polymarket_btc.Research.Gates.{
  CalibrationBinEvidence, DirectionGateEvidence, make_bin, make_direction_evidence,
  evaluate_direction_gate, decision, bin_failures,
}
use polymarket_btc.Research.Gates.Maker.{
  MakerGateEvidence, make_maker_evidence, evaluate_maker_gate, IsProfitable,
  evaluate_maker_gate-IsProfitable,
}
use polymarket_btc.Research.Gates.Thresholds.{IsReady, evaluate_direction_gate-IsReady}

abbrev evidence : DirectionGateEvidence
evidence = record {
  sealed_holdout_markets = pos 2_600;
  log_loss_improvement = units 3_000_000_000;
  log_loss_ci_lower = units 1_000_000_000;
  brier_improvement = units 1_000_000_000;
  brier_ci_lower = units 500_000_000;
  calibration_slope = one_f;
  target_bins =
      record { sample_count = pos 300; calibration_error = units 30_000_000_000 }
      ∷ record { sample_count = pos 450; calibration_error = zero_f }
      ∷ [];
}

evidence_made : make_direction_evidence evidence ≡ ok evidence
unfolding make_direction_evidence
evidence_made = refl

bins_made : All (λ (b : CalibrationBinEvidence). make_bin b ≡ ok b) evidence.target_bins
unfolding make_bin
bins_made = (refl, (refl, tt))

accepted : (evaluate_direction_gate evidence).is_accepted ≡ true
unfolding evaluate_direction_gate decision bin_failures
accepted = refl

evaluate_direction_gate-IsReady_example :
    ((evaluate_direction_gate evidence).is_accepted ≡ true) ↔ IsReady evidence
evaluate_direction_gate-IsReady_example =
    evaluate_direction_gate-IsReady evidence evidence_made bins_made

abbrev maker_evidence : MakerGateEvidence
maker_evidence = record {
  total_fills = pos 640;
  up_fills = pos 300;
  down_fills = pos 340;
  net_ev_per_filled_share = units 6_000_000_000;
  net_ev_ci_lower = units 1_000_000_000;
  pnl_without_top_one_percent = units (3 * scale);
  positive_nonoverlap_week_ratio = units 700_000_000_000;
  largest_month_pnl_share = units 400_000_000_000;
  capacity_net_edge_ci_lower = units 1_000_000_000;
  rebate_free = true;
  pessimistic_queue = true;
  p99_latency = true;
  trade_order_robust = true;
}

maker_evidence_made : make_maker_evidence maker_evidence ≡ ok maker_evidence
unfolding make_maker_evidence
maker_evidence_made = refl

evaluate_maker_gate-IsProfitable_example :
    ((evaluate_maker_gate maker_evidence).is_accepted ≡ true) ↔ IsProfitable maker_evidence
evaluate_maker_gate-IsProfitable_example =
    evaluate_maker_gate-IsProfitable maker_evidence maker_evidence_made
