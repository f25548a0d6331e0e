-- ===== src/Research/Gates/Maker.antt =====
-- btc_short_horizon/research/gates.py: the gate of the maker strategy, and the evidence that passes it.
use polymarket_btc.Prelude.{
  ◌≤ℤ◌, ltb_ℤ, ℤ, ◌>>◌, raise_if, Result, string_eq, pair_eq, units, zero_f, one_f, ◌<f◌, ◌≤f◌,
  Float, pos, ok, ◌≡◌, ◌↔◌, Bool, true, not, ◌&&◌, List, [], arith,
}
use polymarket_btc.Research.Gates.{
  GateError, negative_number, ratio_out_of_range, GateDecision, FailedCondition,
  insufficient_total_fills, insufficient_up_fills, insufficient_down_fills,
  net_ev_per_share_below_threshold, net_ev_ci_lower_not_positive,
  top_one_percent_removal_not_positive, insufficient_positive_test_weeks,
  single_month_pnl_concentration, capacity_ci_lower_not_positive, rebate_free_requirement_failed,
  pessimistic_queue_requirement_failed, p99_latency_requirement_failed, trade_ordering_not_robust,
  decision, append_if, require_finite,
}

pub record MakerGateEvidence : Type 0 where
  pub total_fills : ℤ
  pub up_fills : ℤ
  pub down_fills : ℤ
  pub net_ev_per_filled_share : Float
  pub net_ev_ci_lower : Float
  pub pnl_without_top_one_percent : Float
  pub positive_nonoverlap_week_ratio : Float
  pub largest_month_pnl_share : Float
  pub capacity_net_edge_ci_lower : Float
  pub rebate_free : Bool
  pub pessimistic_queue : Bool
  pub p99_latency : Bool
  pub trade_order_robust : Bool

-- `0.0 <= value <= 1.0`
abbrev is_ratio : Float → Bool
is_ratio x = zero_f ≤f x && x ≤f one_f

unfoldable pub make_maker_evidence : MakerGateEvidence → Result GateError MakerGateEvidence
make_maker_evidence e = do
  raise_if (ltb_ℤ e.total_fills (pos 0)) negative_number
  raise_if (ltb_ℤ e.up_fills (pos 0)) negative_number
  raise_if (ltb_ℤ e.down_fills (pos 0)) negative_number
  require_finite e.net_ev_per_filled_share
  require_finite e.net_ev_ci_lower
  require_finite e.pnl_without_top_one_percent
  require_finite e.positive_nonoverlap_week_ratio
  require_finite e.largest_month_pnl_share
  require_finite e.capacity_net_edge_ci_lower
  raise_if (not (is_ratio e.positive_nonoverlap_week_ratio)) ratio_out_of_range
  raise_if (not (is_ratio e.largest_month_pnl_share)) ratio_out_of_range
  ok e

-- The failures about fills and profit, before those about how the simulation was run.
unfoldable pub profit_failures : MakerGateEvidence → List FailedCondition → List FailedCondition
profit_failures e rest = append_if (ltb_ℤ e.total_fills (pos 500)) insufficient_total_fills (
    append_if (ltb_ℤ e.up_fills (pos 150)) insufficient_up_fills (
      append_if (ltb_ℤ e.down_fills (pos 150)) insufficient_down_fills (
        append_if (e.net_ev_per_filled_share <f units 5_000_000_000)
          net_ev_per_share_below_threshold
          (append_if (e.net_ev_ci_lower ≤f zero_f) net_ev_ci_lower_not_positive (
            append_if (e.pnl_without_top_one_percent ≤f zero_f) top_one_percent_removal_not_positive
              (append_if (e.positive_nonoverlap_week_ratio <f units 700_000_000_000)
                insufficient_positive_test_weeks
                (append_if (units 500_000_000_000 <f e.largest_month_pnl_share)
                  single_month_pnl_concentration
                  (append_if (e.capacity_net_edge_ci_lower ≤f zero_f) capacity_ci_lower_not_positive
                    rest))))))))

unfoldable pub run_failures : MakerGateEvidence → List FailedCondition
run_failures e = append_if (not e.rebate_free) rebate_free_requirement_failed (
    append_if (not e.pessimistic_queue) pessimistic_queue_requirement_failed (
      append_if (not e.p99_latency) p99_latency_requirement_failed
        (append_if (not e.trade_order_robust) trade_ordering_not_robust [])))

unfoldable pub evaluate_maker_gate : MakerGateEvidence → GateDecision
unfolding decision
evaluate_maker_gate e = decision (profit_failures e (run_failures e))

pub record IsProfitable (e : MakerGateEvidence) : Type 0 where
  pub fills : pos 500 ≤ℤ e.total_fills
  pub up : pos 150 ≤ℤ e.up_fills
  pub down : pos 150 ≤ℤ e.down_fills
  pub net_ev : (units 5_000_000_000 ≤f e.net_ev_per_filled_share) ≡ true
  pub net_ev_ci : (zero_f <f e.net_ev_ci_lower) ≡ true
  pub without_top : (zero_f <f e.pnl_without_top_one_percent) ≡ true
  pub weeks : (units 700_000_000_000 ≤f e.positive_nonoverlap_week_ratio) ≡ true
  pub month : (e.largest_month_pnl_share ≤f units 500_000_000_000) ≡ true
  pub capacity : (zero_f <f e.capacity_net_edge_ci_lower) ≡ true
  pub run :
      (e.rebate_free ≡ true)
      × (e.pessimistic_queue ≡ true)
      × (e.p99_latency ≡ true)
      × (e.trade_order_robust ≡ true)

-- For evidence that passed its checks, the maker gate accepts exactly if the fills, the expected value,
-- the profit without the best trades, the weeks, the months and the capacity meet their thresholds and
-- all four conditions on the simulation hold.
pub evaluate_maker_gate-IsProfitable :
    (e : MakerGateEvidence)
    → make_maker_evidence e ≡ ok e
    → ((evaluate_maker_gate e).is_accepted ≡ true) ↔ IsProfitable e
unfolding evaluate_maker_gate make_maker_evidence profit_failures run_failures
evaluate_maker_gate-IsProfitable e v = (
  λ a. record {
    fills = ground arith;
    up = ground arith;
    down = ground arith;
    net_ev = ground arith;
    net_ev_ci = ground arith;
    without_top = ground arith;
    weeks = ground arith;
    month = ground arith;
    capacity = ground arith;
    run = ground arith;
  },
  λ p. ground (arith, p),
)
