-- ===== src/Research.antt =====
-- btc_short_horizon/research: the decisions that let research results go on to trading.
pub mod Gates
pub mod WalkForward
