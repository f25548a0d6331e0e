-- ===== src/Backtest.antt =====
-- btc_short_horizon/backtest: the strategy in a replay of one market.
pub mod Signals
pub mod Strategy
