-- ===== src/Strategy.antt =====
-- btc_short_horizon/strategy: the order plans of the maker strategy and their lifecycle.
pub mod Types
pub mod Lifecycle
pub mod Maker
