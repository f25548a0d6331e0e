-- ===== src/Live.antt =====
-- btc_short_horizon/live/: what the order service does with its orders.
pub mod State
pub mod Risk
pub mod Gateway
pub mod Service
