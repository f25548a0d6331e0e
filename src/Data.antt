-- ===== src/Data.antt =====
-- btc_short_horizon/data: the events that the collector stores, and the quality of a stream.
pub mod Quality
pub mod Contracts
pub mod Catalog
pub mod Books
pub mod Binance
pub mod Events
pub mod Okx
pub mod Forward
