-- ===== src/Market.antt =====
-- pyserum/market/state.py: the state of a market.
mod State
pub mod Decode
unfoldable pub use State.*
pub mod Load
pub mod Loaded
