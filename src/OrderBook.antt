-- ===== src/OrderBook.antt =====
-- pyserum/market/orderbook.py: the order book of one side of a market.
mod Defs
pub mod Group
pub mod Levels
pub mod Sides
pub mod Decode
unfoldable pub use Defs.*
pub mod Orders
