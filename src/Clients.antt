-- ===== src/Clients.antt =====
-- pyserum/market/market.py and pyserum/market/async_market.py: the clients of a market.
pub mod Defs
pub mod Signed
pub mod Loads
pub mod Orders
pub mod Settlements
pub mod Sent
