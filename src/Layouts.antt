-- ===== src/Layouts.antt =====
-- The layouts of pyserum/_layouts.
pub mod AccountFlags
pub mod Slab
pub mod SlabEncoding
pub mod Queue
pub mod QueueEncoding
pub mod Market
pub mod MarketEncoding
pub mod OpenOrders
pub mod OpenOrdersEncoding
