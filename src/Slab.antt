-- ===== src/Slab.antt =====
-- The slab, pyserum/market/_internal/slab.py: the order book's search tree in an array of nodes.
mod Defs
pub mod Decode
pub mod Wire
pub mod Tree
pub mod Items
pub mod Get
pub mod Order
unfoldable pub use Defs.*
pub mod Fuel
pub mod Termination
