-- ===== src/Queue.antt =====
-- pyserum/market/_internal/queue.py: the ring buffers of events and requests.
mod Defs
pub mod Ring
pub mod Slots
pub mod Decode
pub mod Kinds
unfoldable pub use Defs.*
