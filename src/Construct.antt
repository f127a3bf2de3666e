-- ===== src/Construct.antt =====
-- The construct package as far as pyserum's layouts use it: a parameter, with its documented
-- behaviour as laws.
mod Interface
mod Names
pub mod Bytes
pub mod Sizes
pub mod Flags
pub mod Parses
pub use Interface.*
pub use Names.*
pub mod RoundTrips
