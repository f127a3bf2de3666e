-- ===== src/Tests.antt =====
-- Tests: the theorems applied to concrete accounts.
pub mod Concrete
pub mod Data
pub mod Server
pub mod Network
pub mod Orders
mod Settlements
mod Loads
mod Books
pub mod Accounts
mod Instructions
