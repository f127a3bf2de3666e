-- ===== src/Core.antt =====
-- pyserum/market/core.py: the parts of a market's client that do not talk to a server.
pub mod Packages
pub mod Defs
pub mod Instruct
pub mod Wrapping
pub mod Draft
pub mod Settle
pub mod Signers
pub mod Signed
pub mod SettleSigned
pub mod Owned
pub mod Fills
pub mod Lamports
pub mod Drafts
pub mod Placed
