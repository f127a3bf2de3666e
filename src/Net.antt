-- ===== src/Net.antt =====
-- The network: answers of a server, the client that asks it, and pyserum/utils.py.
pub mod Json
pub mod Action
pub mod Client
pub mod Utils
pub mod Fetch
pub mod Ensures
pub mod Steps
pub mod Answers
