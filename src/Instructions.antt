-- ===== src/Instructions.antt =====
-- pyserum/instructions.py: building and decoding the instructions of the DEX program.
pub mod Layout
pub mod Params
pub mod Build
pub mod Decode
pub mod Data
pub mod Decoded
pub mod Current
pub mod ConsumeEvents
