-- ===== src/Script.antt =====
-- The script engine: script.h and script.cpp.
pub mod Opcode
pub mod Parse
pub mod Number
pub mod Signature
pub mod Crypto
pub mod Sighash
pub mod Eval
pub mod SigOps
pub mod Address
pub mod Solver
