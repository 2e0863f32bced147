-- ===== src/Script/Eval.antt =====
-- script.cpp: `EvalScript` and `VerifyScript`, in child modules for the blocks of the switch.
pub mod State
pub mod Stack
pub mod Splice
pub mod Numeric
pub mod Signatures
pub mod Step
pub mod Run
pub mod Limits
