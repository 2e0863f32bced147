-- ===== src/Script/Eval/Limits.antt =====
-- The limits on what a script leaves behind, under SCRIPT_VERIFY_EXEC.
pub mod Elements
pub mod Numbers
pub mod Cases
pub mod Steps
pub mod Loop
