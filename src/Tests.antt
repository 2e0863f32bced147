-- ===== src/Tests.antt =====
-- The code run on small inputs, and each theorem with hypotheses applied to one.
mod Filters
mod Eval
mod Scripts
mod Numbers
mod Sighash
mod Transactions
mod Blocks
mod Work
mod Solver
mod Ledger
mod Pool
mod Chain
