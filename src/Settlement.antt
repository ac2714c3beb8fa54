-- ===== src/Settlement.antt =====
-- crates/settlement: the rules, accounts, addresses and instructions of the settlement program.
pub mod Fee
pub mod Accounts
pub mod Pda
pub mod Instruction
