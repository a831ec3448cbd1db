-- ===== src/Executor.antt =====
-- src/executors: from an action to the instructions of its transaction, and the transaction sent.
pub mod Instructions
pub mod Steps
pub mod Build
pub mod Estimate
pub mod Inversion
pub mod Spending
pub mod Charges
pub mod Refusals
pub mod Purchases
pub mod Execute
pub mod Reports
pub mod Units
