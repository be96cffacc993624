-- ===== src/Product.antt =====
-- The customer product of tools/lis_verify: its contract, its stage machine and how it aggregates
-- the passes.
pub mod Model
pub mod Contract
pub mod Machine
pub mod ForcedPrefix
pub mod Actions
pub mod Aggregation
mod Tests
pub mod Events
pub mod Validation
pub mod Ledger
mod LedgerTests
