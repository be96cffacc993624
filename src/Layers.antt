-- ===== src/Layers.antt =====
-- Pass 3 of tools/lis_verify: the first layer at which the checkpoints of two runs differ, with the
-- reading of their traces.
pub mod Model
pub mod Inputs
pub mod Summaries
pub mod Layout
pub mod Normalize
pub mod Coverage
pub mod Compare
pub mod Localize
pub mod Gates
pub mod Exits
pub mod ReportMapping
mod Tests
