-- ===== src/Replay.antt =====
-- Pass 2 of tools/lis_verify: the reproduction of what Pass 1 found, and the reports that are forced
-- to its prefix.
pub mod Model
pub mod Names
pub mod Evidence
pub mod Results
pub mod Prefix
pub mod Compare
pub mod Originals
pub mod Run
pub mod Follows
pub mod Forced
mod Tests
mod RunTests
