-- ===== src/Tokens.antt =====
-- Pass 1 of tools/lis_verify: the first selected token at which two runs differ.
pub mod Model
pub mod Errors
pub mod Reports
pub mod Digests
pub mod Sequence
pub mod Locate
pub mod Gate
pub mod Names
pub mod Results
pub mod Run
pub mod Artifact
pub mod ReportMapping
pub mod Tests
