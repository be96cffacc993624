-- ===== src/Calibration.antt =====
-- Pass 0, the calibration preflight of tools/lis_verify: whether two runs may be compared, and how
-- strongly.
pub mod Model
pub mod Equality
pub mod Codes
pub mod Inputs
pub mod Domains
pub mod Preflight
pub mod Gate
pub mod Names
pub mod Artifact
pub mod ReportMapping
pub mod Tests
