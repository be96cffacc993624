-- ===== src/Json.antt =====
-- JSON values as Python holds them after `json.loads`, and the lookups of
-- tools/lis_verify/pass1_inputs.py over them.
pub mod Number
pub mod Value
pub mod Equal
pub mod Lookup
pub mod Render
