-- ===== src/Policy/Tests.antt =====
-- Runs of the rules, and their theorems at concrete inputs.
pub mod Runs
mod Examples
mod Readings
mod Brackets
