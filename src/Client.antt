-- ===== src/Client.antt =====
-- The agent, client/src.
pub mod ParentCode
pub mod Clock
pub mod Warn
pub mod Activity
pub mod Usage
pub mod Freeze
mod Tests
