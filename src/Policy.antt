-- ===== src/Policy.antt =====
-- The crate policy/: the shared policy document and the one rules function.
pub mod Document
pub mod Hm
pub mod Bracket
pub mod Compiled
pub mod Time
pub mod Evaluate
pub mod Focus
pub mod Validate
pub mod Tests
