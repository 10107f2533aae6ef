-- ===== src/Format.antt =====
-- src/commands/job/transform/format.rs: the menu of input kinds and qualities.
pub mod Kind
pub mod Parse
pub mod Quality
pub mod Spelling
mod Runs
