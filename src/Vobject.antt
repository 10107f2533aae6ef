-- ===== src/Vobject.antt =====
-- src/commands/job/transform/vobject.rs: calendars and contacts as readable text.
pub mod Unfold
pub mod Value
pub mod Property
pub mod Components
pub mod Calendar
pub mod Cards
pub mod Runs
