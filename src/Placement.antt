-- ===== src/Placement.antt =====
-- src/commands/job/transform/placement.rs: destination names, and what a listing of them says.
-- SHA-256 is third-party code and a parameter: it returns the digest in hexadecimal.
pub mod Names
pub mod Place
pub mod Groups
pub mod Marker
pub mod Candidates
pub mod Count
pub mod Listing
pub mod Sheets
pub mod Plain
pub mod Complete
pub mod Runs
