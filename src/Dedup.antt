-- ===== src/Dedup.antt =====
-- src/commands/job/deduplicate: one copy of each content, out of several buckets and their archives.
pub mod Manifest
pub mod Place
pub mod Worker
pub mod Archive
pub mod Runs
