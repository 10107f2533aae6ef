-- ===== src/Data.antt =====
-- src/core/data.rs: file names, slugs and the content index.
-- A name is the list of its bytes, a path's name likewise; `sheet_slug` and `strict_stem` read
-- their argument as a list of code points and return ASCII.
pub mod Slug
pub mod FileName
mod Runs
pub mod ContentIndex
