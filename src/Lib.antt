-- ===== src/Lib.antt =====
-- pigeon, a command line that moves mail and files between mailboxes and object stores: its email
-- import, its email scan, its transform of files into a few formats, and its deduplication.
--
-- The parts and how they work together. An import fetches messages at the rate that the pacer
-- allows, retries what fails, parks its tasks at the recovery gate while the server refuses work,
-- and writes each delivery to the ledger, which tells the next run what to skip. A scan reads the
-- same ledger and counts the attachments of the messages that are new. A transform converts each
-- input by its kind, names the outputs after their input, places them in a result directory, and
-- reads a listing of these names to tell which inputs are done. Its decoder of Procreate tiles
-- decompresses LZO1X, and its calendars and contacts become text. A deduplication lists what its
-- checkpoint does not hold, expands and hashes it with several workers, and keeps one file of each
-- content hash, by an index on disk. The log of every transfer is followed while it grows.
--
-- Files, with the code that they model:
--   Base         what the other modules share: tests on numbers, lists, results, and the functions
--                of Rust's standard library that the code calls on texts, numbers and paths
--   Pace         src/commands/job/email_import/pace.rs: `reserve`, `interval_for`, `Pacer`
--   Retry        src/core/retry.rs: `retry_with_backoff`
--   Gate         src/commands/job/email_import/gate.rs: `RecoveryGate::wait_for_recovery` as a step
--                relation of any number of tasks; each await and each atomic access is a step, and
--                what tokio's watch channel stores a parameter; in Gate/Signatures
--                `is_server_overloaded_error`
--   Ledger       src/commands/job/email_import/ledger.rs: `Ledger`, `LedgerSync::append`, and in
--                Ledger/Seed `seed_from_listing`
--   Attachments  src/commands/job/email_scan/bodystructure.rs: the count and its bisection
--   Data         src/core/data.rs: slugs, file names, `unique_path` and `ContentIndex`
--   Format       src/commands/job/transform/format.rs: the kinds, their tables and their menus
--   Placement    src/commands/job/transform/placement.rs: names, placing, `DestinationGroups`
--   Lzo          src/commands/job/transform/lzo1x.rs: `decompress`
--   Tail         src/core/rclone/log.rs: `RcloneLogTailer`, poll by poll
--   Vobject      src/commands/job/transform/vobject.rs: `ics_to_text` and `vcf_to_text`, from the
--                unfolding of lines to the text
--   Dedup        src/commands/job/deduplicate: Dedup/Manifest is manifest.rs, Dedup/Place dedup.rs,
--                and Dedup/Worker worker.rs: `process_item`, in Dedup/Worker/Pool the loop of the
--                workers as a step relation with one step for each lock and each atomic access, in
--                Dedup/Worker/Finish what follows it; Dedup/Archive is src/commands/job/archive.rs
--
-- A text is the list of its UTF-8 bytes, a number of the program a natural number with its limit or
-- its wrap-around written out, a map an association list, a `BTreeMap` its entries in order. The
-- file system, the IMAP server, rclone, the readers of archives and of JSON, and SHA-256 are
-- parameters: an answer, a function, or a list of names.
--
-- Fuel: the count of n messages takes at most 2 n rounds, the search for a free file name one round
-- more than there are names, or than there are numbers in front of a free one, as long as its `i32`
-- counter does not overflow, and the decompressor reads a byte in every turn. That these are enough
-- is proved with what the loops return.
--
-- Not modelled: the panic of a sleep that is too long for a `Duration`; prompts, logging and metrics;
-- the arguments of external programs (rclone, ffmpeg, LibreOffice); what third-party crates parse
-- (TOML, JSON, archives, MIME); the uploads; the orchestration of the workers of the other jobs.
pub mod Base
pub mod Pace
pub mod Retry
pub mod Gate
pub mod Ledger
pub mod Attachments
pub mod Data
pub mod Format
pub mod Placement
pub mod Lzo
pub mod Tail
pub mod Vobject
pub mod Dedup
