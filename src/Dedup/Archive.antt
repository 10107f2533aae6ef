-- ===== src/Dedup/Archive.antt =====
-- src/commands/job/archive.rs: the members of an archive are written to the scratch directory. What
-- the reader of archives gives, entry by entry and chunk by chunk, is a list.
pub mod Capped
use pigeon_cli.Base.{
  ℕ, ◌+◌, ◌-◌, ◌*◌, ◌%◌, min, Bool, not, ◌&&◌, ◌||◌, Option, none, some, List, [], ◌∷◌, ◌++◌,
}
use pigeon_cli.Base.Tests.{ltb, if◌then◌else◌, u64_mod}
use pigeon_cli.Base.Lists.{length, any}
use pigeon_cli.Base.Text.{split_on}
use pigeon_cli.Base.Strings.{starts_with, last_piece}
use pigeon_cli.Base.Ascii.{codes, bytes_eq}
use pigeon_cli.Base.Decimal.{show}
use pigeon_cli.Base.Outcome.{Result, ok, err}
use pigeon_cli.Data.FileName.{is_apple_double_basename}
use pigeon_cli.Dedup.Place.{without}
use pigeon_cli.Dedup.Worker.{ExtractedMember, Disk, zeros}

abbrev pub extraction_ratio_limit : ℕ
extraction_ratio_limit = 100

unfoldable pub is_apple_metadata_entry : List ℕ → Bool
unfolding is_apple_double_basename
is_apple_metadata_entry name = starts_with (codes "__MACOSX/") name || is_apple_double_basename name

abbrev pub is_vendored : List ℕ → Bool
is_vendored segment = bytes_eq segment (codes ".git") || bytes_eq segment (codes "node_modules")

unfoldable pub is_skippable_zip_entry : List ℕ → Bool
unfolding is_apple_metadata_entry split_on
is_skippable_zip_entry name =
    is_apple_metadata_entry name
    || bytes_eq (last_piece (split_on b'/' name)) (codes ".DS_Store")
    || any is_vendored (split_on b'/' name)

-- One round of the copy loop: so many bytes were read, and could be written or not; or an error.
-- The end of the list is the end of the entry.
pub data Chunk : Type 0 where
  chunk : ℕ → Bool → Chunk
  unread : Chunk

-- The bytes written if all is well, and the running total, which also counts what is dropped.
unfoldable pub copy_capped : ℕ → List Chunk → ℕ → ℕ → Option ℕ × ℕ
copy_capped budget [] written running_total = (some written, running_total)
copy_capped budget (unread ∷ chunks) written running_total = (none, running_total)
copy_capped budget (chunk n stored ∷ chunks) written running_total =
    let rest = copy_capped budget chunks (written + n) (running_total + n) in
    if not stored
    then (none, running_total)
    else if ltb budget (running_total + n)
    then (none, running_total + n)
    else rest

pub record ZipEntry : Type 0 where
  pub name : List ℕ
  pub is_dir : Bool
  pub created : Bool
  pub chunks : List Chunk

pub record Extraction : Type 0 where
  pub members : List ExtractedMember
  pub dropped : ℕ
  pub running_total : ℕ
  pub disk : Disk

abbrev pub member_name : ℕ → List ℕ
member_name n = zeros (12 - length (show n)) ++ (show n ++ codes ".member")

abbrev pub is_passed_over : ZipEntry → Bool
is_passed_over e = e.is_dir || is_skippable_zip_entry e.name

abbrev pub keep_member : ZipEntry → List ℕ → Option ℕ × ℕ → Extraction → Extraction
keep_member e path (some size, running_total) x = record x {
  members = x.members ++ (record { name = e.name; path = path; size = size } ∷ []);
  running_total = running_total;
  disk = record x.disk { counter = (x.disk.counter + 1) % u64_mod; files = path ∷ x.disk.files };
}
keep_member e path (none, running_total) x = record x {
  dropped = x.dropped + 1;
  running_total = running_total;
  disk = record x.disk {
    counter = (x.disk.counter + 1) % u64_mod;
    files = without path x.disk.files;
  };
}

-- The loop; `none` in the list is an entry that cannot be read. An error ends it, and what was
-- written stays.
unfoldable pub extract_each :
    ℕ → List (Option ZipEntry) → Extraction → Result (Unit {0}) (Unit {0}) × Extraction
unfolding is_skippable_zip_entry copy_capped show without
extract_each budget [] x = (ok tt, x)
extract_each budget (none ∷ entries) x = (err tt, x)
extract_each budget (some e ∷ entries) x =
    let path = member_name x.disk.counter in
    let onward = extract_each budget entries x in
    let rest =
      extract_each budget entries
        (keep_member e path (copy_capped budget e.chunks 0 x.running_total) x) in
    if is_passed_over e
    then onward
    else if e.created
    then rest
    else (err tt, record x { disk = record x.disk { counter = (x.disk.counter + 1) % u64_mod } })

-- The file of the archive: whether the directory can be made, its size, and its entries.
pub record ZipFile : Type 0 where
  pub made_folder : Bool
  pub opened : Bool
  pub compressed_size : ℕ
  pub entries : Option (List (Option ZipEntry))

-- `saturating_mul`
abbrev pub budget_of : ℕ → ℕ
budget_of size = min (size * extraction_ratio_limit) (u64_mod - 1)

abbrev pub start : Disk → Extraction
start disk = record { members = []; dropped = 0; running_total = 0; disk = disk }

unfoldable pub expand_to_dir : ZipFile → Disk → Result (Unit {0}) (Unit {0}) × Extraction
unfolding extract_each
expand_to_dir z disk =
    if z.made_folder && z.opened
    then (elim z.entries [
      | none ↦ (err tt, start disk)
      | some entries ↦ extract_each (budget_of z.compressed_size) entries (start disk)
    ])
    else (err tt, start disk)
