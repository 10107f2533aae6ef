-- ===== src/Dedup/Worker.antt =====
-- worker.rs: items are downloaded, expanded and hashed by several workers at once, then placed.
-- What `rclone`, the disk and `archive::expand_to_dir` do is an answer that the model is given.
pub mod Pool
pub mod Finish
use pigeon_cli.Base.{
  ℕ, zero, suc, ◌+◌, ◌-◌, ◌%◌, Bool, not, ◌||◌, Option, none, some, List, [], ◌∷◌, ◌++◌, map,
}
use pigeon_cli.Base.Tests.{ltb, leb, ◌==◌, if◌then◌else◌, u64_mod}
use pigeon_cli.Base.Lists.{length, any}
use pigeon_cli.Base.Ascii.{codes, bytes_eq}
use pigeon_cli.Base.Decimal.{show}
use pigeon_cli.Base.FilePath.{extension}
use pigeon_cli.Dedup.Manifest.{extension_of, DeduplicateTask, Place, holds}
use pigeon_cli.Dedup.Place.{HashedFile, without, ArchiveFailure}
use pigeon_cli.Data.FileName.{is_apple_double_basename}

pub record QueueItem : Type 0 where
  pub source_key : Option (List ℕ)
  pub display_key : List ℕ
  pub path : Option (List ℕ)
  pub depth : ℕ
  pub size : ℕ
  pub root_key : List ℕ
  pub bucket_alias : List ℕ

pub record FailureBreakdown : Type 0 where
  pub download : ℕ
  pub archive : ℕ
  pub hash : ℕ
  pub placement : ℕ

-- `merge`
abbrev pub merge : FailureBreakdown → FailureBreakdown → FailureBreakdown
merge b other = record {
  download = b.download + other.download;
  archive = b.archive + other.archive;
  hash = b.hash + other.hash;
  placement = b.placement + other.placement;
}

pub data FailureCategory : Type 0 where
  in_download in_archive in_hash : FailureCategory

pub data ItemOutcome : Type 0 where
  zip_expanded : List ℕ → ℕ → List QueueItem → ℕ → ItemOutcome
  hashed : ℕ → HashedFile → ItemOutcome
  skipped_apple_double : ℕ → ItemOutcome
  archive_open_failed : List ℕ → List ℕ → ItemOutcome
  failed_in : FailureCategory → ItemOutcome

-- `ExtractedMember`
pub record ExtractedMember : Type 0 where
  pub name : List ℕ
  pub path : List ℕ
  pub size : ℕ

pub data Expansion : Type 0 where
  expanded : List ExtractedMember → ℕ → Expansion
  not_opened_for : List ℕ → Expansion
  panicked : Expansion

-- The scratch directory: its names, and the counter that they are made from.
pub record Disk : Type 0 where
  pub counter : ℕ
  pub files : List (List ℕ)

-- What the world answers to one item.
pub record ItemAnswers : Type 0 where
  pub has_space : Bool
  pub made_folder : Bool
  pub pulled : Bool
  pub has_space_to_expand : Bool
  pub expansion : Expansion
  pub disk_expanded : Disk
  pub digest : Option (List ℕ)

abbrev pub max_zip_depth : ℕ
max_zip_depth = 10

abbrev pub zeros : ℕ → List ℕ
zeros zero = []
zeros (suc n) = b'0' ∷ zeros n

-- `{name:012}.{extension}`
unfoldable pub scratch_name : ℕ → List ℕ → List ℕ
unfolding show
scratch_name n extension = zeros (12 - length (show n)) ++ (show n ++ (b'.' ∷ extension))

unfoldable pub next_scratch_path : Bool → List ℕ → Disk → Option (List ℕ) × Disk
unfolding scratch_name
next_scratch_path made extension disk =
    if made
    then (
      some (scratch_name disk.counter extension),
      record disk { counter = (disk.counter + 1) % u64_mod },
    )
    else (none, disk)

abbrev pub zip : List ℕ
zip = codes "zip"

unfoldable pub is_zip_key : List ℕ → Bool
unfolding extension_of
is_zip_key key = bytes_eq (extension_of key) zip

abbrev pub removed : List ℕ → Disk → Disk
removed path disk = record disk { files = without path disk.files }

abbrev pub removed_if_any : Option (List ℕ) → Disk → Disk
removed_if_any none disk = disk
removed_if_any (some path) disk = removed path disk

abbrev pub pulled_to : Bool → Option (List ℕ) × Disk → Option (List ℕ) × Disk
pulled_to pulled (none, disk) = (none, disk)
pulled_to pulled (some path, disk) =
    if pulled
    then (some path, record disk { files = path ∷ disk.files })
    else (none, removed path disk)

-- The item's path, or that its download failed.
unfoldable pub path_of : List (List ℕ) → ItemAnswers → QueueItem → Disk → Option (List ℕ) × Disk
unfolding next_scratch_path extension_of
path_of buckets a item disk = elim item.path [
  | some path ↦ (some path, disk)
  | none ↦
      if not (any (λ b. bytes_eq b item.bucket_alias) buckets) || not a.has_space
      then (none, disk)
      else pulled_to a.pulled (next_scratch_path a.made_folder (extension_of item.display_key) disk)
]

abbrev pub member_item : QueueItem → ExtractedMember → QueueItem
member_item item m = record {
  source_key = none;
  display_key = item.display_key ++ (b'!' ∷ m.name);
  path = some m.path;
  depth = item.depth + 1;
  size = m.size;
  root_key = item.root_key;
  bucket_alias = item.bucket_alias;
}

abbrev pub expand_outcome : QueueItem → Expansion → ItemOutcome
expand_outcome item (expanded members dropped) =
    zip_expanded item.display_key item.depth (map (member_item item) members) dropped
expand_outcome item (not_opened_for error) = archive_open_failed item.display_key error
expand_outcome item panicked = failed_in in_archive

unfoldable pub expand_item : ItemAnswers → QueueItem → List ℕ → Disk → ItemOutcome × Disk
expand_item a item path disk =
    if leb max_zip_depth item.depth || not a.has_space_to_expand
    then (failed_in in_archive, removed path disk)
    else (expand_outcome item a.expansion, removed path a.disk_expanded)

-- `none` for a file that cannot be read and for a task that panics.
unfoldable pub hash_item : ItemAnswers → QueueItem → List ℕ → Disk → ItemOutcome × Disk
unfolding extension_of
hash_item a item path disk = elim a.digest [
  | none ↦ (failed_in in_hash, removed path disk)
  | some content_hash ↦ (
    hashed item.depth (record {
      original_key = item.display_key;
      bucket_alias = item.bucket_alias;
      scratch_path = path;
      extension = extension_of item.display_key;
      content_hash = content_hash;
    }),
    disk,
  )
]

abbrev pub handle_path : ItemAnswers → QueueItem → Option (List ℕ) × Disk → ItemOutcome × Disk
handle_path a item (none, disk) = (failed_in in_download, disk)
handle_path a item (some path, disk) =
    if is_zip_key item.display_key then expand_item a item path disk else hash_item a item path disk

-- The outcome; the root key that comes with it is the item's own.
unfoldable pub process_item : List (List ℕ) → ItemAnswers → QueueItem → Disk → ItemOutcome × Disk
unfolding path_of is_apple_double_basename expand_item hash_item is_zip_key
process_item buckets a item disk =
    if is_apple_double_basename item.display_key
    then (skipped_apple_double item.depth, removed_if_any item.path disk)
    else handle_path a item (path_of buckets a item disk)

-- The lists and counters that the workers share, less the queue.
pub record Results : Type 0 where
  pub hashed_files : List HashedFile
  pub finished_root_keys : List Place
  pub failure_breakdown : FailureBreakdown
  pub dropped_members : ℕ
  pub tainted_roots : List Place
  pub apple_double_skipped_roots : List Place
  pub archive_failures : List ArchiveFailure

abbrev pub no_failures : FailureBreakdown
no_failures = record { download = 0; archive = 0; hash = 0; placement = 0 }

abbrev pub no_results : Results
no_results = record {
  hashed_files = [];
  finished_root_keys = [];
  failure_breakdown = no_failures;
  dropped_members = 0;
  tainted_roots = [];
  apple_double_skipped_roots = [];
  archive_failures = [];
}

-- What a worker does under one lock, or with one atomic addition, when it has an outcome.
pub data Effect : Type 0 where
  add_members : List QueueItem → Effect
  add_finished : Place → Effect
  add_failures : FailureCategory → ℕ → Effect
  add_dropped : ℕ → Effect
  add_tainted : Place → Effect
  add_hashed : HashedFile → Effect
  add_skipped : Place → Effect
  add_archive_failure : ArchiveFailure → Effect

-- The key that a top-level item is finished with.
abbrev pub finish_root : ℕ → Place → List Effect
finish_root depth root = if depth == 0 then add_finished root ∷ [] else []

abbrev pub count_dropped : ℕ → Place → List Effect
count_dropped dropped root =
    if ltb 0 dropped
    then add_failures in_archive dropped ∷ add_dropped dropped ∷ add_tainted root ∷ []
    else []

-- The locks and additions of each outcome, in the order of the code.
unfoldable pub effects : List ℕ → List ℕ → ItemOutcome → List Effect
effects bucket_alias root_key (zip_expanded display_key depth members dropped) =
    add_members members
    ∷ (finish_root depth (bucket_alias, display_key)
        ++ count_dropped dropped (bucket_alias, root_key))
effects bucket_alias root_key (hashed depth file) =
    finish_root depth (bucket_alias, file.original_key) ++ (add_hashed file ∷ [])
effects bucket_alias root_key (skipped_apple_double depth) =
    if depth == 0 then add_skipped (bucket_alias, root_key) ∷ [] else []
effects bucket_alias root_key (archive_open_failed key error) =
    add_tainted (bucket_alias, root_key)
    ∷ add_failures in_archive 1
    ∷ add_archive_failure (record { key = key; error = error })
    ∷ []
effects bucket_alias root_key (failed_in category) =
    add_tainted (bucket_alias, root_key) ∷ add_failures category 1 ∷ []

abbrev pub taint : Place → Results → Results
taint root r =
    if holds root r.tainted_roots then r else record r { tainted_roots = root ∷ r.tainted_roots }

abbrev pub count_failures : FailureCategory → ℕ → FailureBreakdown → FailureBreakdown
count_failures in_download n b = record b { download = b.download + n }
count_failures in_archive n b = record b { archive = b.archive + n }
count_failures in_hash n b = record b { hash = b.hash + n }

-- The members go to the queue, which is not one of the results.
unfoldable pub apply_effect : Effect → Results → Results
apply_effect (add_members members) r = r
apply_effect (add_finished root) r = record r {
  finished_root_keys = r.finished_root_keys ++ (root ∷ []);
}
apply_effect (add_failures category n) r = record r {
  failure_breakdown = count_failures category n r.failure_breakdown;
}
apply_effect (add_dropped n) r = record r { dropped_members = r.dropped_members + n }
apply_effect (add_tainted root) r = taint root r
apply_effect (add_hashed file) r = record r { hashed_files = r.hashed_files ++ (file ∷ []) }
apply_effect (add_skipped root) r = record r {
  apple_double_skipped_roots = r.apple_double_skipped_roots ++ (root ∷ []);
}
apply_effect (add_archive_failure failure) r = record r {
  archive_failures = r.archive_failures ++ (failure ∷ []);
}

abbrev pub queued : Effect → List QueueItem
queued (add_members members) = members
queued _ = []

abbrev pub members_of : ItemOutcome → List QueueItem
members_of (zip_expanded display_key depth members dropped) = members
members_of _ = []

abbrev pub item_of_task : DeduplicateTask → QueueItem
item_of_task t = record {
  source_key = some t.key;
  display_key = t.key;
  path = none;
  depth = 0;
  size = t.size;
  root_key = t.key;
  bucket_alias = t.bucket_alias;
}
