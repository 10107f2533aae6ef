-- ===== src/Dedup/Place.antt =====
-- dedup.rs: files are placed one after another, one of each content.
pub mod Counts
pub mod Dated
pub mod Keys
pub mod Named
use pigeon_cli.Base.{ℕ, suc, ◌+◌, Bool, true, false, ◌&&◌, Option, none, some, List, [], ◌∷◌, ◌++◌}
use pigeon_cli.Base.Tests.{if◌then◌else◌}
use pigeon_cli.Base.Lists.{length, any}
use pigeon_cli.Base.Strings.{starts_with}
use pigeon_cli.Base.Lines.{Write}
use pigeon_cli.Base.Ascii.{codes, bytes_eq}
use pigeon_cli.Base.Decimal.{show}
use pigeon_cli.Base.FilePath.{file_name}
use pigeon_cli.Base.Outcome.{Result, ok, err}
use pigeon_cli.Data.ContentIndex.{ContentIndexEntry, ContentIndex, check, commit}
use pigeon_cli.Data.FileName.{sanitize_filename, unique_path}
use pigeon_cli.Ledger.{bytes_lt}
use pigeon_cli.Dedup.Manifest.{after_zip_separator}
use pigeon_cli.Base.FilePath

pub record HashedFile : Type 0 where
  pub original_key : List ℕ
  pub bucket_alias : List ℕ
  pub scratch_path : List ℕ
  pub extension : List ℕ
  pub content_hash : List ℕ

pub record MergeRecord : Type 0 where
  pub duplicate_key : List ℕ
  pub duplicate_bucket_alias : List ℕ
  pub kept_path : List ℕ
  pub kept_original_key : List ℕ
  pub kept_bucket_alias : List ℕ
  pub content_hash : List ℕ

pub record PlacementSummary : Type 0 where
  pub placed : ℕ
  pub duplicates_skipped : ℕ
  pub failed : ℕ

abbrev pub or_else : List ℕ → Option (List ℕ) → List ℕ
or_else s none = s
or_else s (some t) = t

-- The name of the file, or all behind the last separator of an archive.
unfoldable pub name_of_key : List ℕ → List ℕ
unfolding after_zip_separator FilePath.file_name
name_of_key key = or_else (after_zip_separator key) (FilePath.file_name (after_zip_separator key))

unfoldable pub is_undated_key : List ℕ → Bool
unfolding name_of_key
is_undated_key key = starts_with (codes "0000-00-00-") (name_of_key key)

-- The closure of `sort_by`: the comparison of the flags, then that of the keys.
abbrev pub ordered : Bool → Bool → Bool → Bool
ordered true true lt = lt
ordered true false lt = false
ordered false true lt = true
ordered false false lt = lt

-- Whether `a` comes strictly in front of `b`.
unfoldable pub in_front : List ℕ → List ℕ → Bool
unfolding is_undated_key bytes_lt
in_front a b = ordered (is_undated_key a) (is_undated_key b) (bytes_lt a b)

-- A stable sort.
unfoldable pub insert_file : HashedFile → List HashedFile → List HashedFile
unfolding in_front
insert_file f [] = f ∷ []
insert_file f (g ∷ gs) =
    let rest = insert_file f gs in
    if in_front g.original_key f.original_key then g ∷ rest else f ∷ g ∷ gs

unfoldable pub sort_files : List HashedFile → List HashedFile
unfolding insert_file
sort_files [] = []
sort_files (f ∷ fs) = insert_file f (sort_files fs)

-- What the file system answers for one file: whether its directory can be made, whether it can
-- be moved, and what becomes of the row of the index.
pub record Answers : Type 0 where
  pub made : Bool
  pub moved : Bool
  pub row : Write

-- The names under the result directory, by their extension; the scratch files; the index.
pub record Store : Type 0 where
  pub results : List (List ℕ × List ℕ)
  pub scratch : List (List ℕ)
  pub index : ContentIndex

unfoldable pub without : List ℕ → List (List ℕ) → List (List ℕ)
without path [] = []
without path (p ∷ ps) = let rest = without path ps in if bytes_eq p path then rest else p ∷ rest

abbrev pub is_used : List (List ℕ × List ℕ) → List ℕ → List ℕ → Bool
is_used results ext name =
    any (λ (r : List ℕ × List ℕ). bytes_eq r.0 ext && bytes_eq r.1 name) results

-- Fuel for `unique_path`: one name more than there are, as long as its counter does not overflow.
unfoldable pub final_name : Store → HashedFile → Option (List ℕ)
unfolding unique_path sanitize_filename name_of_key
final_name s f =
    unique_path (suc (length s.results)) (is_used s.results f.extension)
      (sanitize_filename (name_of_key f.original_key))

abbrev pub entry_at : HashedFile → List ℕ → ContentIndexEntry
entry_at f name = record {
  relative_path = f.extension ++ (b'/' ∷ name);
  original_key = f.original_key;
  source_bucket_alias = f.bucket_alias;
}

abbrev pub commit_in : Write → HashedFile → List ℕ → Store → Result (Unit {0}) (Unit {0}) × Store
commit_in row f name s =
    let (outcome, index) = commit row f.content_hash (entry_at f name) s.index in
    (outcome, record s { index = index })

abbrev pub move_to :
    Answers → HashedFile → Option (List ℕ) → Store → Result (Unit {0}) (Unit {0}) × Store
move_to a f none s = (err tt, s)
move_to a f (some name) s =
    if a.moved
    then commit_in a.row f name (record s {
      results = (f.extension, name) ∷ s.results;
      scratch = without f.scratch_path s.scratch;
    })
    else (err tt, s)

unfoldable pub place_one : Answers → HashedFile → Store → Result (Unit {0}) (Unit {0}) × Store
unfolding final_name commit without
place_one a f s = if a.made then move_to a f (final_name s f) s else (err tt, s)

-- The loop's variables.
pub record Placing : Type 0 where
  pub store : Store
  pub summary : PlacementSummary
  pub records : List MergeRecord
  pub finished_keys : List (List ℕ × List ℕ)

abbrev pub merge_record : HashedFile → ContentIndexEntry → MergeRecord
merge_record f kept = record {
  duplicate_key = f.original_key;
  duplicate_bucket_alias = f.bucket_alias;
  kept_path = kept.relative_path;
  kept_original_key = kept.original_key;
  kept_bucket_alias = kept.source_bucket_alias;
  content_hash = f.content_hash;
}

abbrev pub skip_duplicate : HashedFile → ContentIndexEntry → Placing → Placing
skip_duplicate f kept p = record {
  store = record p.store { scratch = without f.scratch_path p.store.scratch };
  summary = record p.summary { duplicates_skipped = p.summary.duplicates_skipped + 1 };
  records = p.records ++ (merge_record f kept ∷ []);
  finished_keys = p.finished_keys ++ ((f.bucket_alias, f.original_key) ∷ []);
}

abbrev pub count_placed : HashedFile → Result (Unit {0}) (Unit {0}) × Store → Placing → Placing
count_placed f (err e, store) p = record p {
  store = store;
  summary = record p.summary { failed = p.summary.failed + 1 };
}
count_placed f (ok done, store) p = record p {
  store = store;
  summary = record p.summary { placed = p.summary.placed + 1 };
  finished_keys = p.finished_keys ++ ((f.bucket_alias, f.original_key) ∷ []);
}

-- One round of the loop, after the look into the index.
unfoldable pub place_checked :
    (HashedFile → Answers) → HashedFile → Option ContentIndexEntry → Placing → Placing
unfolding place_one without
place_checked answers f (some kept) p = skip_duplicate f kept p
place_checked answers f none p = count_placed f (place_one (answers f) f p.store) p

unfoldable pub place_next : (HashedFile → Answers) → HashedFile → Placing → Placing
unfolding place_checked check
place_next answers f p = place_checked answers f (check f.content_hash p.store.index) p

unfoldable pub place_each : (HashedFile → Answers) → List HashedFile → Placing → Placing
unfolding place_next
place_each answers [] p = p
place_each answers (f ∷ fs) p = place_each answers fs (place_next answers f p)

abbrev pub nothing_placed : Store → Placing
nothing_placed s = record {
  store = s;
  summary = record { placed = 0; duplicates_skipped = 0; failed = 0 };
  records = [];
  finished_keys = [];
}

unfoldable pub place_and_report : (HashedFile → Answers) → List HashedFile → Store → Placing
unfolding place_each sort_files
place_and_report answers files s = place_each answers (sort_files files) (nothing_placed s)

pub record ArchiveFailure : Type 0 where
  pub key : List ℕ
  pub error : List ℕ

abbrev pub tabbed : List (List ℕ) → List ℕ
tabbed [] = []
tabbed (s ∷ []) = s ++ (10 ∷ [])
tabbed (s ∷ t ∷ ss) = s ++ (9 ∷ tabbed (t ∷ ss))

abbrev pub record_lines : List MergeRecord → List ℕ
record_lines [] = []
record_lines (r ∷ rs) =
    tabbed (
      r.duplicate_key ∷ r.content_hash ∷ r.kept_path ∷ r.kept_original_key
      ∷ r.duplicate_bucket_alias ∷ r.kept_bucket_alias ∷ [])
    ++ record_lines rs

abbrev pub failure_lines : List ArchiveFailure → List ℕ
failure_lines [] = []
failure_lines (f ∷ fs) = tabbed (f.key ∷ f.error ∷ []) ++ failure_lines fs

-- The text that `write_report` writes.
unfoldable pub write_report : List MergeRecord → List ArchiveFailure → List ℕ
unfolding show
write_report records archive_failures =
    codes
      "duplicate_key\tcontent_hash\tkept_path\tkept_original_key\tduplicate_bucket_alias\tkept_bucket_alias\n"
    ++ (record_lines records
        ++ (codes "\n"
            ++ (show (length records)
                ++ (codes " duplicate(s) removed.\n"
                    ++ (codes "\n"
                        ++ (show (length archive_failures)
                            ++ (codes
                                  " archive(s) need manual attention (password-protected or corrupt -- open and resolve by hand, then re-run):\n"
                                ++ failure_lines archive_failures)))))))
