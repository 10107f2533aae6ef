-- ===== src/Data/Runs.antt =====
-- File names, slugs and the index at concrete inputs.
use pigeon_cli.Base.{
  arith, ◌||◌, ℕ, ◌≡◌, ◌⊎◌, refl, ◌≤◌, Bool, true, false, none, some, [], ◌∷◌, List,
}
use pigeon_cli.Base.Lists.{length}
use pigeon_cli.Base.Text.{has}
use pigeon_cli.Base.Ascii.{codes, bytes_eq}
use pigeon_cli.Base.Lines.{not_opened, whole}
use pigeon_cli.Base.Outcome.{ok}
use pigeon_cli.Data.Slug.{sheet_slug, strict_stem}
use pigeon_cli.Data.Slug.Shape.{IsSlug, slugs-IsSlug}
use pigeon_cli.Data.FileName.{
  sanitize_filename, candidate_name, unique_path, is_apple_double_basename, is_excel_lock_basename,
}
use pigeon_cli.Data.FileName.Bounds.{sanitize_filename_safe}
use pigeon_cli.Data.FileName.Unique.{IsFirstFree, unique_path_free}
use pigeon_cli.Data.ContentIndex.{ContentIndexEntry, ContentIndex, load}
use pigeon_cli.Data.ContentIndex.Durable.{
  Commit, attempt, commit_all, read_back, IsRow, load-commit_all,
}

sheet_slug_run : sheet_slug (codes "--Q1 (Normal, Reduced)") ≡ codes "Q1-Normal-Reduced"
unfolding sheet_slug
sheet_slug_run = refl

-- Runs of dashes that the name has itself stay.
sheet_slug_dashes : sheet_slug (codes "a - b") ≡ codes "a---b"
unfolding sheet_slug
sheet_slug_dashes = refl

sanitize_run : sanitize_filename (codes "../x/a.txt/") ≡ codes "a.txt"
unfolding sanitize_filename
sanitize_run = refl

sidecar_run :
    (is_apple_double_basename (codes "d/._a") ≡ true)
    × (is_excel_lock_basename (codes "~$b") ≡ true)
unfolding is_apple_double_basename is_excel_lock_basename
sidecar_run = (refl, refl)

slugs-IsSlug_example :
    IsSlug 40 (sheet_slug (codes "a, b")) × IsSlug 100 (strict_stem (codes "a, b"))
slugs-IsSlug_example = slugs-IsSlug (codes "a, b")

sanitize_filename_safe_example :
    (has b'/' (sanitize_filename (codes "a/b")) ≡ false)
    × (length (sanitize_filename (codes "a/b")) ≤ 100)
sanitize_filename_safe_example = sanitize_filename_safe (codes "a/b")

-- A directory that has the file and its first numbered copy.
abbrev taken : List ℕ → Bool
taken s = bytes_eq s (codes "a.txt") || bytes_eq s (codes "a-2.txt")

unique_path_free_example :
    (path : List ℕ) × (unique_path 2 taken (codes "a.txt") ≡ some path)
    × (taken path ≡ false)
    × ((path ≡ codes "a.txt")
        ⊎ ((m : ℕ) × (path ≡ candidate_name (codes "a.txt") m)
            × (taken (codes "a.txt") ≡ true)
            × IsFirstFree taken (codes "a.txt") 2 m))
unfolding candidate_name
unique_path_free_example = unique_path_free taken (codes "a.txt") 1 (omega arith) refl

abbrev photo : ContentIndexEntry
photo = record {
  relative_path = codes "jpg/a.jpg";
  original_key = codes "in/a.jpg";
  source_bucket_alias = codes "old";
}

abbrev empty : ContentIndex
empty = record { file = none; entries = [] }

abbrev history : List Commit
history = attempt whole (codes "c0ffee") photo ∷ attempt not_opened (codes "beef") photo ∷ []

photo-IsRow : (hash : List ℕ) → has 9 hash ≡ false → has 10 hash ≡ false → IsRow hash photo
photo-IsRow hash tab newline = record {
  hash_field = record { no_tab = tab; no_newline = newline };
  path_field = record { no_tab = refl; no_newline = refl };
  key_field = record { no_tab = refl; no_newline = refl };
  alias_field = record { no_tab = refl; no_newline = refl };
  no_cr = refl;
}

load-commit_all_example :
    load (read_back (commit_all history empty)) ≡ ok (commit_all history empty)
unfolding load
load-commit_all_example =
    load-commit_all history empty
      (
        refl,
        photo-IsRow (codes "c0ffee") refl refl,
        (refl, photo-IsRow (codes "beef") refl refl, tt),
      )
      (record { closed = refl; same = refl })
