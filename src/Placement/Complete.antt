-- ===== src/Placement/Complete.antt =====
-- `DestinationGroups::is_complete` on the listings that the program's own names make up.
use pigeon_cli.Base.{
  append-nil, ℕ, zero, suc, ◌≤◌, ◌<◌, ◌≡◌, refl, true, List, [], ◌∷◌, ◌++◌, arith, ap, ◌∙◌,
}
use pigeon_cli.Base.Tests.{if◌then◌else◌, u64_mod}
use pigeon_cli.Base.Lists.{length, length-take, All, take, all}
use pigeon_cli.Base.Ascii.{is_hexdigit}
use pigeon_cli.Base.FilePath.{file_stem}
use pigeon_cli.Data.Slug.{strict_stem}
use pigeon_cli.Data.FileName.{sanitize_filename}
use pigeon_cli.Format.Kind.{is_spreadsheet, InputFileType}
use pigeon_cli.Placement.Names.{or_file, name_hash_hex_len, group_key, compute_destination_name}
use pigeon_cli.Placement.Groups.{default, index, state_complete, is_complete}
use pigeon_cli.Placement.Candidates.{IsDigest}
use pigeon_cli.Placement.Count.{covers}
use pigeon_cli.Placement.Listing.{name_effect, listing_effect, is_complete-index}
use pigeon_cli.Placement.Sheets.{Entry, entry_names, indices, IsEntry, listing-Good, fresh-Good}
use pigeon_cli.Placement.Plain.{
  listing-plain, listing_effect-append, state_complete-plain, name_effect-plain,
}

all-take : (n : ℕ) (xs : List ℕ) → all is_hexdigit xs ≡ true → all is_hexdigit (take n xs) ≡ true
all-take zero xs h = refl
all-take (suc n) [] h = refl
all-take (suc n) (x ∷ xs) h = ground (arith, all-take n xs)

module _ (sha256_hex : List ℕ → List ℕ)
    (hex : (bytes : List ℕ)
      → (length (sha256_hex bytes) ≡ 64) × (all is_hexdigit (sha256_hex bytes) ≡ true)) where
  take-IsDigest : (bytes : List ℕ) → IsDigest (take name_hash_hex_len (sha256_hex bytes))
  take-IsDigest bytes =
      let (size, digits) = hex bytes in
      record {
        size = length-take name_hash_hex_len (sha256_hex bytes) (omega arith);
        hex = all-take name_hash_hex_len (sha256_hex bytes) digits;
      }

  -- A workbook of `total` sheets (at least one, and fewer than 2^64) is reported complete exactly
  -- when the listing holds every sheet from 1 to `total`, for a listing in any order of sheets of
  -- the workbook, with repetitions and under any sheet names, and of other files none of whose
  -- candidate groups is the workbook's. SHA-256 must answer with 64 hexadecimal digits.
  pub sheets_complete :
      (source_path relative_path : List ℕ) (kind : InputFileType) (total : ℕ) (es : List Entry)
      → 1 ≤ total
      → total < u64_mod
      → All (IsEntry (group_key sha256_hex source_path relative_path kind) total) es
      → is_complete
          (group_key sha256_hex source_path relative_path kind)
          (index (entry_names (group_key sha256_hex source_path relative_path kind) total kind es))
        ≡ covers total (indices es)
  unfolding group_key
  sheets_complete source_path relative_path kind total es pos fits each =
      let d = take-IsDigest (source_path ++ (1 ∷ relative_path)) in
      is_complete-index (group_key sha256_hex source_path relative_path kind)
        (entry_names (group_key sha256_hex source_path relative_path kind) total kind es)
      ∙ listing-Good _ (take name_hash_hex_len (sha256_hex (source_path ++ (1 ∷ relative_path))))
          total kind es default d pos fits each (fresh-Good total)
      ∙ ap (covers total) (append-nil (indices es))

  -- An input with a single output is reported complete as soon as its destination name stands
  -- anywhere in a listing, whatever the other names of the listing are. SHA-256 must answer with
  -- 64 hexadecimal digits.
  pub plain_complete :
      (source_path relative_path : List ℕ) (kind : InputFileType) (before after : List (List ℕ))
      → is_complete (group_key sha256_hex source_path relative_path kind) (
          index (
            before ++ (compute_destination_name sha256_hex source_path relative_path kind ∷ after)))
        ≡ true
  unfolding group_key compute_destination_name
  plain_complete source_path relative_path kind before after =
      let key = group_key sha256_hex source_path relative_path kind in
      let name = compute_destination_name sha256_hex source_path relative_path kind in
      is_complete-index key (before ++ (name ∷ after))
      ∙ ap state_complete (listing_effect-append key before (name ∷ after) default)
      ∙ state_complete-plain
          (listing_effect key after (name_effect key name (listing_effect key before default)))
          (listing-plain key after (name_effect key name (listing_effect key before default)) (
            name_effect-plain
              (if is_spreadsheet kind
                then strict_stem (or_file (file_stem relative_path))
                else sanitize_filename (or_file (file_stem relative_path)))
              (take name_hash_hex_len (sha256_hex (source_path ++ (1 ∷ relative_path)))) kind
              (listing_effect key before default)
              (take-IsDigest (source_path ++ (1 ∷ relative_path)))))
