-- ===== src/Placement/Names.antt =====
-- `compute_destination_name`, `group_key` and `sheet_destination_name`.
use pigeon_cli.Base.{ℕ, Option, none, some, List, ◌∷◌, ◌++◌}
use pigeon_cli.Base.Tests.{if◌then◌else◌}
use pigeon_cli.Base.Lists.{take}
use pigeon_cli.Base.Decimal.{show_2}
use pigeon_cli.Base.FilePath.{file_stem}
use pigeon_cli.Data.Slug.{sheet_slug, strict_stem, file_word}
use pigeon_cli.Data.FileName.{sanitize_filename}
use pigeon_cli.Format.Kind.{InputFileType, output_extension, is_spreadsheet}

abbrev pub name_hash_hex_len : ℕ
name_hash_hex_len = 16

abbrev pub or_file : Option (List ℕ) → List ℕ
or_file none = file_word
or_file (some stem) = stem

module _ (sha256_hex : List ℕ → List ℕ) where
  unfoldable pub group_key : List ℕ → List ℕ → InputFileType → List ℕ
  unfolding file_stem strict_stem sanitize_filename is_spreadsheet
  group_key source_path relative_path kind =
      let raw_stem = or_file (file_stem relative_path) in
      let stem = if is_spreadsheet kind then strict_stem raw_stem else sanitize_filename raw_stem in
      let digest = sha256_hex (source_path ++ (1 ∷ relative_path)) in
      stem ++ (b'-' ∷ take name_hash_hex_len digest)

  unfoldable pub compute_destination_name : List ℕ → List ℕ → InputFileType → List ℕ
  unfolding group_key output_extension
  compute_destination_name source_path relative_path kind =
      group_key source_path relative_path kind ++ (b'.' ∷ output_extension kind)

-- The name of a sheet less its extension.
unfoldable pub sheet_stem : List ℕ → ℕ → ℕ → List ℕ → List ℕ
unfolding show_2 sheet_slug
sheet_stem group index total sheet_name =
    group
    ++ (b'-' ∷ ((show_2 index ++ (b'o' ∷ b'f' ∷ show_2 total)) ++ (b'-' ∷ sheet_slug sheet_name)))

unfoldable pub sheet_destination_name : List ℕ → ℕ → ℕ → List ℕ → InputFileType → List ℕ
unfolding sheet_stem output_extension
sheet_destination_name group index total sheet_name kind =
    sheet_stem group index total sheet_name ++ (b'.' ∷ output_extension kind)
