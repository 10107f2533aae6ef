-- ===== src/Data/Slug.antt =====
-- `slugify` and its two uses.
pub mod Shape
use pigeon_cli.Base.{
  ℕ, ◌+◌, ◌≤◌, Bool, true, false, not, ◌&&◌, ◌||◌, Option, none, some, List, [], ◌∷◌, ◌++◌,
}
use pigeon_cli.Base.Tests.{leb, ◌==◌, if◌then◌else◌}
use pigeon_cli.Base.Lists.{length}
use pigeon_cli.Base.Text.{is_empty}
use pigeon_cli.Base.Ascii.{codes, is_alphanumeric}
use pigeon_cli.Base.FilePath.{file_name}

unfoldable pub is_kept : ℕ → Bool
unfolding is_alphanumeric
is_kept ch = is_alphanumeric ch || ch == b'.' || ch == b'_' || ch == b'-'

-- `if pending_separator && !slug.is_empty() { slug.push('-'); }`
unfoldable pub separate : List ℕ → Bool → List ℕ
separate slug pending = if pending && not (is_empty slug) then slug ++ (b'-' ∷ []) else slug

-- The loop over the characters, with the slug so far and `pending_separator`.
unfoldable pub slug_loop : ℕ → List ℕ → List ℕ → Bool → List ℕ
slug_loop max_len [] slug pending = slug
slug_loop max_len (ch ∷ chars) slug pending =
    let slug' = separate slug pending in
    let keep = slug_loop max_len chars (slug' ++ (ch ∷ [])) false in
    let skip = slug_loop max_len chars slug true in
    if is_kept ch then (if leb max_len (length slug') then slug' else keep) else skip

-- `s.trim_matches('-')`
unfoldable pub trim_start : List ℕ → List ℕ
trim_start [] = []
trim_start (x ∷ xs) = let rest = trim_start xs in if x == b'-' then rest else x ∷ xs

unfoldable pub trim_end : List ℕ → List ℕ
trim_end [] = []
trim_end (x ∷ xs) = let rest = trim_end xs in if is_empty rest && x == b'-' then [] else x ∷ rest

unfoldable pub slugify : List ℕ → ℕ → List ℕ → List ℕ
unfolding is_kept separate slug_loop trim_start trim_end
slugify name max_len fallback =
    let trimmed = trim_start (trim_end (slug_loop max_len name [] false)) in
    if is_empty trimmed then fallback else trimmed

abbrev pub max_sheet_slug_length : ℕ
max_sheet_slug_length = 40

abbrev pub max_filename_length : ℕ
max_filename_length = 100

abbrev pub file_word : List ℕ
file_word = codes "file"

unfoldable pub sheet_slug : List ℕ → List ℕ
unfolding slugify
sheet_slug name = slugify name max_sheet_slug_length (codes "sheet")

unfoldable pub strict_stem : List ℕ → List ℕ
unfolding slugify file_name
strict_stem name = elim (file_name name) [
  | none ↦ file_word
  | some base ↦ if is_empty base then file_word else slugify base max_filename_length file_word
]
