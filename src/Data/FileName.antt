-- ===== src/Data/FileName.antt =====
-- `sanitize_filename`, the tests on base names, and `unique_path`.
pub mod Bounds
pub mod Unique
pub mod Enough
use pigeon_cli.Base.{
  ℕ, zero, suc, ◌+◌, ◌-◌, ◌≤◌, ◌<◌, Bool, true, false, not, min, ◌&&◌, ◌||◌, Option, none, some,
  List, [], ◌∷◌, ◌++◌,
}
use pigeon_cli.Base.Tests.{leb, ltb, ◌==◌, if◌then◌else◌}
use pigeon_cli.Base.Lists.{length, take, get_elem?}
use pigeon_cli.Base.Text.{is_empty, split_on, rsplit_once}
use pigeon_cli.Base.Strings.{starts_with, last_piece}
use pigeon_cli.Base.Ascii.{codes}
use pigeon_cli.Base.Decimal.{show}
use pigeon_cli.Base.FilePath.{file_name, split_name}
use pigeon_cli.Data.Slug.{max_filename_length, file_word}

-- A byte that continues a UTF-8 character.
abbrev pub is_continuation : ℕ → Bool
is_continuation b = leb 0x80 b && ltb b 0xC0

-- `s.is_char_boundary(end)`
unfoldable pub is_char_boundary : List ℕ → ℕ → Bool
is_char_boundary s zero = true
is_char_boundary s (suc i) = elim (get_elem? s (suc i)) [
  | none ↦ length s == suc i
  | some b ↦ not (is_continuation b)
]

-- `while end > 0 && !s.is_char_boundary(end) { end -= 1; }`
unfoldable pub boundary_below : List ℕ → ℕ → ℕ
unfolding is_char_boundary
boundary_below s zero = zero
boundary_below s (suc i) =
    let lower = boundary_below s i in if is_char_boundary s (suc i) then suc i else lower

unfoldable pub truncate_at_char_boundary : List ℕ → ℕ → List ℕ
unfolding boundary_below
truncate_at_char_boundary s max_bytes = take (boundary_below s (min max_bytes (length s))) s

unfoldable pub truncate_preserving_extension : List ℕ → ℕ → List ℕ
unfolding truncate_at_char_boundary rsplit_once
truncate_preserving_extension name max_len =
    if leb (length name) max_len then name else elim (rsplit_once b'.' name) [
      | none ↦ truncate_at_char_boundary name max_len
      | some (stem, ext) ↦
          if not (is_empty ext) && ltb (length ext + 1) max_len
          then truncate_at_char_boundary stem (max_len - length ext - 1) ++ (b'.' ∷ ext)
          else truncate_at_char_boundary name max_len
    ]

unfoldable pub sanitize_filename : List ℕ → List ℕ
unfolding truncate_preserving_extension file_name
sanitize_filename name = elim (file_name name) [
  | none ↦ file_word
  | some base ↦
      if is_empty base then file_word else truncate_preserving_extension base max_filename_length
]

-- `key.rsplit('/').next()` is the last piece of a split.
unfoldable pub is_apple_double_basename : List ℕ → Bool
unfolding split_on
is_apple_double_basename key = starts_with (codes "._") (last_piece (split_on b'/' key))

unfoldable pub is_excel_lock_basename : List ℕ → Bool
unfolding split_on
is_excel_lock_basename key = starts_with (codes "~$") (last_piece (split_on b'/' key))

-- The names that `unique_path` tries in the directory of `desired`, for n = 2, 3, ...
unfoldable pub candidate_name : List ℕ → ℕ → List ℕ
unfolding split_name show
candidate_name name n =
    let (stem, ext) = split_name name in
    elim ext [ none ↦ stem ++ (b'-' ∷ show n) | some e ↦ stem ++ (b'-' ∷ show n) ++ (b'.' ∷ e) ]

-- The counter is an `i32`, which stays below 2 ^ 31.
abbrev pub counter_mod : ℕ
counter_mod = 2147483648

-- The loop on fuel; `none` means that the fuel ran out or that the counter overflows, which ends a
-- debug build with a panic and is not followed further.
unfoldable pub free_from : (List ℕ → Bool) → List ℕ → ℕ → ℕ → Option (List ℕ)
unfolding candidate_name
free_from exists name zero n = none
free_from exists name (suc fuel) n =
    let later = free_from exists name fuel (n + 1) in
    if exists (candidate_name name n)
    then (if ltb (n + 1) counter_mod then later else none)
    else some (candidate_name name n)

-- `unique_path` in one directory: `exists` says which names it has.
unfoldable pub unique_path : ℕ → (List ℕ → Bool) → List ℕ → Option (List ℕ)
unfolding free_from
unique_path fuel exists name = if exists name then free_from exists name fuel 2 else some name
