-- ===== src/Base/FilePath.antt =====
-- `std::path::Path` on Unix, as far as the program uses it, on lists of bytes.
use pigeon_cli.Base.Tests.{if◌then◌else◌}
use pigeon_cli.Base.Text.{is_empty, split_on, rsplit_once}
use pigeon_cli.Base.Ascii.{bytes_eq}
use Prim.Native.Nat.{ℕ}
use mathlib.Core.Bool.{◌||◌}
use mathlib.Core.Option.{Option, none, some}
use mathlib.Core.List.{List, [], ◌∷◌}

abbrev pub dot : List ℕ
dot = b'.' ∷ []

abbrev pub dot_dot : List ℕ
dot_dot = b'.' ∷ b'.' ∷ []

-- The last part that is neither empty nor `.`.
unfoldable pub last_part : List (List ℕ) → Option (List ℕ)
last_part [] = none
last_part (p ∷ ps) = elim (last_part ps) [
  | some q ↦ some q
  | none ↦ if is_empty p || bytes_eq p dot then none else some p
]

-- `file_name`: the last component, if it is a name.
unfoldable pub file_name : List ℕ → Option (List ℕ)
unfolding split_on last_part
file_name path = elim (last_part (split_on b'/' path)) [
  | none ↦ none
  | some p ↦ if bytes_eq p dot_dot then none else some p
]

-- The stem and the extension of a file name: a dot in front of everything starts no extension.
unfoldable pub split_name : List ℕ → List ℕ × Option (List ℕ)
unfolding rsplit_once
split_name name = elim (rsplit_once b'.' name) [
  | none ↦ (name, none)
  | some (before, after) ↦ if is_empty before then (name, none) else (before, some after)
]

unfoldable pub file_stem : List ℕ → Option (List ℕ)
unfolding file_name split_name
file_stem path = elim (file_name path) [ none ↦ none | some name ↦ some (split_name name).0 ]

unfoldable pub extension : List ℕ → Option (List ℕ)
unfolding file_name split_name
extension path = elim (file_name path) [ none ↦ none | some name ↦ (split_name name).1 ]
