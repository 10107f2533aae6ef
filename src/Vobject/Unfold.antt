-- ===== src/Vobject/Unfold.antt =====
-- `unfold`: the physical lines of a file, joined to logical ones.
pub mod RoundTrip
use pigeon_cli.Base.{ℕ, Bool, true, false, ◌&&◌, ◌||◌, List, [], ◌∷◌, ◌++◌, map}
use pigeon_cli.Base.Tests.{◌==◌, if◌then◌else◌}
use pigeon_cli.Base.Lists.{drop}
use pigeon_cli.Base.Text.{is_empty, split_on, strip_cr}
use pigeon_cli.Base.Strings.{starts_with, contains}
use pigeon_cli.Base.Ascii.{codes, to_upper}
use pigeon_cli.Base.Utf8.{from_utf8_lossy}

abbrev pub ends_in : ℕ → List ℕ → Bool
ends_in c [] = false
ends_in c (x ∷ []) = x == c
ends_in c (x ∷ y ∷ ys) = ends_in c (y ∷ ys)

abbrev pub pop : List ℕ → List ℕ
pop [] = []
pop (x ∷ []) = []
pop (x ∷ y ∷ ys) = x ∷ pop (y ∷ ys)

-- What stands in front of the first `c`, or all.
abbrev pub head_until : ℕ → List ℕ → List ℕ
head_until c [] = []
head_until c (x ∷ xs) = let rest = head_until c xs in if x == c then [] else x ∷ rest

unfoldable pub is_qp_line : List ℕ → Bool
unfolding from_utf8_lossy to_upper contains
is_qp_line line =
    contains (codes "QUOTED-PRINTABLE") (map to_upper (from_utf8_lossy (head_until b':' line)))

-- A line that a quoted-printable soft break ends.
unfoldable pub soft_break : List ℕ → Bool
unfolding is_qp_line
soft_break line = ends_in b'=' line && is_qp_line line

-- `logical` holds the lines so far, the last one in front.
abbrev pub is_blank_start : List ℕ → Bool
is_blank_start [] = false
is_blank_start (c ∷ cs) = c == b' ' || c == 9

abbrev pub rest_of : List ℕ → List ℕ
rest_of [] = []
rest_of (c ∷ cs) = cs

unfoldable pub breaks_softly : List (List ℕ) → Bool
unfolding soft_break
breaks_softly [] = false
breaks_softly (last ∷ front) = soft_break last

-- What a physical line makes of the logical ones, and whether the loop goes on at once.
unfoldable pub join_line : Bool → List ℕ → List (List ℕ) → List (List ℕ) × Bool
join_line in_soft_break line [] = if is_empty line then ([], true) else (line ∷ [], false)
join_line in_soft_break line (last ∷ front) =
    if in_soft_break
    then ((pop last ++ line) ∷ front, false)
    else if is_blank_start line
    then ((last ++ rest_of line) ∷ front, false)
    else if is_empty line
    then (last ∷ front, true)
    else (line ∷ last ∷ front, false)

unfoldable pub join_lines : Bool → List (List ℕ) → List (List ℕ) → List (List ℕ)
unfolding join_line strip_cr breaks_softly
join_lines in_soft_break [] logical = logical
join_lines in_soft_break (raw ∷ rest) logical =
    let (logical', skipped) = join_line in_soft_break (strip_cr raw) logical in
    join_lines (if skipped then false else breaks_softly logical') rest logical'

abbrev pub reverse_onto {ℓ} : {A : Type ℓ} → List A → List A → List A
reverse_onto [] ys = ys
reverse_onto (x ∷ xs) ys = reverse_onto xs (x ∷ ys)

abbrev pub without_mark : List ℕ → List ℕ
without_mark s = if starts_with (0xEF ∷ 0xBB ∷ 0xBF ∷ []) s then drop 3 s else s

-- The logical lines as bytes.
unfoldable pub unfold_bytes : List ℕ → List (List ℕ)
unfolding join_lines split_on
unfold_bytes bytes = reverse_onto (join_lines false (split_on 10 (without_mark bytes)) []) []

unfoldable pub unfold_ : List ℕ → List (List ℕ)
unfolding unfold_bytes from_utf8_lossy
unfold_ bytes = map from_utf8_lossy (unfold_bytes bytes)
