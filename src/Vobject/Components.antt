-- ===== src/Vobject/Components.antt =====
-- `components`: the properties directly inside each component that is wanted.
pub mod Nesting
use pigeon_cli.Base.{ℕ, ◌+◌, Bool, true, false, ◌&&◌, Option, none, some, List, [], ◌∷◌, ◌++◌}
use pigeon_cli.Base.Tests.{◌==◌, if◌then◌else◌}
use pigeon_cli.Base.Lists.{length, drop, any}
use pigeon_cli.Base.Strings.{trim}
use pigeon_cli.Base.Ascii.{codes, bytes_eq, eq_ignore_ascii_case}
use pigeon_cli.Vobject.Unfold.{reverse_onto}
use pigeon_cli.Vobject.Property.{Property, uppercase}

-- `found` has the latest component in front, and each its latest property in front; the code has
-- both the other way round.
pub record Scan : Type 0 where
  pub found : List (List ℕ × List Property)
  pub stack : List (List ℕ)
  pub open_ : Option ℕ

abbrev pub wants : List (List ℕ) → List ℕ → Bool
wants wanted name = any (λ w. bytes_eq w name) wanted

abbrev pub push_onto : Property → List (List ℕ × List Property) → List (List ℕ × List Property)
push_onto p [] = []
push_onto p ((name, props) ∷ found) = (name, p ∷ props) ∷ found

abbrev pub is_at : Option ℕ → ℕ → Bool
is_at none n = false
is_at (some depth) n = depth == n

abbrev pub is_none : Option ℕ → Bool
is_none none = true
is_none (some depth) = false

abbrev pub begin_ : List (List ℕ) → List ℕ → Scan → Scan
begin_ wanted name s =
    let s' = record s { stack = name ∷ s.stack } in
    if is_none s.open_ && wants wanted name
    then record s' { found = (name, []) ∷ s.found; open_ = some (length s.stack) }
    else s'

abbrev pub end_ : Scan → Scan
end_ s =
    let s' = record s { stack = drop 1 s.stack } in
    if is_at s.open_ (length s'.stack) then record s' { open_ = none } else s'

abbrev pub inside : Property → Scan → Scan
inside p s = elim s.open_ [
  | none ↦ s
  | some depth ↦ if length s.stack == depth + 1 then record s { found = push_onto p s.found } else s
]

unfoldable pub scan_one : List (List ℕ) → Property → Scan → Scan
unfolding trim uppercase
scan_one wanted p s =
    if bytes_eq p.name (codes "BEGIN")
    then begin_ wanted (uppercase (trim p.value)) s
    else if bytes_eq p.name (codes "END")
    then end_ s
    else inside p s

unfoldable pub scan : List (List ℕ) → List Property → Scan → Scan
unfolding scan_one
scan wanted [] s = s
scan wanted (p ∷ ps) s = scan wanted ps (scan_one wanted p s)

abbrev pub nothing_open : Scan
nothing_open = record { found = []; stack = []; open_ = none }

abbrev pub in_order : List (List ℕ × List Property) → List (List ℕ × List Property)
in_order [] = []
in_order ((name, props) ∷ found) = in_order found ++ ((name, reverse_onto props []) ∷ [])

unfoldable pub components : List (List ℕ) → List Property → List (List ℕ × List Property)
unfolding scan
components wanted properties = in_order (scan wanted properties nothing_open).found

unfoldable pub first : List ℕ → List Property → Option Property
first name [] = none
first name (p ∷ ps) = if bytes_eq p.name name then some p else first name ps

-- `has_begin`
unfoldable pub has_begin : List ℕ → List Property → Bool
unfolding trim eq_ignore_ascii_case
has_begin component properties =
    any
      (λ (p : Property).
        bytes_eq p.name (codes "BEGIN") && eq_ignore_ascii_case (trim p.value) component)
      properties
