-- ===== src/Placement/Marker.antt =====
-- A marker that `sheet_destination_name` writes is read back.
use pigeon_cli.Base.{ℕ, ◌≤◌, ◌<◌, ◌≡◌, refl, false, some, List, [], ◌∷◌, ◌++◌, arith}
use pigeon_cli.Base.Tests.{u64_mod}
use pigeon_cli.Base.Text.{has, has-append, is_empty, split_once-append}
use pigeon_cli.Base.Decimal.{show_2, show_2-digits, show_2_cons, digits-has, parse_uint-show_2}
use pigeon_cli.Placement.Groups.{split_once_of, checked_marker, parse_sheet_marker}

split_once_of-append :
    (p rest : List ℕ)
    → has b'o' p ≡ false
    → split_once_of (p ++ (b'o' ∷ b'f' ∷ rest)) ≡ some (p, rest)
unfolding split_once_of
split_once_of-append [] rest h = refl
split_once_of-append (x ∷ []) rest h = ground arith
split_once_of-append (x ∷ y ∷ p) rest h = ground (arith, split_once_of-append (y ∷ p) rest)

filled : (s : List ℕ) → (c : ℕ) × (cs : List ℕ) × (s ≡ c ∷ cs) → is_empty s ≡ false
filled s (c, cs, e) = rw e

checked_marker-show :
    (i t : ℕ) → 1 ≤ i → i ≤ t → t < u64_mod → checked_marker (show_2 i) (show_2 t) ≡ some (i, t)
unfolding checked_marker
checked_marker-show i t lo hi fits =
    rw
      (
        filled (show_2 i) (show_2_cons i),
        filled (show_2 t) (show_2_cons t),
        show_2-digits i,
        show_2-digits t,
        parse_uint-show_2 u64_mod i (omega arith),
        parse_uint-show_2 u64_mod t fits,
      )
      (ground arith)

marker_no_dash : (i t : ℕ) → has b'-' (show_2 i ++ (b'o' ∷ b'f' ∷ show_2 t)) ≡ false
marker_no_dash i t = ground (
  arith,
  has-append b'-' (show_2 i) (b'o' ∷ b'f' ∷ show_2 t),
  digits-has b'-' (show_2 i) refl (show_2-digits i),
  digits-has b'-' (show_2 t) refl (show_2-digits t),
)

-- The marker of any sheet of a workbook, with whatever slug behind it, is read back as its
-- index and its total.
pub parse_sheet_marker-show :
    (i t : ℕ) (slug : List ℕ)
    → 1 ≤ i
    → i ≤ t
    → t < u64_mod
    → parse_sheet_marker (b'-' ∷ ((show_2 i ++ (b'o' ∷ b'f' ∷ show_2 t)) ++ (b'-' ∷ slug)))
      ≡ some (i, t)
unfolding parse_sheet_marker
parse_sheet_marker-show i t slug lo hi fits = ground (
  arith,
  split_once-append b'-' (show_2 i ++ (b'o' ∷ b'f' ∷ show_2 t)) slug (marker_no_dash i t),
  split_once_of-append (show_2 i) (show_2 t) (digits-has b'o' (show_2 i) refl (show_2-digits i)),
  checked_marker-show i t lo hi fits,
)
