-- ===== src/Data/FileName/Bounds.antt =====
-- What `sanitize_filename` guarantees of an untrusted name.
use pigeon_cli.Base.{
  ℕ, zero, suc, ◌+◌, ◌-◌, ◌≤◌, ◌≡◌, refl, inl, inr, false, not, min, ◌&&◌, Option, none, some, List,
  [], ◌∷◌, ◌++◌, arith,
}
use pigeon_cli.Base.Tests.{leb→le, leb, ltb, if◌then◌else◌, Bool-cases}
use pigeon_cli.Base.Lists.{All, length, take, length-take, length-append}
use pigeon_cli.Base.Text.{
  is_empty, has, has-append, split_on-has, rsplit_once_parts, split_on, rsplit_once,
}
use pigeon_cli.Base.FilePath.{file_name, last_part, dot_dot}
use pigeon_cli.Base.Ascii.{bytes_eq}
use pigeon_cli.Data.Slug.{max_filename_length, file_word}
use pigeon_cli.Data.FileName.{
  boundary_below, truncate_at_char_boundary, truncate_preserving_extension, sanitize_filename,
}

boundary_below-le : (s : List ℕ) (n : ℕ) → boundary_below s n ≤ n
unfolding boundary_below
boundary_below-le s zero = omega arith
boundary_below-le s (suc n) = ground (arith, boundary_below-le s n)

length-truncate : (s : List ℕ) (n : ℕ) → length (truncate_at_char_boundary s n) ≤ n
unfolding truncate_at_char_boundary
length-truncate s n =
    let cut = boundary_below-le s (min n (length s)) in
    omega (arith, cut, length-take (boundary_below s (min n (length s))) s (omega (arith, cut)))

has-take : (c n : ℕ) (s : List ℕ) → has c s ≡ false → has c (take n s) ≡ false
has-take c zero s h = refl
has-take c (suc n) [] h = refl
has-take c (suc n) (x ∷ s) h = ground (arith, has-take c n s)

abbrev IsPlain : List ℕ → Type 0
IsPlain s = has b'/' s ≡ false

length-preserving : (name : List ℕ) (m : ℕ) → length (truncate_preserving_extension name m) ≤ m
unfolding truncate_preserving_extension
length-preserving name m = elim (Bool-cases (leb (length name) m)) [
  | inl short ↦ rw short (leb→le _ _ short)
  | inr long ↦ rw long (cut (rsplit_once b'.' name))
]
  where
    cut :
        (r : Option (List ℕ × List ℕ))
        → length (elim r [
          | none ↦ truncate_at_char_boundary name m
          | some (stem, ext) ↦
              if not (is_empty ext) && ltb (length ext + 1) m
              then truncate_at_char_boundary stem (m - length ext - 1) ++ (b'.' ∷ ext)
              else truncate_at_char_boundary name m
        ])
          ≤ m
    cut none = length-truncate name m
    cut (some (stem, ext)) = ground (
      arith,
      length-truncate name m,
      length-truncate stem (m - length ext - 1),
      length-append (truncate_at_char_boundary stem (m - length ext - 1)) (b'.' ∷ ext),
    )

truncate-IsPlain : (s : List ℕ) (n : ℕ) → IsPlain s → IsPlain (truncate_at_char_boundary s n)
unfolding truncate_at_char_boundary
truncate-IsPlain s n h = has-take b'/' _ s h

split-IsPlain :
    (name stem ext : List ℕ)
    → rsplit_once b'.' name ≡ some (stem, ext)
    → IsPlain name
    → IsPlain stem × IsPlain ext
split-IsPlain name stem ext e h =
    let (whole, _) = rsplit_once_parts b'.' name stem ext e in
    ground (arith, whole, has-append b'/' stem (b'.' ∷ ext))

preserving-IsPlain :
    (name : List ℕ) (m : ℕ) → IsPlain name → IsPlain (truncate_preserving_extension name m)
unfolding truncate_preserving_extension
preserving-IsPlain name m h = elim (Bool-cases (leb (length name) m)) [
  | inl short ↦ rw short h
  | inr long ↦ rw long (cut (rsplit_once b'.' name) refl)
]
  where
    cut :
        (r : Option (List ℕ × List ℕ))
        → rsplit_once b'.' name ≡ r
        → IsPlain (elim r [
          | none ↦ truncate_at_char_boundary name m
          | some (stem, ext) ↦
              if not (is_empty ext) && ltb (length ext + 1) m
              then truncate_at_char_boundary stem (m - length ext - 1) ++ (b'.' ∷ ext)
              else truncate_at_char_boundary name m
        ])
    cut none e = truncate-IsPlain name m h
    cut (some (stem, ext)) e =
        let (plain, plain') = split-IsPlain name stem ext e h in
        ground (
          arith,
          truncate-IsPlain name m h,
          truncate-IsPlain stem (m - length ext - 1) plain,
          has-append b'/' (truncate_at_char_boundary stem (m - length ext - 1)) (b'.' ∷ ext),
        )

last_part_of :
    (ps : List (List ℕ)) (q : List ℕ) → All IsPlain ps → last_part ps ≡ some q → IsPlain q
unfolding last_part
last_part_of [] q h e = cc
last_part_of (p ∷ ps) q (h, hs) e = ground (arith, last_part_of ps q hs)

file_name-IsPlain : (path base : List ℕ) → file_name path ≡ some base → IsPlain base
unfolding file_name
file_name-IsPlain path base e =
    go (last_part (split_on b'/' path))
      (last_part_of (split_on b'/' path) base (split_on-has b'/' path)) e
  where
    go :
        (r : Option (List ℕ))
        → (r ≡ some base → IsPlain base)
        → (elim r [ none ↦ none | some p ↦ if bytes_eq p dot_dot then none else some p ])
          ≡ some base
        → IsPlain base
    go none from e = cc
    go (some p) from e = from (ground arith)

-- Whatever the name: the result holds no `/`, so that it names one component of a path, and has
-- at most 100 bytes.
pub sanitize_filename_safe :
    (name : List ℕ)
    → (has b'/' (sanitize_filename name) ≡ false)
      × (length (sanitize_filename name) ≤ max_filename_length)
unfolding sanitize_filename
sanitize_filename_safe name = go (file_name name) refl
  where
    go :
        (r : Option (List ℕ))
        → file_name name ≡ r
        → (has b'/' (elim r [
          | none ↦ file_word
          | some base ↦ if is_empty base then file_word else truncate_preserving_extension base 100
        ])
            ≡ false)
          × (length (elim r [
            | none ↦ file_word
            | some base ↦
                if is_empty base then file_word else truncate_preserving_extension base 100
          ])
              ≤ 100)
    go none e = (refl, omega arith)
    go (some base) e = ground (
      arith,
      preserving-IsPlain base 100 (file_name-IsPlain name base e),
      length-preserving base 100,
    )
