-- ===== src/Base/Strings.antt =====
-- More of Rust's functions on texts: `contains`, `starts_with`, `trim`, on UTF-8 bytes.
use pigeon_cli.Base.{
  ℕ, zero, suc, ◌-◌, ◌≡◌, refl, ap, inl, inr, Bool, true, false, ◌&&◌, ◌||◌, Option, none, some,
  List, [], ◌∷◌, ◌++◌,
}
use pigeon_cli.Base.Tests.{leb, ◌==◌, if◌then◌else◌, Bool-cases}
use pigeon_cli.Base.Lists.{length, take, drop, any}
use pigeon_cli.Base.Text.{cons_first, split_on, split_on_cons}
use pigeon_cli.Base.Ascii.{bytes_eq}

abbrev pub starts_with : List ℕ → List ℕ → Bool
starts_with [] s = true
starts_with (p ∷ ps) [] = false
starts_with (p ∷ ps) (x ∷ xs) = x == p && starts_with ps xs

-- `s.strip_suffix(suffix)`
abbrev pub strip_suffix : List ℕ → List ℕ → Option (List ℕ)
strip_suffix suffix s =
    if leb (length suffix) (length s) && bytes_eq (drop (length s - length suffix) s) suffix
    then some (take (length s - length suffix) s)
    else none

-- `s.contains(needle)`
unfoldable pub contains : List ℕ → List ℕ → Bool
contains needle [] = starts_with needle []
contains needle (x ∷ xs) = starts_with needle (x ∷ xs) || contains needle xs

-- The characters of the property White_Space that take two or three bytes.
abbrev wide_white : List (List ℕ)
wide_white =
    (194 ∷ 133 ∷ [])
    ∷ (194 ∷ 160 ∷ [])
    ∷ (225 ∷ 154 ∷ 128 ∷ [])
    ∷ (226 ∷ 128 ∷ 168 ∷ [])
    ∷ (226 ∷ 128 ∷ 169 ∷ [])
    ∷ (226 ∷ 128 ∷ 175 ∷ [])
    ∷ (226 ∷ 129 ∷ 159 ∷ [])
    ∷ (227 ∷ 128 ∷ 128 ∷ [])
    ∷ []

abbrev pub is_ascii_white : ℕ → Bool
is_ascii_white c = c == b' ' || (leb 9 c && leb c 13)

-- The en and em spaces, U+2000 to U+200A.
abbrev is_quad : List ℕ → Bool
is_quad (a ∷ b ∷ c ∷ s) = a == 226 && b == 128 && leb 128 c && leb c 138
is_quad _ = false

-- How many bytes the white space in front takes, if a text begins with one.
unfoldable pub white_size : List ℕ → ℕ
white_size [] = 0
white_size (c ∷ s) =
    if is_ascii_white c
    then 1
    else if any (λ w. starts_with w (c ∷ s)) (take 2 wide_white)
    then 2
    else if any (λ w. starts_with w (c ∷ s)) (drop 2 wide_white) || is_quad (c ∷ s)
    then 3
    else 0

-- On fuel: the length of the text is enough.
unfoldable pub skip_white : ℕ → List ℕ → List ℕ
unfolding white_size
skip_white zero s = s
skip_white (suc fuel) s = elim (white_size s) [
  | zero ↦ s
  | suc n ↦ skip_white fuel (drop (suc n) s)
]

unfoldable pub trim_start : List ℕ → List ℕ
unfolding skip_white
trim_start s = skip_white (length s) s

unfoldable pub trim_end : List ℕ → List ℕ
unfolding trim_start
trim_end [] = []
trim_end (x ∷ xs) =
    let rest = trim_end xs in elim (trim_start (x ∷ xs)) [ [] ↦ [] | y ∷ ys ↦ x ∷ rest ]

-- `s.trim()`
unfoldable pub trim : List ℕ → List ℕ
unfolding trim_start trim_end
trim s = trim_end (trim_start s)

-- The parts between the separators, less the last, and the last.
abbrev pub init : List (List ℕ) → List (List ℕ)
init [] = []
init (p ∷ []) = []
init (p ∷ q ∷ ps) = p ∷ init (q ∷ ps)

abbrev pub last_piece : List (List ℕ) → List ℕ
last_piece [] = []
last_piece (p ∷ []) = p
last_piece (p ∷ q ∷ ps) = last_piece (q ∷ ps)

pub init-append :
    (xs : List (List ℕ)) (q : List ℕ) (qs : List (List ℕ))
    → init (xs ++ (q ∷ qs)) ≡ xs ++ init (q ∷ qs)
init-append [] q qs = refl
init-append (x ∷ []) q qs = refl
init-append (x ∷ y ∷ xs) q qs = ap (λ (l : List (List ℕ)). x ∷ l) (init-append (y ∷ xs) q qs)

pub last_piece-append :
    (xs : List (List ℕ)) (q : List ℕ) (qs : List (List ℕ))
    → last_piece (xs ++ (q ∷ qs)) ≡ last_piece (q ∷ qs)
last_piece-append [] q qs = refl
last_piece-append (x ∷ []) q qs = refl
last_piece-append (x ∷ y ∷ xs) q qs = last_piece-append (y ∷ xs) q qs

-- Where a text goes on, its last piece goes on.
pub split_on-grow :
    (c : ℕ) (a b : List ℕ)
    → split_on c (a ++ b) ≡ init (split_on c a) ++ split_on c (last_piece (split_on c a) ++ b)
unfolding split_on
split_on-grow c [] b = refl
split_on-grow c (x ∷ a) b =
    let (q, qs, e) = split_on_cons c a in
    let ih : split_on c (a ++ b) ≡ init (q ∷ qs) ++ split_on c (last_piece (q ∷ qs) ++ b) =
      rw e at (split_on-grow c a b) in
    elim (Bool-cases (x == c)) [
      | inl at ↦ rw (at, e, ih) refl
      | inr off ↦ rw (off, e, ih) (grown q qs off)
    ]
  where
    grown :
        (q : List ℕ) (qs : List (List ℕ))
        → (x == c) ≡ false
        → cons_first x (init (q ∷ qs) ++ split_on c (last_piece (q ∷ qs) ++ b))
          ≡ init ((x ∷ q) ∷ qs) ++ split_on c (last_piece ((x ∷ q) ∷ qs) ++ b)
    grown q [] h = rw h refl
    grown q (r ∷ rs) h = refl

-- The whole pieces and the last one of a text that goes on.
pub split_on-pieces :
    (c : ℕ) (a b : List ℕ)
    → (init (split_on c (a ++ b))
        ≡ init (split_on c a) ++ init (split_on c (last_piece (split_on c a) ++ b)))
      × (last_piece (split_on c (a ++ b))
          ≡ last_piece (split_on c (last_piece (split_on c a) ++ b)))
split_on-pieces c a b =
    let (q, qs, e) = split_on_cons c (last_piece (split_on c a) ++ b) in
    rw (split_on-grow c a b, e)
      (init-append (init (split_on c a)) q qs, last_piece-append (init (split_on c a)) q qs)
