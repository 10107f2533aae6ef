-- ===== src/Base/Text.antt =====
-- The text operations of Rust's standard library that the modules share, on lists of bytes.
use Prim.Native.Nat.{ℕ}
use mathlib.Core.Path.{◌≡◌, refl, ap}
use mathlib.Core.Logic.{inl, inr}
use mathlib.Core.Bool.{Bool, true, false, ◌||◌}
use mathlib.Core.Option.{Option, none, some}
use mathlib.Core.List.{List, [], ◌∷◌, ◌++◌}
use native.Mathlib.Omega.{arith}
use pigeon_cli.Base.Tests.{◌==◌, if◌then◌else◌, Bool-cases}
use pigeon_cli.Base.Lists.{any, All}

abbrev pub has : ℕ → List ℕ → Bool
has c = any (λ x. x == c)

abbrev pub is_empty : List ℕ → Bool
is_empty [] = true
is_empty (x ∷ xs) = false

abbrev pub cons_first : ℕ → List (List ℕ) → List (List ℕ)
cons_first x [] = (x ∷ []) ∷ []
cons_first x (p ∷ ps) = (x ∷ p) ∷ ps

-- `s.split(c)`: one piece more than there are separators.
unfoldable pub split_on : ℕ → List ℕ → List (List ℕ)
split_on c [] = [] ∷ []
split_on c (x ∷ xs) = let rest = split_on c xs in if x == c then [] ∷ rest else cons_first x rest

abbrev pub with_front : ℕ → List ℕ × List ℕ → List ℕ × List ℕ
with_front x (a, b) = (x ∷ a, b)

abbrev pub map_front : ℕ → Option (List ℕ × List ℕ) → Option (List ℕ × List ℕ)
map_front x none = none
map_front x (some p) = some (with_front x p)

-- `s.split_once(c)`, at the first `c`.
unfoldable pub split_once : ℕ → List ℕ → Option (List ℕ × List ℕ)
split_once c [] = none
split_once c (x ∷ xs) =
    let later = map_front x (split_once c xs) in if x == c then some ([], xs) else later

abbrev pub last_or : ℕ → ℕ → List ℕ → Option (List ℕ × List ℕ) → Option (List ℕ × List ℕ)
last_or c x xs (some p) = some (with_front x p)
last_or c x xs none = if x == c then some ([], xs) else none

-- `s.rsplit_once(c)`, at the last `c`.
unfoldable pub rsplit_once : ℕ → List ℕ → Option (List ℕ × List ℕ)
rsplit_once c [] = none
rsplit_once c (x ∷ xs) = last_or c x xs (rsplit_once c xs)

-- `s.strip_prefix(p)`
unfoldable pub strip_prefix : List ℕ → List ℕ → Option (List ℕ)
strip_prefix [] s = some s
strip_prefix (p ∷ ps) [] = none
strip_prefix (p ∷ ps) (x ∷ xs) = let rest = strip_prefix ps xs in if x == p then rest else none

-- A line without the `\r` of a `\r\n`.
unfoldable pub strip_cr : List ℕ → List ℕ
strip_cr [] = []
strip_cr (x ∷ []) = if x == 13 then [] else x ∷ []
strip_cr (x ∷ y ∷ ys) = x ∷ strip_cr (y ∷ ys)

-- All pieces but the last ended in a newline; the last is a line only if it is not empty.
unfoldable pub terminated : List (List ℕ) → List (List ℕ)
unfolding strip_cr
terminated [] = []
terminated (p ∷ []) = if is_empty p then [] else p ∷ []
terminated (p ∷ q ∷ ps) = strip_cr p ∷ terminated (q ∷ ps)

-- `s.lines()`
unfoldable pub lines : List ℕ → List (List ℕ)
unfolding split_on terminated
lines s = terminated (split_on 10 s)

pub has-append : (c : ℕ) (xs ys : List ℕ) → has c (xs ++ ys) ≡ (has c xs || has c ys)
has-append c [] ys = refl
has-append c (x ∷ xs) ys = ground (arith, has-append c xs ys)

pub split_on-append :
    (c : ℕ) (p rest : List ℕ) → has c p ≡ false → split_on c (p ++ (c ∷ rest)) ≡ p ∷ split_on c rest
unfolding split_on
split_on-append c [] rest h = ground arith
split_on-append c (x ∷ p) rest h = ground (arith, split_on-append c p rest)

pub split_on_none : (c : ℕ) (p : List ℕ) → has c p ≡ false → split_on c p ≡ p ∷ []
unfolding split_on
split_on_none c [] h = refl
split_on_none c (x ∷ p) h = ground (arith, split_on_none c p)

pub split_once-append :
    (c : ℕ) (p rest : List ℕ) → has c p ≡ false → split_once c (p ++ (c ∷ rest)) ≡ some (p, rest)
unfolding split_once
split_once-append c [] rest h = ground arith
split_once-append c (x ∷ p) rest h = ground (arith, split_once-append c p rest)

pub rsplit_once_absent : (c : ℕ) (p : List ℕ) → has c p ≡ false → rsplit_once c p ≡ none
unfolding rsplit_once
rsplit_once_absent c [] h = refl
rsplit_once_absent c (x ∷ p) h = ground (arith, rsplit_once_absent c p)

pub rsplit_once-append :
    (c : ℕ) (p rest : List ℕ)
    → has c rest ≡ false
    → rsplit_once c (p ++ (c ∷ rest)) ≡ some (p, rest)
unfolding rsplit_once
rsplit_once-append c [] rest h = ground (arith, rsplit_once_absent c rest)
rsplit_once-append c (x ∷ p) rest h = ground (arith, rsplit_once-append c p rest)

pub strip_prefix-append : (p s : List ℕ) → strip_prefix p (p ++ s) ≡ some s
unfolding strip_prefix
strip_prefix-append [] s = refl
strip_prefix-append (x ∷ p) s = ground (arith, strip_prefix-append p s)

-- A text that does not end in `\r` is its own line.
abbrev pub ends_in_cr : List ℕ → Bool
ends_in_cr [] = false
ends_in_cr (x ∷ []) = x == 13
ends_in_cr (x ∷ y ∷ ys) = ends_in_cr (y ∷ ys)

pub strip_cr_none : (s : List ℕ) → ends_in_cr s ≡ false → strip_cr s ≡ s
unfolding strip_cr
strip_cr_none [] h = refl
strip_cr_none (x ∷ []) h = ground arith
strip_cr_none (x ∷ y ∷ ys) h = ap (λ (l : List ℕ). x ∷ l) (strip_cr_none (y ∷ ys) h)

pub split_on_cons :
    (c : ℕ) (s : List ℕ) → (q : List ℕ) × (qs : List (List ℕ)) × (split_on c s ≡ q ∷ qs)
unfolding split_on
split_on_cons c [] = ([], [], refl)
split_on_cons c (x ∷ xs) =
    let (q, qs, e) = split_on_cons c xs in
    elim (Bool-cases (x == c)) [
      | inl at ↦ ([], split_on c xs, rw at)
      | inr off ↦ (x ∷ q, qs, rw (off, e))
    ]

-- The first line of a text that begins with a whole one.
pub lines-append :
    (line rest : List ℕ)
    → has 10 line ≡ false
    → ends_in_cr line ≡ false
    → lines (line ++ (10 ∷ rest)) ≡ line ∷ lines rest
unfolding lines
lines-append line rest h cr =
    let (q, qs, e) = split_on_cons 10 rest in
    rw (split_on-append 10 line rest h, e)
      (ap (λ (l : List ℕ). l ∷ terminated (q ∷ qs)) (strip_cr_none line cr))

rsplit_once-none : (c : ℕ) (s : List ℕ) → rsplit_once c s ≡ none → has c s ≡ false
unfolding rsplit_once
rsplit_once-none c [] h = refl
rsplit_once-none c (x ∷ xs) h = ground (arith, rsplit_once-none c xs)

-- The parts of a split at the last `c` make up the text, and the second holds no `c`.
pub rsplit_once_parts :
    (c : ℕ) (s a b : List ℕ)
    → rsplit_once c s ≡ some (a, b)
    → (s ≡ a ++ (c ∷ b)) × (has c b ≡ false)
unfolding rsplit_once
rsplit_once_parts c [] a b h = cc
rsplit_once_parts c (x ∷ xs) a b h = go (rsplit_once c xs) refl h (rsplit_once_parts c xs)
  where
    go :
        (r : Option (List ℕ × List ℕ))
        → rsplit_once c xs ≡ r
        → last_or c x xs r ≡ some (a, b)
        → ((a' b' : List ℕ)
            → rsplit_once c xs ≡ some (a', b')
            → (xs ≡ a' ++ (c ∷ b')) × (has c b' ≡ false))
        → (x ∷ xs ≡ a ++ (c ∷ b)) × (has c b ≡ false)
    go none e h ih = ground (arith, rsplit_once-none c xs e)
    go (some (a', b')) e h ih = ground (arith, ih a' b')

cons_first-has :
    (c x : ℕ) (ps : List (List ℕ))
    → (x == c) ≡ false
    → All (λ p. has c p ≡ false) ps
    → All (λ p. has c p ≡ false) (cons_first x ps)
cons_first-has c x [] off h = (ground arith, tt)
cons_first-has c x (p ∷ ps) off (h, hs) = (ground arith, hs)

-- No piece of a split holds the separator.
pub split_on-has : (c : ℕ) (s : List ℕ) → All (λ p. has c p ≡ false) (split_on c s)
unfolding split_on
split_on-has c [] = (refl, tt)
split_on-has c (x ∷ xs) = elim (Bool-cases (x == c)) [
  | inl at ↦ rw at (refl, split_on-has c xs)
  | inr off ↦ rw off (cons_first-has c x (split_on c xs) off (split_on-has c xs))
]
