-- ===== src/Base/Decimal.antt =====
-- Decimal numbers: what `{}` and `{:02}` print and what `parse` of an unsigned type reads.
use Prim.Native.Nat.{ℕ, zero, suc, ◌+◌, ◌-◌, ◌*◌, ◌/◌, ◌%◌, ◌<◌}
use mathlib.Core.Path.{◌≡◌, refl, ◌∙◌}
use mathlib.Core.Logic.{inl, inr}
use mathlib.Core.Bool.{true, false, ◌&&◌}
use mathlib.Core.Option.{Option, none, some}
use mathlib.Core.List.{List, [], ◌∷◌, ◌++◌}
use native.Mathlib.Omega.{arith}
use pigeon_cli.Base.Tests.{ltb, ◌==◌, if◌then◌else◌, Bool-cases}
use pigeon_cli.Base.Lists.{all}
use pigeon_cli.Base.Text.{has}
use pigeon_cli.Base.Ascii.{is_digit}

-- The digits of `n`, on fuel: one digit more than enough is `n` itself.
unfoldable pub show_fuel : ℕ → ℕ → List ℕ
show_fuel zero n = []
show_fuel (suc fuel) n =
    let high = show_fuel fuel (n / 10) in
    if ltb n 10 then (48 + n) ∷ [] else high ++ ((48 + n % 10) ∷ [])

unfoldable pub show : ℕ → List ℕ
unfolding show_fuel
show n = show_fuel (suc n) n

-- `{:02}`
unfoldable pub show_2 : ℕ → List ℕ
show_2 n = if ltb n 10 then 48 ∷ show n else show n

unfoldable pub digits_from : ℕ → List ℕ → Option ℕ
digits_from acc [] = some acc
digits_from acc (c ∷ cs) =
    let rest = digits_from (acc * 10 + (c - 48)) cs in if is_digit c then rest else none

abbrev pub below : ℕ → Option ℕ → Option ℕ
below bound none = none
below bound (some n) = if ltb n bound then some n else none

abbrev after_sign : List ℕ → List ℕ
after_sign [] = []
after_sign (c ∷ []) = c ∷ []
after_sign (c ∷ d ∷ ds) = if c == b'+' then d ∷ ds else c ∷ d ∷ ds

-- `s.parse()` at an unsigned type of `bound` values: a sign `+` may stand in front of the digits.
unfoldable pub parse_uint : ℕ → List ℕ → Option ℕ
unfolding digits_from
parse_uint bound [] = none
parse_uint bound (c ∷ cs) = below bound (digits_from 0 (after_sign (c ∷ cs)))

abbrev onto : Option ℕ → ℕ → Option ℕ
onto none d = none
onto (some n) d = if is_digit d then some (n * 10 + (d - 48)) else none

digits_from-append :
    (acc : ℕ) (cs : List ℕ) (d : ℕ) → digits_from acc (cs ++ (d ∷ [])) ≡ onto (digits_from acc cs) d
unfolding digits_from
digits_from-append acc [] d = refl
digits_from-append acc (c ∷ cs) d = ground (arith, digits_from-append (acc * 10 + (c - 48)) cs d)

digits_from-show_fuel : (fuel n : ℕ) → n < fuel → digits_from 0 (show_fuel fuel n) ≡ some n
unfolding show_fuel
digits_from-show_fuel zero n h = absurd (omega arith)
digits_from-show_fuel (suc fuel) n h = elim (Bool-cases (ltb n 10)) [
  | inl small ↦ rw small (unfold digits_from in ground arith)
  | inr big ↦
      rw (big, digits_from-append)
        (rw (digits_from-show_fuel fuel (n / 10) (ground arith)) (ground arith))
]

all_digits-append :
    (xs : List ℕ) (d : ℕ) → all is_digit (xs ++ (d ∷ [])) ≡ (all is_digit xs && is_digit d)
all_digits-append [] d = ground arith
all_digits-append (x ∷ xs) d = ground (arith, all_digits-append xs d)

show_fuel-digits : (fuel n : ℕ) → all is_digit (show_fuel fuel n) ≡ true
unfolding show_fuel
show_fuel-digits zero n = refl
show_fuel-digits (suc fuel) n = ground (
  arith,
  show_fuel-digits fuel (n / 10),
  all_digits-append (show_fuel fuel (n / 10)) (48 + n % 10),
)

pub show-digits : (n : ℕ) → all is_digit (show n) ≡ true
unfolding show
show-digits n = show_fuel-digits (suc n) n

append_cons : (xs : List ℕ) (d : ℕ) → (c : ℕ) × (cs : List ℕ) × (xs ++ (d ∷ []) ≡ c ∷ cs)
append_cons [] d = (d, [], refl)
append_cons (x ∷ xs) d = (x, xs ++ (d ∷ []), refl)

pub show_cons : (n : ℕ) → (c : ℕ) × (cs : List ℕ) × (show n ≡ c ∷ cs)
unfolding show show_fuel
show_cons n = elim (Bool-cases (ltb n 10)) [
  | inl small ↦ (48 + n, [], rw small)
  | inr big ↦ let (c, cs, e) = append_cons (show_fuel n (n / 10)) (48 + n % 10) in (c, cs, rw big e)
]

-- Digits have no sign in front.
after_sign_digits : (s : List ℕ) → all is_digit s ≡ true → after_sign s ≡ s
after_sign_digits [] h = refl
after_sign_digits (c ∷ []) h = refl
after_sign_digits (c ∷ d ∷ ds) h = ground arith

pub parse_uint-digits :
    (bound n : ℕ) (s : List ℕ)
    → all is_digit s ≡ true
    → digits_from 0 s ≡ some n
    → (c : ℕ) × (cs : List ℕ) × (s ≡ c ∷ cs)
    → n < bound
    → parse_uint bound s ≡ some n
unfolding parse_uint
parse_uint-digits bound n [] h v (c, cs, e) lt = cc
parse_uint-digits bound n (x ∷ xs) h v e lt = rw (after_sign_digits (x ∷ xs) h, v) (ground arith)

-- A printed number is read back.
pub parse_uint-show : (bound n : ℕ) → n < bound → parse_uint bound (show n) ≡ some n
unfolding show
parse_uint-show bound n h =
    parse_uint-digits bound n (show n) (show-digits n)
      (digits_from-show_fuel (suc n) n (omega arith)) (show_cons n) h

pub show_2-digits : (n : ℕ) → all is_digit (show_2 n) ≡ true
unfolding show_2
show_2-digits n = ground (arith, show-digits n)

pub show_2_cons : (n : ℕ) → (c : ℕ) × (cs : List ℕ) × (show_2 n ≡ c ∷ cs)
unfolding show_2
show_2_cons n = elim (Bool-cases (ltb n 10)) [
  | inl small ↦ (48, show n, rw small)
  | inr big ↦ let (c, cs, e) = show_cons n in (c, cs, rw big e)
]

digits_from-show : (n : ℕ) → digits_from 0 (show n) ≡ some n
unfolding show
digits_from-show n = digits_from-show_fuel (suc n) n (omega arith)

digits_from_zero : (s : List ℕ) → digits_from 0 (48 ∷ s) ≡ digits_from 0 s
unfolding digits_from
digits_from_zero s = refl

digits_from-show_2 : (n : ℕ) → digits_from 0 (show_2 n) ≡ some n
unfolding show_2
digits_from-show_2 n = elim (Bool-cases (ltb n 10)) [
  | inl small ↦ rw small (digits_from_zero (show n) ∙ digits_from-show n)
  | inr big ↦ rw big (digits_from-show n)
]

pub parse_uint-show_2 : (bound n : ℕ) → n < bound → parse_uint bound (show_2 n) ≡ some n
parse_uint-show_2 bound n h =
    parse_uint-digits bound n (show_2 n) (show_2-digits n) (digits_from-show_2 n) (show_2_cons n) h

-- Digits hold no byte that is not one.
pub digits-has : (c : ℕ) (s : List ℕ) → is_digit c ≡ false → all is_digit s ≡ true → has c s ≡ false
digits-has c [] out h = refl
digits-has c (x ∷ s) out h = ground (arith, digits-has c s out)
