-- ===== src/Placement/Count.antt =====
-- How many of the sheets of a workbook a set of indices holds.
use pigeon_cli.Base.{
  inr, inl, ℕ, zero, suc, ◌+◌, ◌≤◌, ◌<◌, ◌≡◌, refl, Bool, true, false, ◌&&◌, ◌||◌, List, [], ◌∷◌,
  arith, ap,
}
use pigeon_cli.Base.Tests.{◌==◌, ==→eq, Bool-cases}
use pigeon_cli.Base.Lists.{length}
use pigeon_cli.Base.Text.{has}
use pigeon_cli.Placement.Groups.{insert_member}

abbrev bit : Bool → ℕ
bit true = 1
bit false = 0

-- The indices from 1 to `n` among `members`, counted, and whether they are all there.
abbrev pub count : ℕ → List ℕ → ℕ
count zero members = 0
count (suc n) members = bit (has (suc n) members) + count n members

abbrev pub covers : ℕ → List ℕ → Bool
covers zero members = true
covers (suc n) members = has (suc n) members && covers n members

count-le : (n : ℕ) (members : List ℕ) → count n members ≤ n
count-le zero members = omega arith
count-le (suc n) members = ground (arith, count-le n members)

pub count-covers : (n : ℕ) (members : List ℕ) → (n == count n members) ≡ covers n members
count-covers zero members = refl
count-covers (suc n) members = ground (arith, count-le n members, count-covers n members)

pub covers-cong :
    (n : ℕ) (xs ys : List ℕ) → ((j : ℕ) → has j xs ≡ has j ys) → covers n xs ≡ covers n ys
covers-cong zero xs ys h = refl
covers-cong (suc n) xs ys h = rw (h (suc n), covers-cong n xs ys h)

count-cons_above : (n i : ℕ) (xs : List ℕ) → n < i → count n (i ∷ xs) ≡ count n xs
count-cons_above zero i xs h = refl
count-cons_above (suc n) i xs h = ground (arith, count-cons_above n i xs)

count-cons :
    (n i : ℕ) (xs : List ℕ) → 1 ≤ i → i ≤ n → has i xs ≡ false → count n (i ∷ xs) ≡ suc (count n xs)
count-cons zero i xs lo hi h = absurd (omega arith)
count-cons (suc n) i xs lo hi h = elim (Bool-cases (i == suc n)) [
  | inl same ↦
      let e = ==→eq i (suc n) same in
      let absent : has (suc n) xs ≡ false = (rw e at h) in
      rw (same, absent) (omega (arith, count-cons_above n i xs (omega arith)))
  | inr differ ↦ ground (arith, count-cons n i xs)
]

-- The members stay as many as the indices that they hold.
pub count-insert :
    (n i : ℕ) (members : List ℕ)
    → 1 ≤ i
    → i ≤ n
    → length members ≡ count n members
    → length (insert_member i members) ≡ count n (insert_member i members)
count-insert n i members lo hi e = elim (Bool-cases (has i members)) [
  | inl there ↦ rw there e
  | inr absent ↦ rw (absent, count-cons n i members lo hi absent) (ap suc e)
]

pub insert_member-has :
    (j i : ℕ) (members : List ℕ) → has j (insert_member i members) ≡ ((i == j) || has j members)
insert_member-has j i members = ground (arith, ==→eq i j)

pub count-nil : (n : ℕ) → count n [] ≡ 0
count-nil zero = refl
count-nil (suc n) = omega (arith, count-nil n)
