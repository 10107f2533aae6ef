-- ===== src/Data/FileName/Enough.antt =====
-- One more candidate than there are names: one of them is free, and `unique_path` finds one.
use pigeon_cli.Base.{
  ℕ, zero, suc, ◌+◌, ◌≤◌, ◌<◌, ◌≡◌, refl, sym, ap, subst, ◌∙◌, ◌≢◌, inl, inr, Bool, true, false,
  Option, none, some, List, [], ◌∷◌, ◌++◌, arith,
}
use pigeon_cli.Base.Tests.{lt→ltb, if◌then◌else◌, Bool-cases}
use pigeon_cli.Base.Lists.{length, any}
use pigeon_cli.Base.Ascii.{bytes_eq, bytes_eq→eq}
use pigeon_cli.Base.Decimal.{show, parse_uint, parse_uint-show}
use pigeon_cli.Base.FilePath.{split_name}
use pigeon_cli.Data.FileName.{counter_mod, candidate_name, free_from, unique_path}
use mathlib.Core.List.{append_cancel_left, append_cancel_right}

show_injective : (m n : ℕ) → show m ≡ show n → m ≡ n
show_injective m n e =
    let same : ◌≡◌ {A = Option ℕ} (some m) (some n) =
      sym (parse_uint-show (suc (m + n)) m (omega arith))
      ∙ ap (parse_uint (suc (m + n))) e
      ∙ parse_uint-show (suc (m + n)) n (omega arith) in
    ap (λ (o : Option ℕ). elim o [ some k ↦ k | none ↦ 0 ]) same

abbrev numbered : List ℕ × Option (List ℕ) → ℕ → List ℕ
numbered (stem, none) n = stem ++ (b'-' ∷ show n)
numbered (stem, some e) n = stem ++ (b'-' ∷ show n) ++ (b'.' ∷ e)

candidate_name-numbered :
    (name : List ℕ) (n : ℕ) → candidate_name name n ≡ numbered (split_name name) n
unfolding candidate_name
candidate_name-numbered name n = elim_on (split_name name)
  where
    elim_on :
        (parts : List ℕ × Option (List ℕ))
        → (elim parts.1 [
          | none ↦ parts.0 ++ (b'-' ∷ show n)
          | some e ↦ parts.0 ++ (b'-' ∷ show n) ++ (b'.' ∷ e)
        ])
          ≡ numbered parts n
    elim_on (stem, none) = refl
    elim_on (stem, some e) = refl

tail_of : List ℕ → List ℕ
tail_of [] = []
tail_of (x ∷ xs) = xs

numbered_injective :
    (parts : List ℕ × Option (List ℕ)) (m n : ℕ) → numbered parts m ≡ numbered parts n → m ≡ n
unfolding tail_of
numbered_injective (stem, none) m n e =
    show_injective m n (ap tail_of (append_cancel_left stem (b'-' ∷ show m) (b'-' ∷ show n) e))
numbered_injective (stem, some ext) m n e = show_injective m n (
    ap tail_of (
      append_cancel_left stem (b'-' ∷ show m) (b'-' ∷ show n)
        (append_cancel_right (stem ++ (b'-' ∷ show m)) (stem ++ (b'-' ∷ show n)) (b'.' ∷ ext) e)))

candidate_name_injective :
    (name : List ℕ) (m n : ℕ) → candidate_name name m ≡ candidate_name name n → m ≡ n
candidate_name_injective name m n e =
    numbered_injective (split_name name) m n
      (sym (candidate_name-numbered name m) ∙ e ∙ candidate_name-numbered name n)

abbrev pub is_in : List (List ℕ) → List ℕ → Bool
is_in names name = any (λ u. bytes_eq u name) names

both_ways : {b : Bool} → b ≡ true → b ≡ false → ⊥
both_ways h k = ground arith

-- The other names.
abbrev others : List ℕ → List (List ℕ) → List (List ℕ)
others x [] = []
others x (u ∷ us) = let rest = others x us in if bytes_eq u x then rest else u ∷ rest

others_fewer : (x : List ℕ) (names : List (List ℕ)) → length (others x names) ≤ length names
others_fewer x [] = omega arith
others_fewer x (u ∷ us) = ground (arith, others_fewer x us)

others_shorter :
    (x : List ℕ) (names : List (List ℕ))
    → is_in names x ≡ true
    → length (others x names) < length names
others_shorter x [] h = cc
others_shorter x (u ∷ us) h = ground (arith, others_fewer x us, others_shorter x us)

others-is_in :
    (x y : List ℕ) (names : List (List ℕ))
    → bytes_eq x y ≡ false
    → is_in names y ≡ true
    → is_in (others x names) y ≡ true
others-is_in x y [] off h = cc
others-is_in x y (u ∷ us) off h = elim (Bool-cases (bytes_eq u x)) [
  | inl same ↦ let e = bytes_eq→eq u x same in rw same (others-is_in x y us off (rw (e, off) at h))
  | inr other ↦ rw other (elim (Bool-cases (bytes_eq u y)) [
    | inl here ↦ rw here refl
    | inr away ↦ rw away (others-is_in x y us off (rw away at h))
  ])
]

first_one : (n : ℕ) → n + 0 ≡ n
first_one n = omega arith

next_one : (n j : ℕ) → n + suc j ≡ n + 1 + j
next_one n j = omega arith

module _ (name : List ℕ) where
  distinct : (m n : ℕ) → m ≢ n → bytes_eq (candidate_name name m) (candidate_name name n) ≡ false
  distinct m n h = elim (Bool-cases (bytes_eq (candidate_name name m) (candidate_name name n))) [
    | inr other ↦ other
    | inl same ↦ absurd (
        h (
          candidate_name_injective name m n
            (bytes_eq→eq (candidate_name name m) (candidate_name name n) same)))
  ]

  -- Among k + 1 candidates one is none of at most k names.
  free_one :
      (k n : ℕ) (names : List (List ℕ))
      → length names ≤ k
      → (j : ℕ) × (j ≤ k) × (is_in names (candidate_name name (n + j)) ≡ false)
  free_one k n [] h = (0, omega arith, refl)
  free_one zero n (u ∷ us) h = absurd (omega arith)
  free_one (suc k) n (u ∷ us) h = elim (Bool-cases (is_in (u ∷ us) (candidate_name name n))) [
    | inr open_ ↦ (
      0,
      omega arith,
      subst (λ i. is_in (u ∷ us) (candidate_name name i) ≡ false) (omega arith) open_,
    )
    | inl used ↦
        let fewer = others_shorter (candidate_name name n) (u ∷ us) used in
        let (j, small, free) =
          free_one k (n + 1) (others (candidate_name name n) (u ∷ us)) (omega arith) in
        (
          suc j,
          omega arith,
          subst (λ i. is_in (u ∷ us) (candidate_name name i) ≡ false) (omega arith)
              (still_free n j (u ∷ us) free),
        )
  ]
    where
      still_free :
          (n j : ℕ) (names : List (List ℕ))
          → is_in (others (candidate_name name n) names) (candidate_name name (n + 1 + j)) ≡ false
          → is_in names (candidate_name name (n + 1 + j)) ≡ false
      still_free n j names free =
          elim (Bool-cases (is_in names (candidate_name name (n + 1 + j)))) [
            | inr open_ ↦ open_
            | inl taken ↦ absurd (
                both_ways
                  (others-is_in (candidate_name name n) (candidate_name name (n + 1 + j)) names
                    (distinct n (n + 1 + j) (omega arith)) taken)
                  free)
          ]

  module _ (exists : List ℕ → Bool) where
    -- The loop goes past no free candidate within its fuel.
    free_from_found :
        (fuel n j : ℕ)
        → j < fuel
        → n + j < counter_mod
        → exists (candidate_name name (n + j)) ≡ false
        → (path : List ℕ) × (free_from exists name fuel n ≡ some path) × (exists path ≡ false)
    unfolding free_from
    free_from_found zero n j h small free = absurd (omega arith)
    free_from_found (suc fuel) n zero h small free =
        let here : exists (candidate_name name n) ≡ false =
          subst (λ i. exists (candidate_name name i) ≡ false) (first_one n) free in
        (candidate_name name n, rw here refl, here)
    free_from_found (suc fuel) n (suc j) h small free =
        elim (Bool-cases (exists (candidate_name name n))) [
          | inr open_ ↦ (candidate_name name n, rw open_ refl, open_)
          | inl used ↦
              let (path, found, unused) =
                free_from_found fuel (n + 1) j (omega arith) (omega arith)
                  (subst (λ i. exists (candidate_name name i) ≡ false) (next_one n j) free) in
              (path, rw (used, lt→ltb (n + 1) counter_mod (omega arith)) found, unused)
        ]

    -- With fuel for one name more than may exist, fewer than the counter can number, `unique_path` ends with a path that does not exist.
    pub unique_path_enough :
        (names : List (List ℕ))
        → 2 + length names < counter_mod
        → ((n : List ℕ) → is_in names n ≡ false → exists n ≡ false)
        → (path : List ℕ) × (unique_path (suc (length names)) exists name ≡ some path)
          × (exists path ≡ false)
    unfolding unique_path
    unique_path_enough names few covers = elim (Bool-cases (exists name)) [
      | inr open_ ↦ (name, rw open_ refl, open_)
      | inl used ↦
          let (j, small, free) = free_one (length names) 2 names (omega arith) in
          let (path, found, unused) =
            free_from_found (suc (length names)) 2 j (omega arith) (omega arith)
              (covers (candidate_name name (2 + j)) free) in
          (path, rw used found, unused)
    ]
