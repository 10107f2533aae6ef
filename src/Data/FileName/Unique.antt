-- ===== src/Data/FileName/Unique.antt =====
-- `unique_path` finds a free name.
use pigeon_cli.Base.{
  ℕ, zero, suc, ◌+◌, ◌≤◌, ◌<◌, ◌≡◌, refl, ◌⊎◌, inl, inr, Bool, true, false, some, List, arith, ◌∙◌,
}
use pigeon_cli.Base.Tests.{lt→ltb, Bool-cases}
use native.Mathlib.Nat.{add-zero}
use native.Mathlib.Decide.{dec_lt}
use pigeon_cli.Data.FileName.{counter_mod, candidate_name, free_from, unique_path}

next_shift : (n j : ℕ) → n + suc j ≡ n + 1 + j
next_shift n j = omega arith

module _ (exists : List ℕ → Bool) (name : List ℕ) where
  -- The candidate with number `m` is free, and all from `n` up to it are taken.
  pub record IsFirstFree (n m : ℕ) : Type 0 where
    pub from : n ≤ m
    pub free : exists (candidate_name name m) ≡ false
    pub taken : (i : ℕ) → n ≤ i → i < m → exists (candidate_name name i) ≡ true

  extend :
      (n m : ℕ) → exists (candidate_name name n) ≡ true → IsFirstFree (n + 1) m → IsFirstFree n m
  extend n m used h = record {
    from = omega (arith, h.from);
    free = h.free;
    taken = λ i lo hi. elim (dec_lt n i) [
      | yes above ↦ h.taken i (omega arith) hi
      | no not_above ↦ let e : i ≡ n = omega arith in rw e used
    ];
  }

  free_from_here :
      (k n : ℕ)
      → exists (candidate_name name n) ≡ false
      → (m : ℕ) × (free_from exists name (suc k) n ≡ some (candidate_name name m)) × IsFirstFree n m
  unfolding free_from
  free_from_here k n open_ = (
    n,
    rw open_,
    record { from = omega arith; free = open_; taken = λ i lo hi. absurd (omega arith) },
  )

  free_from_step :
      (k n : ℕ)
      → n + 1 < counter_mod
      → exists (candidate_name name n) ≡ true
      → free_from exists name (suc k) n ≡ free_from exists name k (n + 1)
  unfolding free_from
  free_from_step k n small used = rw (used, lt→ltb (n + 1) counter_mod small) refl

  free_from_first :
      (k n : ℕ)
      → n + k < counter_mod
      → exists (candidate_name name (n + k)) ≡ false
      → (m : ℕ) × (free_from exists name (suc k) n ≡ some (candidate_name name m)) × IsFirstFree n m
  free_from_first zero n small free = free_from_here zero n (rw add-zero at free)
  free_from_first (suc k) n small free = elim (Bool-cases (exists (candidate_name name n))) [
    | inr open_ ↦ free_from_here (suc k) n open_
    | inl used ↦
        let (m, e, first) = free_from_first k (n + 1) (omega arith) (rw (next_shift n k) at free) in
        (m, free_from_step (suc k) n (omega arith) used ∙ e, extend n m used first)
  ]

  -- If one of the names with the numbers 2, ..., 2 + k is free, where 2 + k < 2 ^ 31, the loop ends within `k + 1`
  -- rounds. The path is the wished one if that is free, and otherwise the first free one of the
  -- numbered names: in either case a path that does not exist yet.
  pub unique_path_free :
      (k : ℕ)
      → 2 + k < counter_mod
      → exists (candidate_name name (2 + k)) ≡ false
      → (path : List ℕ) × (unique_path (suc k) exists name ≡ some path)
        × (exists path ≡ false)
        × ((path ≡ name)
            ⊎ ((m : ℕ) × (path ≡ candidate_name name m) × (exists name ≡ true) × IsFirstFree 2 m))
  unfolding unique_path
  unique_path_free k small free = elim (Bool-cases (exists name)) [
    | inr open_ ↦ (name, rw open_, open_, inl refl)
    | inl used ↦
        let (m, e, first) = free_from_first k 2 small free in
        (candidate_name name m, rw used e, first.free, inr (m, refl, used, first))
  ]
