-- ===== src/Base/Outcome.antt =====
-- `Result<T, E>` of Rust, with the `?` operator as the bind of a `do` block.
pub data Result {ℓ κ} (E : Type ℓ) (A : Type κ) : Type (ℓ ⊔ κ) where
  ok : A → Result E A
  err : E → Result E A

module _ {ℓ κ} {E : Type ℓ} {A : Type κ} where
  infixl 5 ◌>>=◌
  abbrev pub ◌>>=◌ {μ} : {B : Type μ} → Result E A → (A → Result E B) → Result E B
  ok value >>= next = next value
  err cause >>= next = err cause

-- A step that returns nothing.
infixl 5 ◌>>◌
abbrev pub ◌>>◌ {ℓ κ} : {E : Type ℓ} {A : Type κ} → Result E (Unit {0}) → Result E A → Result E A
ok tt >> next = next
err cause >> next = err cause
