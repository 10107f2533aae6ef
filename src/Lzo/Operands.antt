-- ===== src/Lzo/Operands.antt =====
-- What reading an instruction and its operands leaves of the input.
use pigeon_cli.Base.{
  inr, inl, ℕ, suc, ◌+◌, ◌*◌, ◌/◌, ◌%◌, ◌≤◌, ◌<◌, ◌≡◌, refl, Bool, true, false, ◌&&◌, List, [], ◌∷◌,
  arith,
}
use pigeon_cli.Base.Tests.{ltb, leb, ◌==◌, if◌then◌else◌, Bool-cases, u64_mod}
use pigeon_cli.Base.Lists.{length}
use pigeon_cli.Base.Outcome.{Result, ok, err, ◌>>=◌}
use pigeon_cli.Lzo.{
  length_overflow, LzoError, panicked, out_of_fuel, byte, le16, zero_run_from, zero_run,
  Instruction, run_of, match_, finish, open_length, decode_low, decode_m2, decode_m3, decode_m4,
  decode_by, decode,
}

abbrev pub expected : LzoError → Bool
expected panicked = false
expected out_of_fuel = false
expected _ = true

-- A result that has the property, or one of the errors of the source.
abbrev pub Within {ℓ} : {A : Type ℓ} → (A → Type 0) → Result LzoError A → Type 0
Within P (ok a) = P a
Within P (err e) = expected e ≡ true

pub Within-bind {ℓ κ} :
    {A : Type ℓ} {B : Type κ} (P : A → Type 0) (Q : B → Type 0) (m : Result LzoError A)
    (f : A → Result LzoError B)
    → Within P m
    → ((a : A) → P a → Within Q (f a))
    → Within Q (m >>= f)
Within-bind P Q (ok a) f h k = k a h
Within-bind P Q (err e) f h k = h

pub Within-if {ℓ} :
    {A : Type ℓ} (P : A → Type 0) (b : Bool) (x y : Result LzoError A)
    → Within P x
    → Within P y
    → Within P (if b then x else y)
Within-if P true x y h k = h
Within-if P false x y h k = k

pub Within-map {ℓ} :
    {A : Type ℓ} (P Q : A → Type 0) (m : Result LzoError A)
    → ((a : A) → P a → Q a)
    → Within P m
    → Within Q m
Within-map P Q (ok a) f h = f a h
Within-map P Q (err e) f h = h

-- At most so many bytes are left.
abbrev Left : ℕ → ℕ × List ℕ → Type 0
Left n (value, r) = length r ≤ n

byte-Within : (rest : List ℕ) → Within (λ (p : ℕ × List ℕ). length p.1 < length rest) (byte rest)
unfolding byte
byte-Within [] = refl
byte-Within (c ∷ cs) = omega arith

le16-Within : (rest : List ℕ) → Within (Left (length rest)) (le16 rest)
unfolding le16 byte
le16-Within [] = refl
le16-Within (a ∷ []) = refl
le16-Within (a ∷ b ∷ rest) = omega arith

zero_run_from-Within :
    (count base : ℕ) (rest : List ℕ) → Within (Left (length rest)) (zero_run_from count base rest)
unfolding zero_run_from
zero_run_from-Within count base [] = refl
zero_run_from-Within count base (c ∷ cs) =
    Within-if (Left (suc (length cs))) (c == 0) _ _
      (Within-map (Left (length cs)) (Left (suc (length cs))) (zero_run_from (count + 1) base cs)
        (λ p h. omega arith) (zero_run_from-Within (count + 1) base cs))
      (Within-if (Left (suc (length cs)))
        (ltb (count * 255) u64_mod && ltb (count * 255 + (base + c)) u64_mod)
        (ok (count * 255 + (base + c), cs)) (err length_overflow) (omega arith) refl)

open_length-Within :
    (n least base : ℕ) (r : List ℕ) → Within (Left (length r)) (open_length n least base r)
unfolding zero_run
open_length-Within n least base r = elim (Bool-cases (n == least)) [
  | inl same ↦ rw same (
      Within-bind (Left (length r)) (Left (length r)) (zero_run base r) (λ p. ok (p.0 + least, p.1))
        (zero_run_from-Within 0 base r) (λ p h. h))
  | inr fixed ↦ rw fixed (omega arith)
]

-- The distance of a match is at least 1.
abbrev pub IsInstruction : Instruction → Type 0
IsInstruction (run_of n) = Unit
IsInstruction (match_ distance n next) = 1 ≤ distance
IsInstruction finish = Unit

abbrev Fine : ℕ → Instruction × List ℕ → Type 0
Fine n (i, r) = IsInstruction i × (length r ≤ n)

short_match :
    (b : Bool) (d n k d' n' k' : ℕ)
    → 1 ≤ d
    → 1 ≤ d'
    → IsInstruction (if b then match_ d n k else match_ d' n' k')
short_match true d n k d' n' k' h h' = h
short_match false d n k d' n' k' h h' = h'

end_or_match : (b : Bool) (d n k : ℕ) → 1 ≤ d → IsInstruction (if b then finish else match_ d n k)
end_or_match true d n k h = tt
end_or_match false d n k h = h

decode_low-Within : (state t : ℕ) (r : List ℕ) → Within (Fine (length r)) (decode_low state t r)
unfolding decode_low zero_run
decode_low-Within state t r =
    Within-if (Fine (length r)) (state == 0) _ _
      (Within-if (Fine (length r)) (t == 0) _ _
        (Within-bind (Left (length r)) (Fine (length r)) (zero_run 15 r)
          (λ p. ok (run_of (p.0 + 3), p.1)) (zero_run_from-Within 0 15 r) (λ p h. (tt, h)))
        (tt, omega arith))
      (Within-bind (λ (p : ℕ × List ℕ). length p.1 < length r) (Fine (length r)) (byte r)
        (λ p. ok (
          if state == 4
              then match_ (1 + 2048 + t / 4 + p.0 * 4) 3 (t % 4)
              else match_ (1 + t / 4 + p.0 * 4) 2 (t % 4),
          p.1,
        ))
        (byte-Within r)
        (λ p h. (
          short_match (state == 4) _ 3 (t % 4) _ 2 (t % 4) (omega arith) (omega arith),
          omega arith,
        )))

decode_m2-Within : (t : ℕ) (r : List ℕ) → Within (Fine (length r)) (decode_m2 t r)
unfolding decode_m2
decode_m2-Within t r =
    Within-bind (λ (p : ℕ × List ℕ). length p.1 < length r) (Fine (length r)) (byte r) _
      (byte-Within r) (λ p h. (omega arith, omega arith))

-- The operands of the two long matches.
operands-Within :
    (n base : ℕ) (r : List ℕ) (f : ℕ → ℕ → Instruction)
    → ((k v : ℕ) → IsInstruction (f k v))
    → Within
        (Fine (length r))
        (open_length n 2 base r >>= λ p. le16 p.1 >>= λ q. ok (f p.0 q.0, q.1))
operands-Within n base r f each =
    Within-bind (Left (length r)) (Fine (length r)) (open_length n 2 base r) _
      (open_length-Within n 2 base r)
      (λ p h.
        Within-bind (Left (length p.1)) (Fine (length r)) (le16 p.1) _ (le16-Within p.1)
          (λ q k. (each p.0 q.0, omega arith)))

decode_m3-Within : (t : ℕ) (r : List ℕ) → Within (Fine (length r)) (decode_m3 t r)
unfolding decode_m3
decode_m3-Within t r =
    operands-Within (t % 32 + 2) 31 r (λ n v. match_ (1 + v / 4) n (v % 4)) (λ n v. omega arith)

decode_m4-Within : (t : ℕ) (r : List ℕ) → Within (Fine (length r)) (decode_m4 t r)
unfolding decode_m4
decode_m4-Within t r =
    operands-Within (t % 8 + 2) 7 r
      (λ n v.
        if t / 8 % 2 * 16384 + v / 4 == 0
        then finish
        else match_ (t / 8 % 2 * 16384 + v / 4 + 16384) n (v % 4))
      (λ n v. end_or_match (t / 8 % 2 * 16384 + v / 4 == 0) _ n (v % 4) (omega arith))

pub decode-Within :
    (state : ℕ) (rest : List ℕ)
    → Within
        (λ (p : Instruction × List ℕ). IsInstruction p.0 × (length p.1 < length rest))
        (decode state rest)
unfolding decode byte decode_by
decode-Within state [] = refl
decode-Within state (t ∷ r) =
    Within-map (Fine (length r))
      (λ (p : Instruction × List ℕ). IsInstruction p.0 × (length p.1 < suc (length r)))
      (decode_by state t r) (λ p h. (h.0, omega (arith, h.1)))
      (Within-if (Fine (length r)) (ltb t 16) _ _ (decode_low-Within state t r) (
        Within-if (Fine (length r)) (leb 64 t) _ _ (decode_m2-Within t r) (
          Within-if (Fine (length r)) (leb 32 t) _ _ (decode_m3-Within t r)
            (decode_m4-Within t r))))
