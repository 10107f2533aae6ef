-- ===== src/Base/Utf8.antt =====
-- UTF-8 as Rust's `String` has it: which bytes are text, and `from_utf8_lossy`.
use pigeon_cli.Base.{ℕ, zero, suc, ◌≡◌, refl, Bool, true, false, ◌&&◌, List, [], ◌∷◌, ◌++◌, arith}
use pigeon_cli.Base.Tests.{ltb, leb, ◌==◌, if◌then◌else◌}
use pigeon_cli.Base.Lists.{length, take, drop, take-append-drop}
use pigeon_cli.Base.Text.{is_empty}

abbrev pub is_tail : ℕ → Bool
is_tail b = leb 0x80 b && leb b 0xBF

-- How many bytes a character takes that begins with this one; 0 for a byte that begins none.
abbrev pub lead_size : ℕ → ℕ
lead_size a =
    if ltb a 0x80
    then 1
    else if leb 0xC2 a && leb a 0xDF
    then 2
    else if leb 0xE0 a && leb a 0xEF
    then 3
    else if leb 0xF0 a && leb a 0xF4
    then 4
    else 0

-- The second bytes that neither encode a shorter form, nor a surrogate, nor a value beyond U+10FFFF.
abbrev pub second_fits : ℕ → ℕ → Bool
second_fits a b =
    is_tail b
    && (if a == 0xE0
        then leb 0xA0 b
        else if a == 0xED
        then leb b 0x9F
        else if a == 0xF0
        then leb 0x90 b
        else if a == 0xF4
        then leb b 0x8F
        else true)

-- How many bytes of the character in front are there and fit: at most its size.
abbrev pub good_bytes : List ℕ → ℕ
good_bytes [] = 0
good_bytes (a ∷ []) = 1
good_bytes (a ∷ b ∷ []) = if leb 2 (lead_size a) && second_fits a b then 2 else 1
good_bytes (a ∷ b ∷ c ∷ []) =
    if leb 2 (lead_size a) && second_fits a b
    then (if leb 3 (lead_size a) && is_tail c then 3 else 2)
    else 1
good_bytes (a ∷ b ∷ c ∷ d ∷ s) =
    if leb 2 (lead_size a) && second_fits a b
    then (if leb 3 (lead_size a) && is_tail c
        then (if leb 4 (lead_size a) && is_tail d then 4 else 3)
        else 2)
    else 1

abbrev pub starts_well : List ℕ → Bool
starts_well [] = false
starts_well (a ∷ s) = good_bytes (a ∷ s) == lead_size a

-- On fuel: the length of the text is enough, since each round takes a byte at least.
unfoldable pub valid_fuel : ℕ → List ℕ → Bool
valid_fuel zero s = is_empty s
valid_fuel (suc fuel) s =
    let rest = valid_fuel fuel (drop (good_bytes s) s) in
    if is_empty s then true else starts_well s && rest

unfoldable pub is_utf8 : List ℕ → Bool
unfolding valid_fuel
is_utf8 s = valid_fuel (length s) s

-- What does not fit becomes U+FFFD, one for each longest front of a character.
unfoldable pub lossy_fuel : ℕ → List ℕ → List ℕ
lossy_fuel zero s = []
lossy_fuel (suc fuel) s =
    let rest = lossy_fuel fuel (drop (good_bytes s) s) in
    if is_empty s
    then []
    else if starts_well s
    then take (good_bytes s) s ++ rest
    else 0xEF ∷ 0xBF ∷ 0xBD ∷ rest

unfoldable pub from_utf8_lossy : List ℕ → List ℕ
unfolding lossy_fuel
from_utf8_lossy s = lossy_fuel (length s) s

lossy_fuel-valid_fuel : (fuel : ℕ) (s : List ℕ) → valid_fuel fuel s ≡ true → lossy_fuel fuel s ≡ s
unfolding lossy_fuel valid_fuel
lossy_fuel-valid_fuel zero [] h = refl
lossy_fuel-valid_fuel zero (a ∷ s) h = cc
lossy_fuel-valid_fuel (suc fuel) [] h = refl
lossy_fuel-valid_fuel (suc fuel) (a ∷ s) h = ground (
  arith,
  lossy_fuel-valid_fuel fuel (drop (good_bytes (a ∷ s)) (a ∷ s)),
  take-append-drop (good_bytes (a ∷ s)) (a ∷ s),
)

-- Text stays as it is.
pub from_utf8_lossy-is_utf8 : (s : List ℕ) → is_utf8 s ≡ true → from_utf8_lossy s ≡ s
unfolding from_utf8_lossy is_utf8
from_utf8_lossy-is_utf8 s h = lossy_fuel-valid_fuel (length s) s h
