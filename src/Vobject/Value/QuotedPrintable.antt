-- ===== src/Vobject/Value/QuotedPrintable.antt =====
-- Bytes written as quoted-printable are read back.
use pigeon_cli.Base.{
  ℕ, ◌+◌, ◌/◌, ◌%◌, ◌<◌, ◌≡◌, refl, ap, ◌∙◌, inl, inr, Bool, true, false, some, List, [], ◌∷◌,
  arith,
}
use pigeon_cli.Base.Tests.{ltb, ◌==◌, if◌then◌else◌, Bool-cases}
use pigeon_cli.Base.Lists.{All}
use pigeon_cli.Base.Ascii.{is_upper, is_hexdigit}
use pigeon_cli.Vobject.Value.{hex_value, octet_of, decode_octets, latin_1, decode_quoted_printable}
use pigeon_cli.Base.Utf8.{is_utf8}

-- A byte as quoted-printable writes it: an equals sign and two upper-case hexadecimal digits.
unfoldable pub hex_digit : ℕ → ℕ
hex_digit n = if ltb n 10 then 48 + n else 55 + n

-- Bytes as an encoder writes them that leaves the ones that are `safe`.
unfoldable pub encode_octets : (ℕ → Bool) → List ℕ → List ℕ
unfolding hex_digit
encode_octets safe [] = []
encode_octets safe (b ∷ s) =
    let rest = encode_octets safe s in
    if safe b then b ∷ rest else b'=' ∷ hex_digit (b / 16) ∷ hex_digit (b % 16) ∷ rest

hex_value-hex_digit :
    (n : ℕ) → n < 16 → (is_hexdigit (hex_digit n) ≡ true) × (hex_value (hex_digit n) ≡ n)
unfolding is_hexdigit is_upper hex_digit
hex_value-hex_digit n h = (ground arith, ground arith)

octet_of-hex_digit : (b : ℕ) → b < 256 → octet_of (hex_digit (b / 16)) (hex_digit (b % 16)) ≡ some b
unfolding octet_of
octet_of-hex_digit b h =
    let (first, high) = hex_value-hex_digit (b / 16) (omega arith) in
    let (second, low) = hex_value-hex_digit (b % 16) (omega arith) in
    rw (second, first, high, low) (ap some (omega arith))

decode_octets-plain :
    (c : ℕ) (s : List ℕ) → (c == b'=') ≡ false → decode_octets (c ∷ s) ≡ c ∷ decode_octets s
unfolding decode_octets
decode_octets-plain c [] h = refl
decode_octets-plain c (d ∷ []) h = refl
decode_octets-plain c (d ∷ e ∷ s) h = rw h refl

both_ways : {b : Bool} → b ≡ true → b ≡ false → ⊥
both_ways h k = ground arith

decode_octets-encode_octets :
    (safe : ℕ → Bool) (s : List ℕ)
    → safe b'=' ≡ false
    → All (λ b. b < 256) s
    → decode_octets (encode_octets safe s) ≡ s
unfolding decode_octets encode_octets
decode_octets-encode_octets safe [] marked bytes = refl
decode_octets-encode_octets safe (b ∷ s) marked (byte, bytes) = elim (Bool-cases (safe b)) [
  | inl kept ↦ rw kept (
      decode_octets-plain b (encode_octets safe s) (elim (Bool-cases (b == b'=')) [
        | inl at ↦ absurd (both_ways kept (ap safe (ground arith) ∙ marked))
        | inr off ↦ off
      ])
      ∙ ap (λ (r : List ℕ). b ∷ r) (decode_octets-encode_octets safe s marked bytes))
  | inr hidden ↦
      rw (hidden, octet_of-hex_digit b byte)
        (ap (λ (r : List ℕ). b ∷ r) (decode_octets-encode_octets safe s marked bytes))
]

-- Bytes that are written as quoted-printable, whichever of them but the equals sign are
-- left as they are, are decoded to themselves where they are UTF-8, and else as Latin-1.
pub decode_quoted_printable-encode_octets :
    (safe : ℕ → Bool) (s : List ℕ)
    → safe b'=' ≡ false
    → All (λ b. b < 256) s
    → decode_quoted_printable (encode_octets safe s) ≡ (if is_utf8 s then s else latin_1 s)
unfolding decode_quoted_printable
decode_quoted_printable-encode_octets safe s marked bytes =
    rw (decode_octets-encode_octets safe s marked bytes) refl
