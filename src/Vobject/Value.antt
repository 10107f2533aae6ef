-- ===== src/Vobject/Value.antt =====
-- The values of content lines: escapes, structured values, quoted-printable. The characters that
-- the code looks for are ASCII, so that it does the same byte by byte.
pub mod RoundTrip
pub mod QuotedPrintable
use pigeon_cli.Base.{ℕ, ◌+◌, ◌-◌, ◌*◌, ◌/◌, ◌%◌, ◌||◌, Option, none, some, List, [], ◌∷◌, ◌++◌}
use pigeon_cli.Base.Tests.{ltb, ◌==◌, if◌then◌else◌}
use pigeon_cli.Base.Text.{cons_first}
use pigeon_cli.Base.Ascii.{is_upper, is_digit, is_hexdigit}
use pigeon_cli.Base.Utf8.{is_utf8}

-- What stands behind a backslash.
abbrev pub unescaped : ℕ → List ℕ
unescaped c =
    if c == b'n' || c == b'N'
    then 10 ∷ []
    else if c == b',' || c == b';' || c == b':' || c == b'\\'
    then c ∷ []
    else b'\\' ∷ c ∷ []

unfoldable pub unescape : List ℕ → List ℕ
unescape [] = []
unescape (c ∷ []) = c ∷ []
unescape (c ∷ d ∷ s) =
    let behind = unescape s in
    let rest = unescape (d ∷ s) in if c == b'\\' then unescaped d ++ behind else c ∷ rest

unfoldable pub split_unescaped : ℕ → List ℕ → List (List ℕ)
split_unescaped separator [] = [] ∷ []
split_unescaped separator (c ∷ []) =
    if c == b'\\' then (c ∷ []) ∷ [] else if c == separator then [] ∷ [] ∷ [] else (c ∷ []) ∷ []
split_unescaped separator (c ∷ d ∷ s) =
    let behind = split_unescaped separator s in
    let rest = split_unescaped separator (d ∷ s) in
    if c == b'\\'
    then cons_first c (cons_first d behind)
    else if c == separator
    then [] ∷ rest
    else cons_first c rest

abbrev pub hex_value : ℕ → ℕ
hex_value c = if is_digit c then c - 48 else if is_upper c then c - 55 else c - 87

-- `u8::from_str_radix(hex, 16)` on two bytes: a plus sign may stand in front.
unfoldable pub octet_of : ℕ → ℕ → Option ℕ
unfolding is_hexdigit is_upper
octet_of a b =
    if is_hexdigit b
    then (if is_hexdigit a
        then some (hex_value a * 16 + hex_value b)
        else if a == b'+'
        then some (hex_value b)
        else none)
    else none

unfoldable pub decode_octets : List ℕ → List ℕ
unfolding octet_of
decode_octets [] = []
decode_octets (c ∷ []) = c ∷ []
decode_octets (c ∷ d ∷ []) = c ∷ d ∷ []
decode_octets (c ∷ d ∷ e ∷ s) =
    let behind = decode_octets s in
    let rest = decode_octets (d ∷ e ∷ s) in
    if c == b'='
    then (elim (octet_of d e) [ none ↦ c ∷ rest | some octet ↦ octet ∷ behind ])
    else c ∷ rest

-- A byte as the character of its number, in UTF-8.
abbrev pub latin_1 : List ℕ → List ℕ
latin_1 [] = []
latin_1 (b ∷ s) =
    (if ltb b 0x80 then b ∷ [] else (0xC0 + b / 64) ∷ (0x80 + b % 64) ∷ []) ++ latin_1 s

unfoldable pub decode_quoted_printable : List ℕ → List ℕ
unfolding decode_octets is_utf8
decode_quoted_printable text =
    let octets = decode_octets text in if is_utf8 octets then octets else latin_1 octets
