-- ===== src/Vobject/Property.antt =====
-- `Property` and `parse_line`.
use pigeon_cli.Base.{ℕ, Bool, false, not, ◌&&◌, ◌||◌, Option, none, some, List, [], ◌∷◌, ◌++◌, map}
use pigeon_cli.Base.Tests.{◌==◌, if◌then◌else◌}
use pigeon_cli.Base.Text.{is_empty, cons_first, split_on, map_front, split_once, rsplit_once}
use pigeon_cli.Base.Strings.{trim}
use pigeon_cli.Base.Ascii.{codes, to_upper, bytes_eq, eq_ignore_ascii_case}
use pigeon_cli.Vobject.Value.{unescape, split_unescaped, decode_quoted_printable}

pub record Property : Type 0 where
  pub group : Option (List ℕ)
  pub name : List ℕ
  pub params : List (List ℕ × List ℕ)
  pub value : List ℕ

-- `char_indices().find_map` for the first colon outside quotes, and the text before and behind it.
unfoldable pub split_colon : Bool → List ℕ → Option (List ℕ × List ℕ)
split_colon in_quotes [] = none
split_colon in_quotes (c ∷ s) =
    let onward = map_front c (split_colon (if c == b'"' then not in_quotes else in_quotes) s) in
    if c == b':' && not in_quotes then some ([], s) else onward

unfoldable pub split_quoted : ℕ → Bool → List ℕ → List (List ℕ)
split_quoted separator in_quotes [] = [] ∷ []
split_quoted separator in_quotes (c ∷ s) =
    let rest = split_quoted separator (if c == b'"' then not in_quotes else in_quotes) s in
    if c == separator && not in_quotes && not (c == b'"') then [] ∷ rest else cons_first c rest

unfoldable pub uppercase : List ℕ → List ℕ
unfolding to_upper
uppercase s = map to_upper s

-- `trim_matches('"')`
abbrev pub drop_quotes : List ℕ → List ℕ
drop_quotes [] = []
drop_quotes (c ∷ s) = let rest = drop_quotes s in if c == b'"' then rest else c ∷ s

abbrev pub drop_quotes_end : List ℕ → List ℕ
drop_quotes_end [] = []
drop_quotes_end (c ∷ s) =
    let rest = drop_quotes_end s in if is_empty rest && c == b'"' then [] else c ∷ rest

abbrev pub is_bare_encoding : List ℕ → Bool
is_bare_encoding s =
    bytes_eq s (codes "QUOTED-PRINTABLE") || bytes_eq s (codes "BASE64") || bytes_eq s (codes "B")

unfoldable pub param_of : List ℕ → List ℕ × List ℕ
unfolding split_once trim uppercase
param_of param = elim (split_once b'=' param) [
  | some (key, value) ↦ (uppercase (trim key), drop_quotes_end (drop_quotes (trim value)))
  | none ↦ (
    if is_bare_encoding (uppercase (trim param)) then codes "ENCODING" else codes "TYPE",
    trim param,
  )
]

abbrev pub group_and_name : List ℕ → Option (List ℕ × List ℕ) → Option (List ℕ) × List ℕ
group_and_name full_name none = (none, full_name)
group_and_name full_name (some (group, name)) = (some group, name)

-- The name and the parameters in front of the colon.
unfoldable pub property_of : List (List ℕ) → List ℕ → Option Property
unfolding trim uppercase rsplit_once param_of
property_of [] value = none
property_of (first ∷ parts) value =
    let full_name = trim first in
    let (group, name) = group_and_name full_name (rsplit_once b'.' full_name) in
    some
      (record { group = group; name = uppercase name; params = map param_of parts; value = value })

unfoldable pub parse_line : List ℕ → Option Property
unfolding split_colon split_quoted property_of
parse_line line = elim (split_colon false line) [
  | none ↦ none
  | some (head, value) ↦ property_of (split_quoted b';' false head) value
]

abbrev pub find_param : List ℕ → List (List ℕ × List ℕ) → Option (List ℕ)
find_param name [] = none
find_param name ((key, value) ∷ params) =
    if bytes_eq key name then some value else find_param name params

-- `Property::param`
unfoldable pub param : List ℕ → Property → Option (List ℕ)
param name p = find_param name p.params

unfoldable pub filled_trims : List (List ℕ) → List (List ℕ)
unfolding trim
filled_trims [] = []
filled_trims (s ∷ ss) =
    let rest = filled_trims ss in if is_empty (trim s) then rest else trim s ∷ rest

-- `Property::param_values`
unfoldable pub values_of : List ℕ → List (List ℕ × List ℕ) → List (List ℕ)
unfolding split_on filled_trims
values_of name [] = []
values_of name ((key, value) ∷ params) =
    let rest = values_of name params in
    if bytes_eq key name then filled_trims (split_on b',' value) ++ rest else rest

abbrev pub encoding_is : (List ℕ → Bool) → Option (List ℕ) → Bool
encoding_is test none = false
encoding_is test (some encoding) = test encoding

unfoldable pub is_base64 : Property → Bool
unfolding param uppercase
is_base64 p =
    encoding_is (λ e. bytes_eq (uppercase e) (codes "B") || bytes_eq (uppercase e) (codes "BASE64"))
      (param (codes "ENCODING") p)

unfoldable pub is_quoted_printable : Property → Bool
unfolding param eq_ignore_ascii_case
is_quoted_printable p =
    encoding_is (λ e. eq_ignore_ascii_case e (codes "QUOTED-PRINTABLE"))
      (param (codes "ENCODING") p)

unfoldable pub decoded : Property → List ℕ
unfolding is_quoted_printable decode_quoted_printable
decoded p = if is_quoted_printable p then decode_quoted_printable p.value else p.value

unfoldable pub text : Property → List ℕ
unfolding decoded unescape
text p = unescape (decoded p)

-- `Property::components`
unfoldable pub parts_of : Property → List (List ℕ)
unfolding decoded unescape split_unescaped
parts_of p = map unescape (split_unescaped b';' (decoded p))
