-- ===== src/Vobject/Cards.antt =====
-- `render_cards`, and the two renderers from the bytes of a file to text.
use pigeon_cli.Base.{
  ℕ, ◌+◌, ◌*◌, Bool, not, ◌&&◌, ◌||◌, Option, none, some, List, [], ◌∷◌, ◌++◌, map,
}
use pigeon_cli.Base.Tests.{ltb, ◌==◌, if◌then◌else◌}
use pigeon_cli.Base.Lists.{length, get_elem?, any}
use pigeon_cli.Base.Text.{is_empty, strip_prefix}
use pigeon_cli.Base.Strings.{starts_with, strip_suffix, trim}
use pigeon_cli.Base.Ascii.{codes, to_lower, bytes_eq}
use pigeon_cli.Base.Decimal.{show}
use pigeon_cli.Base.Outcome.{Result, ◌>>=◌, ok, err}
use pigeon_cli.Vobject.Unfold.{unfold_}
use pigeon_cli.Vobject.Property.{
  Property, uppercase, parse_line, filled_trims, values_of, is_base64, text, parts_of,
}
use pigeon_cli.Vobject.Components.{components, first, has_begin}
use pigeon_cli.Vobject.Calendar.{field, text_field, value_field, each, render_calendar}

abbrev pub dropped_properties : List (List ℕ)
dropped_properties =
    codes "PHOTO"
    ∷ codes "LOGO"
    ∷ codes "SOUND"
    ∷ codes "KEY"
    ∷ codes "PRODID"
    ∷ codes "REV"
    ∷ codes "UID"
    ∷ []

-- `_$!<Home>!$_` is `Home`; any other label is itself.
unfoldable pub apple_label : List ℕ → List ℕ
unfolding trim strip_prefix
apple_label raw = elim (strip_prefix (codes "_$!<") (trim raw)) [
  | none ↦ trim raw
  | some rest ↦ elim (strip_suffix (codes ">!$_") rest) [ none ↦ trim raw | some label ↦ label ]
]

unfoldable pub labels_of : List Property → List (List ℕ × List ℕ)
unfolding apple_label text
labels_of [] = []
labels_of (p ∷ ps) =
    let rest = labels_of ps in
    if bytes_eq p.name (codes "X-ABLABEL")
    then (elim p.group [ none ↦ rest | some group ↦ (group, apple_label (text p)) ∷ rest ])
    else rest

unfoldable pub is_shown : Property → Bool
unfolding is_base64
is_shown p =
    not (is_base64 p)
    && not (starts_with (codes "X-") p.name)
    && not (any (λ d. bytes_eq d p.name) dropped_properties)

abbrev pub keep : (Property → Bool) → List Property → List Property
keep test [] = []
keep test (p ∷ ps) = let rest = keep test ps in if test p then p ∷ rest else rest

abbrev pub joined : List ℕ → List (List ℕ) → List ℕ
joined separator [] = []
joined separator (s ∷ []) = s
joined separator (s ∷ t ∷ ss) = s ++ separator ++ joined separator (t ∷ ss)

unfoldable pub join_nonempty : List (List ℕ) → List ℕ → List ℕ
unfolding filled_trims
join_nonempty parts separator = joined separator (filled_trims parts)

abbrev pub part_at : List (List ℕ) → ℕ → List ℕ
part_at parts i = elim (get_elem? parts i) [ none ↦ [] | some part ↦ part ]

-- Family, given, additional, prefix and suffix, in reading order.
unfoldable pub render_structured_name : Property → List ℕ
unfolding parts_of join_nonempty
render_structured_name p =
    let parts = parts_of p in
    join_nonempty
      (part_at parts 3 ∷ part_at parts 1 ∷ part_at parts 2 ∷ part_at parts 0 ∷ part_at parts 4 ∷ [])
      (codes " ")

unfoldable pub informative : List (List ℕ) → List (List ℕ)
unfolding uppercase to_lower
informative [] = []
informative (kind ∷ kinds) =
    let rest = informative kinds in
    let upper = uppercase kind in
    if bytes_eq upper (codes "INTERNET")
      || bytes_eq upper (codes "PREF")
      || bytes_eq upper (codes "X400")
    then rest
    else map to_lower kind ∷ rest

-- The label of the first entry of the group, if it is filled.
abbrev pub label_of : List ℕ → List (List ℕ × List ℕ) → Option (List ℕ)
label_of group [] = none
label_of group ((owner, label) ∷ labels) =
    let rest = label_of group labels in
    if bytes_eq owner group then (if is_empty label then none else some label) else rest

abbrev pub group_label : Option (List ℕ) → List (List ℕ × List ℕ) → Option (List ℕ)
group_label none labels = none
group_label (some group) labels = label_of group labels

abbrev pub types_label : List (List ℕ) → Option (List ℕ)
types_label [] = none
types_label (t ∷ ts) = some (joined (codes ", ") (t ∷ ts))

unfoldable pub card_label : Property → List (List ℕ × List ℕ) → Option (List ℕ)
unfolding values_of informative
card_label p labels = elim (group_label p.group labels) [
  | some label ↦ some label
  | none ↦ types_label (informative (values_of (codes "TYPE") p.params))
]

-- `value.replace('\n', ", ")`
abbrev pub on_one_line : List ℕ → List ℕ
on_one_line [] = []
on_one_line (c ∷ s) = (if c == 10 then codes ", " else c ∷ []) ++ on_one_line s

abbrev pub labelled : List ℕ → Option (List ℕ) → List ℕ
labelled noun none = noun
labelled noun (some label) = noun ++ codes " (" ++ label ++ codes ")"

unfoldable pub contact_field :
    List ℕ → (Property → List ℕ) → List (List ℕ × List ℕ) → Property → List ℕ
unfolding card_label field
contact_field noun value labels p =
    field (labelled noun (card_label p labels)) (on_one_line (value p))

unfoldable pub card_name : List Property → Option (List ℕ)
unfolding first text trim render_structured_name
card_name props =
    let structured : Option (List ℕ) = elim (first (codes "N") props) [
      | none ↦ none
      | some p ↦ some (render_structured_name p)
    ] in
    elim (first (codes "FN") props) [
      | none ↦ structured
      | some p ↦ if is_empty (trim (text p)) then structured else some (text p)
    ]

unfoldable pub address : Property → List ℕ
unfolding parts_of join_nonempty
address p = join_nonempty (parts_of p) (codes ", ")

unfoldable pub render_card : List Property → List ℕ
unfolding labels_of is_shown card_name field value_field text_field first address contact_field each
    text
render_card all_props =
    let labels = labels_of all_props in
    let props = keep is_shown all_props in
    value_field (codes "Name") (card_name props)
    ++ (elim (first (codes "ORG") props) [
      | none ↦ []
      | some org ↦ field (codes "Organization") (address org)
    ])
    ++ text_field (codes "Title") (first (codes "TITLE") props)
    ++ each (codes "TEL") (contact_field (codes "Phone") text labels) props
    ++ each (codes "EMAIL") (contact_field (codes "Email") text labels) props
    ++ each (codes "ADR") (contact_field (codes "Address") address labels) props
    ++ each (codes "URL") (contact_field (codes "URL") text labels) props
    ++ text_field (codes "Birthday") (first (codes "BDAY") props)
    ++ text_field (codes "Categories") (first (codes "CATEGORIES") props)
    ++ text_field (codes "Note") (first (codes "NOTE") props)

abbrev pub or_no_details : List ℕ → List ℕ
or_no_details block = if is_empty block then codes "(no details)\n" else block

unfoldable pub render_blocks : ℕ → ℕ → List (List ℕ × List Property) → List ℕ
unfolding show render_card
render_blocks index total [] = []
render_blocks index total ((kind, props) ∷ cards) =
    (if index == 1 then [] else 10 ∷ [])
    ++ codes "Contact "
    ++ show index
    ++ codes " of "
    ++ show total
    ++ (10 ∷ or_no_details (render_card props))
    ++ render_blocks (index + 1) total cards

unfoldable pub render_cards : List Property → List ℕ
unfolding components render_blocks
render_cards properties =
    let cards = components (codes "VCARD" ∷ []) properties in render_blocks 1 (length cards) cards

abbrev pub max_input_bytes : ℕ
max_input_bytes = 64 * 1024 * 1024

unfoldable pub parse_lines : List (List ℕ) → List Property
unfolding parse_line
parse_lines [] = []
parse_lines (line ∷ rest) = elim (parse_line line) [
  | none ↦ parse_lines rest
  | some p ↦ p ∷ parse_lines rest
]

pub data VobjectError : Type 0 where
  unreadable too_large no_begin unwritable : VobjectError

-- `read_properties` of the bytes of a file, or of one that cannot be read.
unfoldable pub read_properties : Option (List ℕ) → Result VobjectError (List Property)
unfolding unfold_ parse_lines
read_properties none = err unreadable
read_properties (some bytes) =
    if ltb max_input_bytes (length bytes) then err too_large else ok (parse_lines (unfold_ bytes))

-- The text that is written, and whether it can be.
abbrev pub write_text : Bool → List ℕ → Result VobjectError (List ℕ)
write_text writable text = if writable then ok text else err unwritable

unfoldable pub ics_to_text : Option (List ℕ) → Bool → Result VobjectError (List ℕ)
unfolding read_properties has_begin render_calendar
ics_to_text input writable = do
  properties ← read_properties input
  if has_begin (codes "VCALENDAR") properties
      then write_text writable (render_calendar properties)
      else err no_begin

unfoldable pub vcf_to_text : Option (List ℕ) → Bool → Result VobjectError (List ℕ)
unfolding read_properties has_begin render_cards
vcf_to_text input writable = do
  properties ← read_properties input
  if has_begin (codes "VCARD") properties
      then write_text writable (render_cards properties)
      else err no_begin
