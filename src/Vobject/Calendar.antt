-- ===== src/Vobject/Calendar.antt =====
-- `render_calendar` and what it prints of an event.
use pigeon_cli.Base.{
  ℕ, ◌+◌, ◌-◌, Bool, true, false, not, ◌&&◌, ◌||◌, Option, none, some, List, [], ◌∷◌, ◌++◌, map,
}
use pigeon_cli.Base.Tests.{leb, ◌==◌, if◌then◌else◌}
use pigeon_cli.Base.Lists.{length, take, drop, all}
use pigeon_cli.Base.Text.{has, is_empty, lines}
use pigeon_cli.Base.Strings.{trim_end, trim}
use pigeon_cli.Base.Ascii.{codes, is_digit, to_lower, bytes_eq, eq_ignore_ascii_case}
use pigeon_cli.Base.Decimal.{show}
use pigeon_cli.Vobject.Unfold.{ends_in, pop}
use pigeon_cli.Vobject.Property.{Property, param, text}
use pigeon_cli.Vobject.Components.{components, first}

unfoldable pub indented : List (List ℕ) → List ℕ
unfolding trim trim_end
indented [] = []
indented (line ∷ rest) =
    (if is_empty (trim line) then [] else codes "  " ++ trim_end line) ++ (10 ∷ indented rest)

-- `push_field`: what is appended.
unfoldable pub field : List ℕ → List ℕ → List ℕ
unfolding trim trim_end lines indented
field label value' =
    let value = trim_end value' in
    if is_empty (trim value)
    then []
    else if has 10 value
    then label ++ codes ":\n" ++ indented (lines value)
    else label ++ codes ": " ++ trim value ++ (10 ∷ [])

unfoldable pub text_field : List ℕ → Option Property → List ℕ
unfolding text field
text_field label none = []
text_field label (some p) = field label (text p)

unfoldable pub value_field : List ℕ → Option (List ℕ) → List ℕ
unfolding field
value_field label none = []
value_field label (some value) = field label value

unfoldable pub with_zone : List ℕ → Option (List ℕ) → List ℕ
with_zone time none = time
with_zone time (some zone) = time ++ codes " (" ++ zone ++ codes ")"

-- `strip_suffix(['Z', 'z'])`
abbrev pub without_zulu : List ℕ → List ℕ × Bool
without_zulu raw = if ends_in b'Z' raw || ends_in b'z' raw then (pop raw, true) else (raw, false)

-- `body.get(from..to)`, where it is all digits.
abbrev pub digits : ℕ → ℕ → List ℕ → Option (List ℕ)
digits from to body =
    if leb to (length body) && all is_digit (take (to - from) (drop from body))
    then some (take (to - from) (drop from body))
    else none

abbrev pub or_utc : Option (List ℕ) → Bool → Option (List ℕ)
or_utc (some zone) utc = some zone
or_utc none utc = if utc then some (codes "UTC") else none

abbrev pub date_of : List ℕ → Option (List ℕ)
date_of body = elim (digits 0 4 body) [
  | none ↦ none
  | some year ↦ elim (digits 4 6 body) [
    | none ↦ none
    | some month ↦ elim (digits 6 8 body) [
      | none ↦ none
      | some day ↦ some (year ++ (b'-' ∷ month) ++ (b'-' ∷ day))
    ]
  ]
]

abbrev pub is_t : List ℕ → Bool
is_t [] = false
is_t (c ∷ cs) = c == b'T' || c == b't'

abbrev pub clock_of : List ℕ → Option (List ℕ)
clock_of body = elim (digits 9 11 body) [
  | none ↦ none
  | some hour ↦ elim (digits 11 13 body) [
    | none ↦ none
    | some minute ↦ elim (digits 13 15 body) [
      | none ↦ none
      | some second ↦
          if is_t (drop 8 body) && length body == 15
          then some (
              if bytes_eq second (codes "00")
              then hour ++ (b':' ∷ minute)
              else hour ++ (b':' ∷ minute) ++ (b':' ∷ second))
          else none
    ]
  ]
]

unfoldable pub time_parts : List ℕ → Option (List ℕ) → List ℕ × Option (List ℕ)
time_parts raw tzid =
    let (body, utc) = without_zulu raw in
    elim (date_of body) [
      | none ↦ (raw, tzid)
      | some date ↦ if length body == 8 then (date, tzid) else elim (clock_of body) [
        | none ↦ (raw, tzid)
        | some clock ↦ (date ++ (b' ' ∷ clock), or_utc tzid utc)
      ]
    ]

unfoldable pub render_time : Property → List ℕ × Option (List ℕ)
unfolding trim param time_parts
render_time p = time_parts (trim p.value) (param (codes "TZID") p)

abbrev pub same_zone : Option (List ℕ) → Option (List ℕ) → Bool
same_zone none none = true
same_zone (some a) (some b) = bytes_eq a b
same_zone _ _ = false

-- An en dash between spaces.
abbrev pub to_ : List ℕ
to_ = b' ' ∷ 0xE2 ∷ 0x80 ∷ 0x93 ∷ b' ' ∷ []

unfoldable pub span : List ℕ × Option (List ℕ) → List ℕ × Option (List ℕ) → List ℕ
unfolding with_zone
span (start, start_zone) (stop, stop_zone) =
    if same_zone start_zone stop_zone
    then with_zone (start ++ to_ ++ stop) start_zone
    else with_zone start start_zone ++ to_ ++ with_zone stop stop_zone

unfoldable pub instant : List ℕ × Option (List ℕ) → List ℕ
unfolding with_zone
instant (time, zone) = with_zone time zone

unfoldable pub lasting : Option Property → List ℕ
unfolding trim
lasting none = []
lasting (some duration) = codes ", lasting " ++ trim duration.value

abbrev pub either : Option Property → Option Property → Option Property
either none q = q
either (some p) q = some p

unfoldable pub when_of : Option Property → Option Property → Option Property → Option (List ℕ)
unfolding render_time span instant lasting
when_of (some start) (some stop) duration = some (span (render_time start) (render_time stop))
when_of none (some stop) duration = some (instant (render_time stop))
when_of (some start) none duration = some (instant (render_time start) ++ lasting duration)
when_of none none duration = none

unfoldable pub render_when : List Property → Option (List ℕ)
unfolding first when_of
render_when props =
    when_of (first (codes "DTSTART") props)
      (either (first (codes "DTEND") props) (first (codes "DUE") props))
      (first (codes "DURATION") props)

-- The address without `mailto:`, in whatever case.
unfoldable pub without_mailto : List ℕ → List ℕ
unfolding eq_ignore_ascii_case
without_mailto value =
    if leb 7 (length value) && eq_ignore_ascii_case (take 7 value) (codes "mailto:")
    then drop 7 value
    else value

unfoldable pub named : Option (List ℕ) → List ℕ → List ℕ
unfolding trim
named none address = address
named (some name) address =
    if is_empty (trim name)
    then address
    else if not (is_empty address) && not (bytes_eq (trim name) address)
    then trim name ++ codes " <" ++ address ++ codes ">"
    else trim name

abbrev pub dash_to_space : ℕ → ℕ
dash_to_space c = if c == b'-' then b' ' else c

unfoldable pub status_of : Option (List ℕ) → List ℕ
unfolding to_lower
status_of none = []
status_of (some status) = codes " (" ++ map dash_to_space (map to_lower status) ++ codes ")"

unfoldable pub render_person : Property → List ℕ
unfolding text trim param without_mailto named status_of
render_person p =
    named (param (codes "CN") p) (trim (without_mailto (text p)))
    ++ status_of (param (codes "PARTSTAT") p)

unfoldable pub each : List ℕ → (Property → List ℕ) → List Property → List ℕ
each name print [] = []
each name print (p ∷ ps) =
    let rest = each name print ps in if bytes_eq p.name name then print p ++ rest else rest

unfoldable pub title_of : Option Property → List ℕ
unfolding text trim
title_of none = codes "(untitled)"
title_of (some p) = if is_empty (trim (text p)) then codes "(untitled)" else text p

unfoldable pub render_item : List Property → List ℕ
unfolding value_field field title_of render_when text_field render_person first each
render_item props =
    field (codes "Summary") (title_of (first (codes "SUMMARY") props))
    ++ value_field (codes "When") (render_when props)
    ++ text_field (codes "Where") (first (codes "LOCATION") props)
    ++ (elim (first (codes "ORGANIZER") props) [
      | none ↦ []
      | some p ↦ field (codes "Organizer") (render_person p)
    ])
    ++ each (codes "ATTENDEE") (λ p. field (codes "Attendee") (render_person p)) props
    ++ text_field (codes "Status") (first (codes "STATUS") props)
    ++ each (codes "RRULE") (λ p. field (codes "Repeats") p.value) props
    ++ text_field (codes "URL") (first (codes "URL") props)
    ++ text_field (codes "Description") (first (codes "DESCRIPTION") props)

unfoldable pub render_items : ℕ → ℕ → List (List ℕ × List Property) → List ℕ
unfolding show render_item
render_items index total [] = []
render_items index total ((kind, props) ∷ items) =
    (10 ∷ (if bytes_eq kind (codes "VTODO") then codes "Task" else codes "Event"))
    ++ (b' ' ∷ show index)
    ++ codes " of "
    ++ show total
    ++ (10 ∷ render_item props)
    ++ render_items (index + 1) total items

unfoldable pub calendar_name : Option Property → List ℕ
unfolding text trim field
calendar_name none = codes "Calendar\n"
calendar_name (some name) =
    if is_empty (trim (text name)) then codes "Calendar\n" else field (codes "Calendar") (text name)

abbrev pub flat : List (List ℕ × List Property) → List Property
flat [] = []
flat ((name, props) ∷ cs) = props ++ flat cs

unfoldable pub render_calendar : List Property → List ℕ
unfolding components calendar_name text_field render_items first
render_calendar properties =
    let props = flat (components (codes "VCALENDAR" ∷ []) properties) in
    let items = components (codes "VEVENT" ∷ codes "VTODO" ∷ []) properties in
    calendar_name (first (codes "X-WR-CALNAME") props)
    ++ text_field (codes "Method") (first (codes "METHOD") props)
    ++ (if length items == 0 then codes "\nNo events.\n" else render_items 1 (length items) items)
