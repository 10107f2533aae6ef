-- ===== src/Placement/Groups.antt =====
-- `DestinationGroups`: the index over the names of a listing.
use pigeon_cli.Base.{ℕ, Bool, true, false, not, ◌&&◌, ◌||◌, Option, none, some, List, [], ◌∷◌, ◌++◌}
use pigeon_cli.Base.Tests.{ltb, ◌==◌, if◌then◌else◌, u64_mod}
use pigeon_cli.Base.Lists.{length, take, drop, all}
use pigeon_cli.Base.Text.{has, is_empty, split_once, rsplit_once, strip_prefix}
use pigeon_cli.Base.Ascii.{is_digit, is_hexdigit}
use pigeon_cli.Base.Decimal.{parse_uint}
use pigeon_cli.Base.Assoc
use pigeon_cli.Base.Assoc.{Assoc}
use pigeon_cli.Placement.Names.{name_hash_hex_len}

-- `members` is a set: an index stands in it once.
pub record GroupState : Type 0 where
  pub plain : Bool
  pub members : List ℕ
  pub declared_total : Option ℕ
  pub inconsistent : Bool

abbrev pub default : GroupState
default = record { plain = false; members = []; declared_total = none; inconsistent = false }

-- `s.split_once("of")`
unfoldable pub split_once_of : List ℕ → Option (List ℕ × List ℕ)
split_once_of [] = none
split_once_of (c ∷ []) = none
split_once_of (c ∷ d ∷ cs) =
    let later : Option (List ℕ × List ℕ) = elim (split_once_of (d ∷ cs)) [
      | none ↦ none
      | some (a, b) ↦ some (c ∷ a, b)
    ] in
    if c == b'o' && d == b'f' then some ([], cs) else later

-- The checks on the two numbers of a marker.
unfoldable pub checked_marker : List ℕ → List ℕ → Option (ℕ × ℕ)
unfolding parse_uint
checked_marker index total =
    if is_empty index || is_empty total
    then none
    else if not (all is_digit index) || not (all is_digit total)
    then none
    else elim (parse_uint u64_mod index) [
      | none ↦ none
      | some i ↦ elim (parse_uint u64_mod total) [
        | none ↦ none
        | some t ↦ if i == 0 || t == 0 || ltb t i then none else some (i, t)
      ]
    ]

unfoldable pub parse_sheet_marker : List ℕ → Option (ℕ × ℕ)
unfolding strip_prefix split_once split_once_of checked_marker
parse_sheet_marker remainder = elim (strip_prefix (b'-' ∷ []) remainder) [
  | none ↦ none
  | some tail ↦ elim (split_once b'-' tail) [
    | none ↦ none
    | some (marker, slug) ↦ elim (split_once_of marker) [
      | none ↦ none
      | some (index, total) ↦ checked_marker index total
    ]
  ]
]

-- What follows the digest: nothing, or the dash of a marker.
abbrev pub ends_group : List ℕ → Bool
ends_group [] = true
ends_group (c ∷ cs) = c == b'-'

abbrev pub is_digest : List ℕ → Bool
is_digest after_dash =
    all is_hexdigit (take name_hash_hex_len after_dash)
    && ends_group (drop name_hash_hex_len after_dash)

-- `candidate_groups`, with the bytes in front of the ones still to be read.
unfoldable pub candidates_from : List ℕ → List ℕ → List (List ℕ × List ℕ)
unfolding is_hexdigit
candidates_from front [] = []
candidates_from front (c ∷ cs) =
    let rest = candidates_from (front ++ (c ∷ [])) cs in
    if c == b'-'
    then (if ltb (length cs) name_hash_hex_len
        then []
        else if is_digest cs
        then (front ++ (b'-' ∷ take name_hash_hex_len cs), drop name_hash_hex_len cs) ∷ rest
        else rest)
    else rest

unfoldable pub candidate_groups : List ℕ → List (List ℕ × List ℕ)
unfolding candidates_from
candidate_groups stem = candidates_from [] stem

abbrev pub insert_member : ℕ → List ℕ → List ℕ
insert_member i members = if has i members then members else i ∷ members

unfoldable pub add_marker : Option (ℕ × ℕ) → GroupState → GroupState
add_marker none s = s
add_marker (some (index, total)) s =
    let s' = record s { members = insert_member index s.members } in
    elim s.declared_total [
      | none ↦ record s' { declared_total = some total }
      | some seen ↦ if seen == total then s' else record s' { inconsistent = true }
    ]

unfoldable pub register : List ℕ → GroupState → GroupState
unfolding parse_sheet_marker add_marker
register remainder s =
    if is_empty remainder
    then record s { plain = true }
    else add_marker (parse_sheet_marker remainder) s

abbrev pub or_default : Option GroupState → GroupState
or_default none = default
or_default (some s) = s

-- One name, and all of them.
unfoldable pub add_candidates : List (List ℕ × List ℕ) → Assoc GroupState → Assoc GroupState
unfolding register
add_candidates [] groups = groups
add_candidates ((group, remainder) ∷ rest) groups =
    add_candidates rest
      (Assoc.insert group (register remainder (or_default (Assoc.lookup group groups))) groups)

abbrev pub stem_or_whole : List ℕ → Option (List ℕ × List ℕ) → List ℕ
stem_or_whole name none = name
stem_or_whole name (some (head, _)) = head

unfoldable pub index_from : List (List ℕ) → Assoc GroupState → Assoc GroupState
unfolding rsplit_once candidate_groups add_candidates
index_from [] groups = groups
index_from (name ∷ names) groups =
    index_from names
      (add_candidates (candidate_groups (stem_or_whole name (rsplit_once b'.' name))) groups)

unfoldable pub index : List (List ℕ) → Assoc GroupState
unfolding index_from
index names = index_from names []

unfoldable pub state_complete : GroupState → Bool
state_complete s =
    if s.plain
    then true
    else if s.inconsistent
    then false
    else elim s.declared_total [ none ↦ false | some total ↦ total == length s.members ]

unfoldable pub is_complete : List ℕ → Assoc GroupState → Bool
unfolding state_complete
is_complete group groups = elim (Assoc.lookup group groups) [
  | none ↦ false
  | some s ↦ state_complete s
]
