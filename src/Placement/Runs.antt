-- ===== src/Placement/Runs.antt =====
-- Names, placements and listings at concrete inputs; the digest is sixty-four letters `a`.
use pigeon_cli.Base.{
  ℕ, zero, suc, ◌≡◌, ◌⊎◌, refl, true, false, none, some, List, [], ◌∷◌, ◌++◌, arith,
}
use pigeon_cli.Base.Lists.{length, all}
use pigeon_cli.Base.Text.{rsplit_once}
use pigeon_cli.Base.Ascii.{codes, is_hexdigit}
use pigeon_cli.Base.Outcome.{err}
use pigeon_cli.Format.Kind.{heic, xlsx}
use pigeon_cli.Placement.Names.{group_key, compute_destination_name}
use pigeon_cli.Placement.Place.{
  Disk, Answers, collision, place_one, place_sheet, Moved, Refused, Resumed, place_safe,
}
use pigeon_cli.Placement.Groups.{parse_sheet_marker, candidate_groups, index, is_complete}
use pigeon_cli.Placement.Sheets.{Entry, sheet, other, entry_names}
use pigeon_cli.Placement.Complete.{sheets_complete, plain_complete}

abbrev repeat : ℕ → List ℕ
repeat zero = []
repeat (suc n) = b'a' ∷ repeat n

abbrev digest : List ℕ → List ℕ
digest bytes = repeat 64

digest-hex :
    (bytes : List ℕ) → (length (digest bytes) ≡ 64) × (all is_hexdigit (digest bytes) ≡ true)
unfolding is_hexdigit
digest-hex bytes = (refl, refl)

plain_name_run :
    compute_destination_name digest (codes "r:b") (codes "d/IMG 1.HEIC") heic
    ≡ codes "IMG 1-aaaaaaaaaaaaaaaa.jpg"
unfolding compute_destination_name
plain_name_run = refl

-- A stem may hold another candidate.
candidates_run :
    candidate_groups (codes "x-0123456789abcdef-aaaaaaaaaaaaaaaa")
    ≡ (codes "x-0123456789abcdef", codes "-aaaaaaaaaaaaaaaa")
      ∷ (codes "x-0123456789abcdef-aaaaaaaaaaaaaaaa", [])
      ∷ []
unfolding candidate_groups
candidates_run = refl

marker_run : parse_sheet_marker (codes "-03of02-x") ≡ none
unfolding parse_sheet_marker
marker_run = refl

-- One sheet of two, twice, and a file of another kind.
abbrev half : List Entry
half = sheet 2 (codes "Q1") ∷ other (codes "notes.txt") ∷ sheet 2 (codes "Q1") ∷ []

sheets_complete_example :
    is_complete
      (group_key digest (codes "r:b") (codes "d/w.xlsx") xlsx)
      (index (entry_names (group_key digest (codes "r:b") (codes "d/w.xlsx") xlsx) 2 xlsx half))
    ≡ false
unfolding candidate_groups rsplit_once
sheets_complete_example =
    sheets_complete digest digest-hex (codes "r:b") (codes "d/w.xlsx") xlsx 2 half (omega arith)
      (omega arith) ((omega arith, omega arith), (tt, ((omega arith, omega arith), tt)))

plain_complete_example :
    is_complete (group_key digest (codes "r:b") (codes "d/a.heic") heic) (
      index (
        (codes "x.jpg" ∷ [])
        ++ (compute_destination_name digest (codes "r:b") (codes "d/a.heic") heic ∷ [])))
    ≡ true
plain_complete_example =
    plain_complete digest digest-hex (codes "r:b") (codes "d/a.heic") heic (codes "x.jpg" ∷ []) []

abbrev one_file : Disk
one_file = record { files = (codes "a.jpg", codes "old") ∷ []; scratch = some (codes "new") }

abbrev all_well : Answers
all_well = record { creates = true; removes = true; renames = true }

collision_run :
    (place_one all_well (codes "a.jpg") one_file ≡ (err collision, one_file))
    × ((place_sheet all_well (codes "a.jpg") one_file).1.files ≡ one_file.files)
unfolding place_one place_sheet
collision_run = (refl, refl)

place_safe_example :
    (Moved (codes "b.jpg") one_file (place_one all_well (codes "b.jpg") one_file)
      ⊎ Refused all_well (codes "b.jpg") one_file (place_one all_well (codes "b.jpg") one_file))
    × (Moved (codes "b.jpg") one_file (place_sheet all_well (codes "b.jpg") one_file)
        ⊎ (Resumed (codes "b.jpg") one_file (place_sheet all_well (codes "b.jpg") one_file)
            ⊎ Refused all_well
                (codes "b.jpg")
                one_file
                (place_sheet all_well (codes "b.jpg") one_file)))
place_safe_example = place_safe all_well (codes "b.jpg") one_file
