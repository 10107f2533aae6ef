-- ===== src/Placement/Place.antt =====
-- `place_one` and `place_sheet` on one result directory.
use pigeon_cli.Base.{
  arith, ℕ, ◌≡◌, refl, sym, subst, ◌∙◌, ◌⊎◌, inl, inr, Bool, true, false, Option, none, some, List,
}
use pigeon_cli.Base.Tests.{if◌then◌else◌, Bool-cases}
use pigeon_cli.Base.Ascii.{bytes_eq, bytes_eq_refl, bytes_eq→eq}
use pigeon_cli.Base.Outcome.{Result, ok, err}
use pigeon_cli.Base.Assoc.{Assoc, lookup, insert}
use pigeon_cli.Base.Assoc

-- The files of the result directory with their contents, and the scratch file if it is still there.
pub record Disk : Type 0 where
  pub files : Assoc (List ℕ)
  pub scratch : Option (List ℕ)

-- What the file system answers: whether the directory can be made, the scratch file be removed, and
-- the rename succeeds.
pub record Answers : Type 0 where
  pub creates : Bool
  pub removes : Bool
  pub renames : Bool

pub data PlaceError : Type 0 where
  create_failed collision rename_failed : PlaceError

-- `rename` of the scratch file to a name: a file that has the name is replaced.
unfoldable pub move_in : Bool → List ℕ → Disk → Result PlaceError (List ℕ) × Disk
unfolding Assoc.insert
move_in renames name d = elim d.scratch [
  | none ↦ (err rename_failed, d)
  | some content ↦
      if renames
      then (ok name, record { files = Assoc.insert name content d.files; scratch = none })
      else (err rename_failed, d)
]

unfoldable pub place_one : Answers → List ℕ → Disk → Result PlaceError (List ℕ) × Disk
unfolding move_in Assoc.lookup
place_one a name d =
    if a.creates
    then (elim (Assoc.lookup name d.files) [
      | some there ↦ (err collision, d)
      | none ↦ move_in a.renames name d
    ])
    else (err create_failed, d)

-- A failed removal of the scratch file is ignored.
unfoldable pub place_sheet : Answers → List ℕ → Disk → Result PlaceError (List ℕ) × Disk
unfolding move_in Assoc.lookup
place_sheet a name d =
    if a.creates
    then (elim (Assoc.lookup name d.files) [
      | some there ↦ (ok name, if a.removes then record d { scratch = none } else d)
      | none ↦ move_in a.renames name d
    ])
    else (err create_failed, d)

-- Why a placement is refused.
abbrev Cause : Answers → List ℕ → Disk → PlaceError → Type 0
Cause a name d create_failed = a.creates ≡ false
Cause a name d collision = (content : List ℕ) × (Assoc.lookup name d.files ≡ some content)
Cause a name d rename_failed = (a.renames ≡ false) ⊎ (d.scratch ≡ none)

-- An error, with its reason, and nothing has changed.
abbrev pub Refused : Answers → List ℕ → Disk → Result PlaceError (List ℕ) × Disk → Type 0
Refused a name d out = (e : PlaceError) × (out ≡ (err e, d)) × Cause a name d e

-- The name was free, and it has the content of the scratch file, which is gone; every other name is
-- as it was.
abbrev pub Moved : List ℕ → Disk → Result PlaceError (List ℕ) × Disk → Type 0
Moved name d out =
    (out.0 ≡ ok name)
    × (Assoc.lookup name d.files ≡ none)
    × ((content : List ℕ) × (d.scratch ≡ some content)
        × (Assoc.lookup name out.1.files ≡ some content))
    × (out.1.scratch ≡ none)
    × ((other : List ℕ)
        → (Assoc.lookup other out.1.files ≡ Assoc.lookup other d.files) ⊎ (name ≡ other))

-- The name was taken, and all files are as they were.
abbrev pub Resumed : List ℕ → Disk → Result PlaceError (List ℕ) × Disk → Type 0
Resumed name d out =
    (out.0 ≡ ok name)
    × ((content : List ℕ) × (Assoc.lookup name d.files ≡ some content))
    × (out.1.files ≡ d.files)

inserted :
    (name content other : List ℕ) (files : Assoc (List ℕ))
    → (Assoc.lookup other (Assoc.insert name content files) ≡ Assoc.lookup other files)
      ⊎ (name ≡ other)
inserted name content other files = elim (Bool-cases (bytes_eq name other)) [
  | inl same ↦ inr (bytes_eq→eq name other same)
  | inr differs ↦ inl (rw (Assoc.lookup-insert name other content files, differs) refl)
]

Option-cases {ℓ} : {A : Type ℓ} (o : Option A) → (o ≡ none) ⊎ ((x : A) × (o ≡ some x))
Option-cases none = inl refl
Option-cases (some x) = inr (x, refl)

kept_files :
    (removes : Bool) (d : Disk)
    → (if removes then record d { scratch = none } else d).files ≡ d.files
kept_files true d = refl
kept_files false d = refl

widen {ℓ ℓ' ℓ''} : {A : Type ℓ} {B : Type ℓ'} {C : Type ℓ''} → A ⊎ C → A ⊎ (B ⊎ C)
widen (inl x) = inl x
widen (inr x) = inr (inr x)

-- The result directory after the scratch file was moved.
abbrev with_file : List ℕ → List ℕ → Disk → Disk
with_file name content d = record { files = Assoc.insert name content d.files; scratch = none }

with_file-Moved :
    (name content : List ℕ) (d : Disk)
    → Assoc.lookup name d.files ≡ none
    → d.scratch ≡ some content
    → Moved name d (ok name, with_file name content d)
with_file-Moved name content d free held = (
  refl,
  free,
  (content, held, Assoc.lookup-insert name name content d.files ∙ rw (bytes_eq_refl name) refl),
  refl,
  λ other. inserted name content other d.files,
)

renamed :
    (a : Answers) (name content : List ℕ) (d : Disk)
    → Assoc.lookup name d.files ≡ none
    → d.scratch ≡ some content
    → Moved name d (move_in a.renames name d) ⊎ Refused a name d (move_in a.renames name d)
renamed a name content d free held = elim (Bool-cases a.renames) [
  | inr stuck ↦ inr (rename_failed, refused stuck, inl stuck)
  | inl well ↦
      inl (subst (Moved name d) (sym (moved well)) (with_file-Moved name content d free held))
]
  where
    refused : a.renames ≡ false → move_in a.renames name d ≡ (err rename_failed, d)
    refused stuck = unfold move_in in ground arith

    moved : a.renames ≡ true → move_in a.renames name d ≡ (ok name, with_file name content d)
    moved well = unfold move_in in ground arith

not_moved :
    (a : Answers) (name : List ℕ) (d : Disk)
    → d.scratch ≡ none
    → Refused a name d (move_in a.renames name d)
not_moved a name d gone = (rename_failed, unfold move_in in ground arith, inr gone)

move_in_lem :
    (a : Answers) (name : List ℕ) (d : Disk)
    → Assoc.lookup name d.files ≡ none
    → Moved name d (move_in a.renames name d) ⊎ Refused a name d (move_in a.renames name d)
move_in_lem a name d free = elim (Option-cases d.scratch) [
  | inl gone ↦ inr (not_moved a name d gone)
  | inr (content, held) ↦ renamed a name content d free held
]

free_name :
    (a : Answers) (name : List ℕ) (d : Disk)
    → a.creates ≡ true
    → Assoc.lookup name d.files ≡ none
    → (place_one a name d ≡ move_in a.renames name d)
      × (place_sheet a name d ≡ move_in a.renames name d)
unfolding place_one place_sheet
free_name a name d made free = (rw (made, free) refl, rw (made, free) refl)

taken_name :
    (a : Answers) (name content : List ℕ) (d : Disk)
    → a.creates ≡ true
    → Assoc.lookup name d.files ≡ some content
    → (place_one a name d ≡ (err collision, d))
      × (place_sheet a name d ≡ (ok name, if a.removes then record d { scratch = none } else d))
unfolding place_one place_sheet
taken_name a name content d made taken = (rw (made, taken) refl, rw (made, taken) refl)

not_made :
    (a : Answers) (name : List ℕ) (d : Disk)
    → a.creates ≡ false
    → (place_one a name d ≡ (err create_failed, d))
      × (place_sheet a name d ≡ (err create_failed, d))
unfolding place_one place_sheet
not_made a name d stuck = (rw stuck refl, rw stuck refl)

-- `place_one` moves the scratch file to a free name or refuses with the error that fits;
-- `place_sheet` does so too, or returns a name that was taken and leaves all files as they are.
-- No file is ever written over, and where one of the two fails nothing has changed.
pub place_safe :
    (a : Answers) (name : List ℕ) (d : Disk)
    → (Moved name d (place_one a name d) ⊎ Refused a name d (place_one a name d))
      × (Moved name d (place_sheet a name d)
          ⊎ (Resumed name d (place_sheet a name d) ⊎ Refused a name d (place_sheet a name d)))
place_safe a name d = elim (Bool-cases a.creates) [
  | inr stuck ↦
      let (one, sheet) = not_made a name d stuck in
      (inr (create_failed, one, stuck), inr (inr (create_failed, sheet, stuck)))
  | inl made ↦ elim (Option-cases (Assoc.lookup name d.files)) [
    | inr (content, taken) ↦
        let (one, sheet) = taken_name a name content d made taken in
        (
          inr (collision, one, (content, taken)),
          inr (
              inl (
                subst (Resumed name d) (sym sheet)
                  (refl, (content, taken), kept_files a.removes d))),
        )
    | inl free ↦
        let (one, sheet) = free_name a name d made free in
        let moved = move_in_lem a name d free in
        (
          subst (λ out. Moved name d out ⊎ Refused a name d out) (sym one) moved,
          subst (λ out. Moved name d out ⊎ (Resumed name d out ⊎ Refused a name d out)) (sym sheet)
              (widen {B = Resumed name d (move_in a.renames name d)} moved),
        )
  ]
]
