-- ===== src/Placement/Sheets.antt =====
-- A listing of the sheets of one workbook among other files.
use pigeon_cli.Base.{
  ℕ, zero, suc, ◌≤◌, ◌<◌, ◌≡◌, refl, ◌⊎◌, inl, inr, false, none, some, List, [], ◌∷◌, ◌++◌, arith,
  ap, sym, ◌∙◌,
}
use pigeon_cli.Base.Tests.{==_refl, u64_mod}
use pigeon_cli.Base.Lists.{length, All}
use pigeon_cli.Base.Text.{has, has-append, rsplit_once}
use pigeon_cli.Base.Decimal.{show_2}
use pigeon_cli.Data.Slug.{sheet_slug}
use pigeon_cli.Format.Kind.{InputFileType}
use pigeon_cli.Placement.Names.{sheet_stem, sheet_destination_name}
use pigeon_cli.Placement.Groups.{
  GroupState, default, add_marker, register, candidate_groups, stem_or_whole, state_complete,
  insert_member,
}
use pigeon_cli.Placement.Candidates.{IsDigest}
use pigeon_cli.Placement.Marker.{parse_sheet_marker-show}
use pigeon_cli.Placement.Count.{
  count, covers, count-covers, covers-cong, count-insert, insert_member-has, count-nil,
}
use pigeon_cli.Placement.Listing.{
  name_effect, listing_effect, name_effect-key, Unrelated, effect-Unrelated,
}

-- The names of a listing: a sheet of the workbook with the key, or any other file.
pub data Entry : Type 0 where
  sheet : ℕ → List ℕ → Entry
  other : List ℕ → Entry

abbrev pub entry_names : List ℕ → ℕ → InputFileType → List Entry → List (List ℕ)
entry_names g total kind [] = []
entry_names g total kind (sheet i sheet_name ∷ es) =
    sheet_destination_name g i total sheet_name kind ∷ entry_names g total kind es
entry_names g total kind (other name ∷ es) = name ∷ entry_names g total kind es

abbrev pub indices : List Entry → List ℕ
indices [] = []
indices (sheet i sheet_name ∷ es) = i ∷ indices es
indices (other name ∷ es) = indices es

abbrev pub IsEntry : List ℕ → ℕ → Entry → Type 0
IsEntry g total (sheet i sheet_name) = (1 ≤ i) × (i ≤ total)
IsEntry g total (other name) = Unrelated g name

-- The state that sheets of the workbook leave behind.
pub record Good (total : ℕ) (s : GroupState) : Type 0 where
  pub not_plain : s.plain ≡ false
  pub agreed : s.inconsistent ≡ false
  pub declared : (s.declared_total ≡ some total) ⊎ ((s.declared_total ≡ none) × (s.members ≡ []))
  pub tally : length s.members ≡ count total s.members

add_marker-members :
    (i t : ℕ) (s : GroupState) → (add_marker (some (i, t)) s).members ≡ insert_member i s.members
unfolding add_marker
add_marker-members i t s = ground arith

add_marker-Good :
    (i t : ℕ) (s : GroupState) → 1 ≤ i → i ≤ t → Good t s → Good t (add_marker (some (i, t)) s)
unfolding add_marker
add_marker-Good i t s lo hi g = elim g.declared [
  | inl d ↦
      rw (d, ==_refl t)
        (record {
          not_plain = g.not_plain;
          agreed = g.agreed;
          declared = inl refl;
          tally = count-insert t i s.members lo hi g.tally;
        })
  | inr (d, e) ↦ rw d (record {
    not_plain = g.not_plain;
    agreed = g.agreed;
    declared = inl refl;
    tally = count-insert t i s.members lo hi g.tally;
  })
]

covers-none : (t : ℕ) → 1 ≤ t → covers t [] ≡ false
covers-none zero h = absurd (omega arith)
covers-none (suc t) h = refl

state_complete-Good :
    (t : ℕ) (s : GroupState) → 1 ≤ t → Good t s → state_complete s ≡ covers t s.members
unfolding state_complete
state_complete-Good t s pos g = elim g.declared [
  | inl d ↦ rw (g.not_plain, g.agreed, d, g.tally) (count-covers t s.members)
  | inr (d, e) ↦ rw (g.not_plain, g.agreed, d, e) (sym (covers-none t pos))
]

-- The name of a sheet enters its index and the total.
sheet_effect :
    (stem digest : List ℕ) (i t : ℕ) (sheet_name : List ℕ) (kind : InputFileType) (s : GroupState)
    → IsDigest digest
    → 1 ≤ i
    → i ≤ t
    → t < u64_mod
    → name_effect
        (stem ++ (b'-' ∷ digest))
        (sheet_destination_name (stem ++ (b'-' ∷ digest)) i t sheet_name kind)
        s
      ≡ add_marker (some (i, t)) s
unfolding sheet_destination_name sheet_stem register
sheet_effect stem digest i t sheet_name kind s d lo hi fits =
    name_effect-key stem digest
      (b'-' ∷ ((show_2 i ++ (b'o' ∷ b'f' ∷ show_2 t)) ++ (b'-' ∷ sheet_slug sheet_name))) kind s d
      refl
    ∙ ap (λ m. add_marker m s) (parse_sheet_marker-show i t (sheet_slug sheet_name) lo hi fits)

moved :
    (i t : ℕ) (es : List Entry) (s : GroupState) (j : ℕ)
    → has j (indices es ++ (add_marker (some (i, t)) s).members)
      ≡ has j (i ∷ (indices es ++ s.members))
moved i t es s j = rw (add_marker-members i t s) (
    ground (
      arith,
      has-append j (indices es) (insert_member i s.members),
      has-append j (indices es) s.members,
      insert_member-has j i s.members,
    ))

-- The entries of a listing, read one after the other, from a state that sheets left behind.
pub listing-Good :
    (stem digest : List ℕ) (t : ℕ) (kind : InputFileType) (es : List Entry) (s : GroupState)
    → IsDigest digest
    → 1 ≤ t
    → t < u64_mod
    → All (IsEntry (stem ++ (b'-' ∷ digest)) t) es
    → Good t s
    → state_complete (
        listing_effect
          (stem ++ (b'-' ∷ digest))
          (entry_names (stem ++ (b'-' ∷ digest)) t kind es)
          s)
      ≡ covers t (indices es ++ s.members)
listing-Good stem digest t kind [] s d pos fits es g = state_complete-Good t s pos g
listing-Good stem digest t kind (other name ∷ es) s d pos fits (apart, rest) g =
    let key = stem ++ (b'-' ∷ digest) in
    ap (λ q. state_complete (listing_effect key (entry_names key t kind es) q))
      (effect-Unrelated key (candidate_groups (stem_or_whole name (rsplit_once b'.' name))) s apart)
    ∙ listing-Good stem digest t kind es s d pos fits rest g
listing-Good stem digest t kind (sheet i sheet_name ∷ es) s d pos fits ((lo, hi), rest) g =
    let key = stem ++ (b'-' ∷ digest) in
    let next = add_marker (some (i, t)) s in
    ap (λ q. state_complete (listing_effect key (entry_names key t kind es) q))
      (sheet_effect stem digest i t sheet_name kind s d lo hi fits)
    ∙ listing-Good stem digest t kind es next d pos fits rest (add_marker-Good i t s lo hi g)
    ∙ covers-cong t (indices es ++ next.members) (i ∷ (indices es ++ s.members)) (moved i t es s)

pub fresh-Good : (t : ℕ) → Good t default
fresh-Good t = record {
  not_plain = refl;
  agreed = refl;
  declared = inr (refl, refl);
  tally = sym (count-nil t);
}
