-- ===== src/Placement/Plain.antt =====
-- A listing in which the plain name of a group stands.
use pigeon_cli.Base.{
  append-nil, ℕ, ◌≡◌, refl, inl, inr, true, Option, none, some, List, [], ◌∷◌, ◌++◌, arith, ap, sym,
  ◌∙◌,
}
use pigeon_cli.Base.Tests.{Bool-cases}
use pigeon_cli.Base.Text.{is_empty, rsplit_once}
use pigeon_cli.Base.Ascii.{bytes_eq}
use pigeon_cli.Format.Kind.{InputFileType, output_extension}
use pigeon_cli.Placement.Groups.{
  GroupState, add_marker, register, parse_sheet_marker, candidate_groups, stem_or_whole,
  state_complete,
}
use pigeon_cli.Placement.Candidates.{Candidate, IsDigest, effect}
use pigeon_cli.Placement.Listing.{name_effect, listing_effect, name_effect-key}

-- A name with a plain output stays one, whatever else is read.
register-plain : (r : List ℕ) (s : GroupState) → s.plain ≡ true → (register r s).plain ≡ true
unfolding register add_marker
register-plain r s h = elim (Bool-cases (is_empty r)) [
  | inl empty ↦ rw empty refl
  | inr filled ↦ rw filled (marked (parse_sheet_marker r) s h)
]
  where
    marked : (m : Option (ℕ × ℕ)) (q : GroupState) → q.plain ≡ true → (add_marker m q).plain ≡ true
    marked none q e = e
    marked (some (i, t)) q e = ground arith

effect-plain :
    (g : List ℕ) (cs : List Candidate) (s : GroupState)
    → s.plain ≡ true
    → (effect g cs s).plain ≡ true
unfolding effect
effect-plain g [] s h = h
effect-plain g ((k, r) ∷ cs) s h = elim (Bool-cases (bytes_eq k g)) [
  | inl same ↦ rw (effect, same) (effect-plain g cs (register r s) (register-plain r s h))
  | inr differ ↦ rw (effect, differ) (effect-plain g cs s h)
]

pub listing-plain :
    (g : List ℕ) (names : List (List ℕ)) (s : GroupState)
    → s.plain ≡ true
    → (listing_effect g names s).plain ≡ true
listing-plain g [] s h = h
listing-plain g (name ∷ names) s h =
    let cs = candidate_groups (stem_or_whole name (rsplit_once b'.' name)) in
    listing-plain g names (effect g cs s) (effect-plain g cs s h)

pub listing_effect-append :
    (g : List ℕ) (before after : List (List ℕ)) (s : GroupState)
    → listing_effect g (before ++ after) s ≡ listing_effect g after (listing_effect g before s)
listing_effect-append g [] after s = refl
listing_effect-append g (name ∷ before) after s =
    listing_effect-append g before after (name_effect g name s)

pub state_complete-plain : (s : GroupState) → s.plain ≡ true → state_complete s ≡ true
unfolding state_complete
state_complete-plain s h = rw h refl

pub name_effect-plain :
    (stem digest : List ℕ) (kind : InputFileType) (s : GroupState)
    → IsDigest digest
    → (name_effect
        (stem ++ (b'-' ∷ digest))
        ((stem ++ (b'-' ∷ digest)) ++ (b'.' ∷ output_extension kind))
        s).plain
      ≡ true
unfolding register
name_effect-plain stem digest kind s d =
    let key = stem ++ (b'-' ∷ digest) in
    ap (λ (k : List ℕ). (name_effect key (k ++ (b'.' ∷ output_extension kind)) s).plain)
      (sym (append-nil key))
    ∙ ap (λ q. q.plain) (name_effect-key stem digest [] kind s d refl)
