-- ===== src/Placement/Listing.antt =====
-- What the names of a listing do, one after the other, to the state of one group.
use pigeon_cli.Base.{ℕ, ◌≡◌, refl, true, false, List, [], ◌∷◌, ◌++◌, arith, ap, ◌∙◌}
use pigeon_cli.Base.Lists.{All}
use pigeon_cli.Base.Text.{rsplit_once, rsplit_once-append}
use pigeon_cli.Base.Ascii.{bytes_eq}
use pigeon_cli.Base.Assoc
use pigeon_cli.Base.Assoc.{Assoc}
use pigeon_cli.Format.Kind.{InputFileType, output_extension, output_extension-has}
use pigeon_cli.Placement.Groups.{
  ends_group, GroupState, default, register, add_candidates, candidate_groups, stem_or_whole,
  index_from, index, state_complete, is_complete,
}
use pigeon_cli.Placement.Candidates.{
  Candidate, IsDigest, effect, effect-key, state_of, state_of-add_candidates,
}

-- What one name of a listing does to the state of a group, and what all of them do.
abbrev pub name_effect : List ℕ → List ℕ → GroupState → GroupState
name_effect g name s = effect g (candidate_groups (stem_or_whole name (rsplit_once b'.' name))) s

abbrev pub listing_effect : List ℕ → List (List ℕ) → GroupState → GroupState
listing_effect g [] s = s
listing_effect g (name ∷ names) s = listing_effect g names (name_effect g name s)

state_of-index_from :
    (g : List ℕ) (names : List (List ℕ)) (groups : Assoc GroupState)
    → state_of g (index_from names groups) ≡ listing_effect g names (state_of g groups)
unfolding index_from
state_of-index_from g [] groups = refl
state_of-index_from g (name ∷ names) groups =
    let cs = candidate_groups (stem_or_whole name (rsplit_once b'.' name)) in
    state_of-index_from g names (add_candidates cs groups)
    ∙ ap (listing_effect g names) (state_of-add_candidates g cs groups)

is_complete-state_of :
    (g : List ℕ) (groups : Assoc GroupState)
    → is_complete g groups ≡ state_complete (state_of g groups)
unfolding is_complete state_complete
is_complete-state_of g groups = ground arith

-- The answer is what the names do, one after the other, to the state of the group.
pub is_complete-index :
    (g : List ℕ) (names : List (List ℕ))
    → is_complete g (index names) ≡ state_complete (listing_effect g names default)
unfolding index Assoc.lookup
is_complete-index g names =
    is_complete-state_of g (index_from names [])
    ∙ ap state_complete (state_of-index_from g names [])

-- A name with a group's key in front of its remainder and its extension.
pub name_effect-key :
    (stem digest rest : List ℕ) (kind : InputFileType) (s : GroupState)
    → IsDigest digest
    → ends_group rest ≡ true
    → name_effect
        (stem ++ (b'-' ∷ digest))
        (((stem ++ (b'-' ∷ digest)) ++ rest) ++ (b'.' ∷ output_extension kind))
        s
      ≡ register rest s
name_effect-key stem digest rest kind s d e =
    rw
      (rsplit_once-append b'.' ((stem ++ (b'-' ∷ digest)) ++ rest) (output_extension kind)
        (output_extension-has kind))
      (effect-key stem digest rest s d e)

-- A name none of whose candidates is the key does nothing to the state.
abbrev pub Unrelated : List ℕ → List ℕ → Type 0
Unrelated g name =
    All (λ (c : Candidate). bytes_eq c.0 g ≡ false)
      (candidate_groups (stem_or_whole name (rsplit_once b'.' name)))

pub effect-Unrelated :
    (g : List ℕ) (cs : List Candidate) (s : GroupState)
    → All (λ (c : Candidate). bytes_eq c.0 g ≡ false) cs
    → effect g cs s ≡ s
unfolding effect
effect-Unrelated g [] s h = refl
effect-Unrelated g ((k, r) ∷ cs) s (h, hs) = rw h (effect-Unrelated g cs s hs)
