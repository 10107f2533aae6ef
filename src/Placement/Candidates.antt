-- ===== src/Placement/Candidates.antt =====
-- A group key is among the candidates of every name that it begins, and tells the state of its
-- group from the rest of the name.
use pigeon_cli.Base.{
  ℕ, ◌≤◌, ◌≡◌, refl, ◌⊎◌, inl, inr, true, false, Option, none, some, List, [], ◌∷◌, ◌++◌, arith, ap,
  ◌∙◌, append_assoc,
}
use pigeon_cli.Base.Tests.{==→eq, ltb, ◌==◌, if◌then◌else◌, Bool-cases, ==_refl}
use pigeon_cli.Base.Lists.{
  length, take, drop, all, All, length-append, take-append, drop-append, take-append-drop,
}
use pigeon_cli.Base.Text.{is_empty}
use pigeon_cli.Base.Ascii.{is_hexdigit, bytes_eq, bytes_eq_refl, bytes_eq→eq}
use pigeon_cli.Base.Assoc
use pigeon_cli.Base.Assoc.{Assoc}
use pigeon_cli.Placement.Names.{name_hash_hex_len}
use pigeon_cli.Placement.Groups.{
  GroupState, ends_group, is_digest, candidates_from, candidate_groups, add_marker, register,
  or_default, add_candidates, parse_sheet_marker,
}

abbrev pub Candidate : Type 0
Candidate = List ℕ × List ℕ

abbrev pub Among : List ℕ → List ℕ → List Candidate → Type 0
Among g r [] = ⊥
Among g r ((h, q) ∷ cs) = ((h ≡ g) × (q ≡ r)) ⊎ Among g r cs

-- Every candidate is a way to cut the whole stem in two.
abbrev Cuts : List ℕ → Candidate → Type 0
Cuts s (h, q) = h ++ q ≡ s

cut_here :
    (front : List ℕ) (c : ℕ) (cs whole : List ℕ)
    → front ++ (c ∷ cs) ≡ whole
    → (c == b'-') ≡ true
    → (front ++ (b'-' ∷ take name_hash_hex_len cs)) ++ drop name_hash_hex_len cs ≡ whole
cut_here front c cs whole e at =
    append_assoc front (b'-' ∷ take name_hash_hex_len cs) (drop name_hash_hex_len cs)
    ∙ ap (λ (l : List ℕ). front ++ (b'-' ∷ l)) (take-append-drop name_hash_hex_len cs)
    ∙ (rw (==→eq c b'-' at) at e)

candidates_from-Cuts :
    (front s whole : List ℕ) → front ++ s ≡ whole → All (Cuts whole) (candidates_from front s)
unfolding candidates_from
candidates_from-Cuts front [] whole e = tt
candidates_from-Cuts front (c ∷ cs) whole e =
    let onward =
      candidates_from-Cuts (front ++ (c ∷ [])) cs whole (append_assoc front (c ∷ []) cs ∙ e) in
    elim (Bool-cases (c == b'-')) [
      | inr off ↦ rw off onward
      | inl at ↦ elim (Bool-cases (ltb (length cs) name_hash_hex_len)) [
        | inl short ↦ rw (at, short) tt
        | inr long ↦ elim (Bool-cases (is_digest cs)) [
          | inl found ↦ rw (at, long, found) (cut_here front c cs whole e at, onward)
          | inr other ↦ rw (at, long, other) onward
        ]
      ]
    ]

-- The digest of a key: sixteen hexadecimal digits.
pub record IsDigest (digest : List ℕ) : Type 0 where
  pub size : length digest ≡ name_hash_hex_len
  pub hex : all is_hexdigit digest ≡ true

is_digest-append :
    (digest rest : List ℕ)
    → IsDigest digest
    → ends_group rest ≡ true
    → (is_digest (digest ++ rest) ≡ true)
      × (take name_hash_hex_len (digest ++ rest) ≡ digest)
      × (drop name_hash_hex_len (digest ++ rest) ≡ rest)
is_digest-append digest rest d e =
    let front = rw d.size at (take-append digest rest) in
    let back = rw d.size at (drop-append digest rest) in (rw (front, back, d.hex) e, front, back)

not_short : (n : ℕ) → name_hash_hex_len ≤ n → ltb n name_hash_hex_len ≡ false
not_short n h = ground arith

candidates_from-Among :
    (front stem digest rest : List ℕ)
    → IsDigest digest
    → ends_group rest ≡ true
    → Among
        (front ++ (stem ++ (b'-' ∷ digest)))
        rest
        (candidates_from front (stem ++ (b'-' ∷ (digest ++ rest))))
unfolding candidates_from
candidates_from-Among front [] digest rest d e =
    let (found, front_part, back_part) = is_digest-append digest rest d e in
    let long : ltb (length (digest ++ rest)) name_hash_hex_len ≡ false =
      not_short _ (omega (arith, length-append digest rest, d.size)) in
    rw (long, found) (inl (ap (λ (l : List ℕ). front ++ (b'-' ∷ l)) front_part, back_part))
candidates_from-Among front (x ∷ stem) digest rest d e =
    let onward =
      rw append_assoc at (candidates_from-Among (front ++ (x ∷ [])) stem digest rest d e) in
    let long : ltb (length (stem ++ (b'-' ∷ (digest ++ rest)))) name_hash_hex_len ≡ false =
      not_short _ (
        omega (
          arith,
          length-append stem (b'-' ∷ (digest ++ rest)),
          length-append digest rest,
          d.size,
        )) in
    elim (Bool-cases (x == b'-')) [
      | inr off ↦ rw off onward
      | inl at ↦ elim (Bool-cases (is_digest (stem ++ (b'-' ∷ (digest ++ rest))))) [
        | inl found ↦ rw (at, long, found) (inr onward)
        | inr other ↦ rw (at, long, other) onward
      ]
    ]

-- What the candidates of one name do to the state of one group.
unfoldable pub effect : List ℕ → List Candidate → GroupState → GroupState
effect g [] s = s
effect g ((h, r) ∷ cs) s = effect g cs (if bytes_eq h g then register r s else s)

abbrev pub state_of : List ℕ → Assoc GroupState → GroupState
state_of g groups = or_default (Assoc.lookup g groups)

state_of-insert :
    (g h : List ℕ) (s : GroupState) (groups : Assoc GroupState)
    → state_of g (Assoc.insert h s groups) ≡ (if bytes_eq h g then s else state_of g groups)
state_of-insert g h s groups = ground (arith, Assoc.lookup-insert h g s groups)

register_at :
    (g h r : List ℕ) (groups : Assoc GroupState)
    → (if bytes_eq h g then register r (state_of h groups) else state_of g groups)
      ≡ (if bytes_eq h g then register r (state_of g groups) else state_of g groups)
register_at g h r groups = elim (Bool-cases (bytes_eq h g)) [
  | inl same ↦ rw (bytes_eq→eq h g same)
  | inr other ↦ rw other
]

pub state_of-add_candidates :
    (g : List ℕ) (cs : List Candidate) (groups : Assoc GroupState)
    → state_of g (add_candidates cs groups) ≡ effect g cs (state_of g groups)
unfolding add_candidates effect
state_of-add_candidates g [] groups = refl
state_of-add_candidates g ((h, r) ∷ cs) groups =
    state_of-add_candidates g cs (Assoc.insert h (register r (state_of h groups)) groups)
    ∙ ap (effect g cs)
        (state_of-insert g h (register r (state_of h groups)) groups ∙ register_at g h r groups)

add_marker-add_marker :
    (m : Option (ℕ × ℕ)) (s : GroupState) → add_marker m (add_marker m s) ≡ add_marker m s
unfolding add_marker
add_marker-add_marker none s = refl
add_marker-add_marker (some (i, t)) s = ground (arith, ==_refl i)

-- A second registration of the same remainder changes nothing.
register-register : (r : List ℕ) (s : GroupState) → register r (register r s) ≡ register r s
unfolding register
register-register r s = elim (Bool-cases (is_empty r)) [
  | inl empty ↦ rw empty
  | inr filled ↦ rw filled (add_marker-add_marker (parse_sheet_marker r) s)
]

append_cancel : (g r q : List ℕ) → g ++ r ≡ g ++ q → r ≡ q
append_cancel [] r q e = e
append_cancel (x ∷ g) r q e = append_cancel g r q (cc)

-- Once a cut has been registered for `g`, any further cut at `g` is the same one.
effect_again :
    (g r : List ℕ) (cs : List Candidate) (s : GroupState)
    → All (Cuts (g ++ r)) cs
    → effect g cs (register r s) ≡ register r s
unfolding effect
effect_again g r [] s cuts = refl
effect_again g r ((h, q) ∷ cs) s (cut, cuts) = elim (Bool-cases (bytes_eq h g)) [
  | inr other ↦ rw other (effect_again g r cs s cuts)
  | inl same ↦
      let e = append_cancel g q r (rw (bytes_eq→eq h g same) at cut) in
      rw (same, e, register-register) (effect_again g r cs s cuts)
]

effect_once :
    (g r : List ℕ) (cs : List Candidate) (s : GroupState)
    → All (Cuts (g ++ r)) cs
    → Among g r cs
    → effect g cs s ≡ register r s
unfolding effect
effect_once g r [] s cuts found = elim found [ ]
effect_once g r ((h, q) ∷ cs) s (cut, cuts) (inl (eh, eq)) =
    rw (eh, bytes_eq_refl g, eq) (effect_again g r cs s cuts)
effect_once g r ((h, q) ∷ cs) s (cut, cuts) (inr later) = elim (Bool-cases (bytes_eq h g)) [
  | inr other ↦ rw other (effect_once g r cs s cuts later)
  | inl same ↦
      let e = append_cancel g q r (rw (bytes_eq→eq h g same) at cut) in
      rw (same, e) (effect_again g r cs s cuts)
]

-- The name of an output of the group with key `stem-digest` registers its remainder there, once.
pub effect-key :
    (stem digest rest : List ℕ) (s : GroupState)
    → IsDigest digest
    → ends_group rest ≡ true
    → effect (stem ++ (b'-' ∷ digest)) (candidate_groups ((stem ++ (b'-' ∷ digest)) ++ rest)) s
      ≡ register rest s
unfolding candidate_groups
effect-key stem digest rest s d e =
    let whole = append_assoc stem (b'-' ∷ digest) rest in
    rw whole (
      effect_once (stem ++ (b'-' ∷ digest)) rest
        (candidates_from [] (stem ++ (b'-' ∷ (digest ++ rest)))) s
        (rw whole (
          candidates_from-Cuts [] (stem ++ (b'-' ∷ (digest ++ rest)))
            (stem ++ (b'-' ∷ (digest ++ rest))) refl))
        (candidates_from-Among [] stem digest rest d e))
