-- ===== src/Dedup/Place/Keys.antt =====
-- The shape of a key, for what `is_undated_key` reads of it.
use pigeon_cli.Base.{
  ℕ, ◌≡◌, refl, sym, ap, ◌∙◌, inl, inr, Bool, true, false, Option, none, some, List, [], ◌∷◌, ◌++◌,
  arith,
}
use pigeon_cli.Base.Tests.{◌==◌, Bool-cases, ==→eq, ==_refl}
use pigeon_cli.Base.Text.{has, is_empty, split_on, has-append, split_on_none}
use pigeon_cli.Base.Strings.{starts_with, last_piece}
use pigeon_cli.Base.Ascii.{codes, bytes_eq}
use pigeon_cli.Base.FilePath.{dot, dot_dot, last_part, file_name}
use pigeon_cli.Dedup.Manifest.{after_zip_separator}
use pigeon_cli.Dedup.Place.{name_of_key, is_undated_key}
use pigeon_cli.Base.FilePath

-- A file in the archive `archive`, if any, in the folder `folder`, if any.
pub record Location : Type 0 where
  pub archive : Option (List ℕ)
  pub folder : Option (List ℕ)
  pub name : List ℕ

abbrev behind : ℕ → Option (List ℕ) → List ℕ → List ℕ
behind c none s = s
behind c (some front) s = front ++ (c ∷ s)

abbrev path_at : Location → List ℕ
path_at l = behind b'/' l.folder l.name

-- `archive!folder/name`
abbrev pub key_at : Location → List ℕ
key_at l = behind b'!' l.archive (path_at l)

abbrev Lacks : ℕ → Option (List ℕ) → Type 0
Lacks c none = Unit
Lacks c (some s) = has c s ≡ false

-- The folder has no `!`, and the name is that of a file. The archive may have both, as one that lies
-- in an archive has.
pub record IsLocation (l : Location) : Type 0 where
  pub folder_plain : Lacks b'!' l.folder
  pub name_plain : has b'!' l.name ≡ false
  pub no_slash : has b'/' l.name ≡ false
  pub not_empty : is_empty l.name ≡ false
  pub not_dot : bytes_eq l.name FilePath.dot ≡ false
  pub not_dot_dot : bytes_eq l.name FilePath.dot_dot ≡ false

-- Whether the name starts with the date that stands for none.
abbrev pub IsUndated : Location → Type 0
IsUndated l = (rest : List ℕ) × (l.name ≡ codes "0000-00-00-" ++ rest)

-- Everything behind a separator is split as if nothing stood in front of it.
split_on-behind :
    (c : ℕ) (front s : List ℕ)
    → (p : List ℕ) × (ps : List (List ℕ)) × (split_on c (front ++ (c ∷ s))
        ≡ p ∷ (ps ++ split_on c s))
unfolding split_on
split_on-behind c [] s = ([], [], rw (==_refl c) refl)
split_on-behind c (x ∷ front) s =
    let (p, ps, e) = split_on-behind c front s in
    elim (Bool-cases (x == c)) [
      | inl same ↦ ([], p ∷ ps, rw (same, e) refl)
      | inr other ↦ (x ∷ p, ps, rw (other, e) refl)
    ]

last_piece-behind :
    (p : List ℕ) (ps : List (List ℕ)) (q : List ℕ) → last_piece (p ∷ (ps ++ (q ∷ []))) ≡ q
last_piece-behind p [] q = refl
last_piece-behind p (r ∷ ps) q = last_piece-behind r ps q

last_part-behind :
    (ps : List (List ℕ)) (q : List ℕ)
    → FilePath.last_part (q ∷ []) ≡ some q
    → FilePath.last_part (ps ++ (q ∷ [])) ≡ some q
unfolding FilePath.last_part
last_part-behind [] q h = h
last_part-behind (p ∷ ps) q h = rw (last_part-behind ps q h) refl

last_of :
    (c : ℕ) (front : Option (List ℕ)) (s : List ℕ)
    → has c s ≡ false
    → last_piece (split_on c (behind c front s)) ≡ s
last_of c none s h = ap last_piece (split_on_none c s h)
last_of c (some front) s h =
    let (p, ps, e) = split_on-behind c front s in
    ap last_piece e
    ∙ ap (λ qs. last_piece (p ∷ (ps ++ qs))) (split_on_none c s h)
    ∙ last_piece-behind p ps s

module _ (l : Location) (h : IsLocation l) where
  path_plain : has b'!' (path_at l) ≡ false
  path_plain = go l.folder h.folder_plain
    where
      go : (f : Option (List ℕ)) → Lacks b'!' f → has b'!' (behind b'/' f l.name) ≡ false
      go none k = h.name_plain
      go (some f) k = has-append b'!' f (b'/' ∷ l.name) ∙ ground (arith, k, h.name_plain)

  only_part : FilePath.last_part (l.name ∷ []) ≡ some l.name
  unfolding FilePath.last_part
  only_part = ground (arith, h.not_empty, h.not_dot)

  last_part-path : FilePath.last_part (split_on b'/' (path_at l)) ≡ some l.name
  last_part-path = go l.folder
    where
      go :
          (f : Option (List ℕ))
          → FilePath.last_part (split_on b'/' (behind b'/' f l.name)) ≡ some l.name
      go none = ap FilePath.last_part (split_on_none b'/' l.name h.no_slash) ∙ only_part
      go (some f) =
          let (p, ps, e) = split_on-behind b'/' f l.name in
          ap FilePath.last_part e
          ∙ ap (λ qs. FilePath.last_part (p ∷ (ps ++ qs))) (split_on_none b'/' l.name h.no_slash)
          ∙ last_part-behind (p ∷ ps) l.name only_part

  file_name-path : FilePath.file_name (path_at l) ≡ some l.name
  unfolding FilePath.file_name
  file_name-path = ground (arith, last_part-path, h.not_dot_dot)

  name_of_key-key_at : name_of_key (key_at l) ≡ l.name
  unfolding name_of_key after_zip_separator
  name_of_key-key_at = rw (last_of b'!' l.archive (path_at l) path_plain, file_name-path) refl

  is_undated_key-key_at : is_undated_key (key_at l) ≡ starts_with (codes "0000-00-00-") l.name
  unfolding is_undated_key
  is_undated_key-key_at = ap (starts_with (codes "0000-00-00-")) name_of_key-key_at

starts_with→behind : (p s : List ℕ) → starts_with p s ≡ true → (rest : List ℕ) × (s ≡ p ++ rest)
starts_with→behind [] s h = (s, refl)
starts_with→behind (x ∷ p) [] h = cc
starts_with→behind (x ∷ p) (y ∷ s) h =
    let (rest, e) = starts_with→behind p s (ground arith) in
    let same : y ≡ x = ==→eq y x (ground arith) in (rest, ap (λ z. z ∷ s) same ∙ ap (◌∷◌ x) e)

starts_with-append : (p rest : List ℕ) → starts_with p (p ++ rest) ≡ true
starts_with-append [] rest = refl
starts_with-append (x ∷ p) rest = rw (==_refl x, starts_with-append p rest) refl

-- `is_undated_key` decides whether the name of the file is undated.
pub undated : (l : Location) → IsLocation l → is_undated_key (key_at l) ≡ true → IsUndated l
undated l h u =
    starts_with→behind (codes "0000-00-00-") l.name (sym (is_undated_key-key_at l h) ∙ u)

pub dated : (l : Location) → IsLocation l → is_undated_key (key_at l) ≡ false → ¬ IsUndated l
dated l h u (rest, e) =
    let found : is_undated_key (key_at l) ≡ true =
      is_undated_key-key_at l h
      ∙ ap (starts_with (codes "0000-00-00-")) e
      ∙ starts_with-append (codes "0000-00-00-") rest in
    both_ways found u
  where
    both_ways : {b : Bool} → b ≡ true → b ≡ false → ⊥
    both_ways x y = ground arith
