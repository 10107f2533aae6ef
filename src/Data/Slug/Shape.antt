-- ===== src/Data/Slug/Shape.antt =====
-- What a slug looks like.
use pigeon_cli.Base.{
  ℕ, ◌+◌, ◌≤◌, ◌≡◌, refl, ◌⊎◌, inl, inr, Bool, true, false, not, ◌&&◌, Option, none, some, List, [],
  ◌∷◌, ◌++◌, arith, append_assoc, append-nil, sym, ◌∙◌,
}
use pigeon_cli.Base.Tests.{leb, ◌==◌, if◌then◌else◌, Bool-cases}
use pigeon_cli.Base.Lists.{length, all, length-append}
use pigeon_cli.Base.Text.{is_empty}
use pigeon_cli.Base.Ascii.{codes}
use pigeon_cli.Base.FilePath.{file_name}
use pigeon_cli.Data.Slug.{
  separate, is_kept, separate, slug_loop, trim_start, trim_end, slugify, sheet_slug, strict_stem,
  max_sheet_slug_length, max_filename_length, file_word,
}

abbrev pub starts_dash : List ℕ → Bool
starts_dash [] = false
starts_dash (x ∷ xs) = x == b'-'

abbrev pub ends_dash : List ℕ → Bool
ends_dash [] = false
ends_dash (x ∷ []) = x == b'-'
ends_dash (x ∷ y ∷ ys) = ends_dash (y ∷ ys)

pub record IsSlug (max_len : ℕ) (s : List ℕ) : Type 0 where
  pub kept : all is_kept s ≡ true
  pub filled : is_empty s ≡ false
  pub short : length s ≤ max_len
  pub front : starts_dash s ≡ false
  pub back : ends_dash s ≡ false

all-append : (p : ℕ → Bool) (xs ys : List ℕ) → all p (xs ++ ys) ≡ (all p xs && all p ys)
all-append p [] ys = refl
all-append p (x ∷ xs) ys = ground (arith, all-append p xs ys)

kept_dash : all is_kept (b'-' ∷ []) ≡ true
unfolding is_kept
kept_dash = refl

separate-kept :
    (slug : List ℕ) (pending : Bool)
    → all is_kept slug ≡ true
    → all is_kept (separate slug pending) ≡ true
unfolding separate
separate-kept slug pending h = ground (arith, all-append is_kept slug (b'-' ∷ []), kept_dash)

-- Only kept characters are pushed.
slug_loop-kept :
    (m : ℕ) (chars slug : List ℕ) (pending : Bool)
    → all is_kept slug ≡ true
    → all is_kept (slug_loop m chars slug pending) ≡ true
unfolding slug_loop
slug_loop-kept m [] slug pending h = h
slug_loop-kept m (ch ∷ chars) slug pending h = elim (Bool-cases (is_kept ch)) [
  | inl keep ↦ rw keep (elim (Bool-cases (leb m (length (separate slug pending)))) [
    | inl full ↦ rw full (separate-kept slug pending h)
    | inr room ↦ rw room (
        slug_loop-kept m chars (separate slug pending ++ (ch ∷ [])) false (
          ground (
            arith,
            all-append is_kept (separate slug pending) (ch ∷ []),
            separate-kept slug pending h,
          )))
  ])
  | inr skip ↦ rw skip (slug_loop-kept m chars slug true h)
]

-- The slug has at most `m` characters, or one more that is a dash at its end.
abbrev Fits : ℕ → List ℕ → Type 0
Fits m s = (length s ≤ m) ⊎ ((t : List ℕ) × (s ≡ t ++ (b'-' ∷ [])) × (length t ≤ m))

separate-Fits :
    (m : ℕ) (slug : List ℕ) (pending : Bool) → length slug ≤ m → Fits m (separate slug pending)
unfolding separate
separate-Fits m slug pending h = elim (Bool-cases (pending && not (is_empty slug))) [
  | inl dash ↦ rw dash (inr (slug, refl, h))
  | inr plain ↦ rw plain (inl h)
]

slug_loop-Fits :
    (m : ℕ) (chars slug : List ℕ) (pending : Bool)
    → length slug ≤ m
    → Fits m (slug_loop m chars slug pending)
unfolding slug_loop
slug_loop-Fits m [] slug pending h = inl h
slug_loop-Fits m (ch ∷ chars) slug pending h = elim (Bool-cases (is_kept ch)) [
  | inl keep ↦ rw keep (elim (Bool-cases (leb m (length (separate slug pending)))) [
    | inl full ↦ rw full (separate-Fits m slug pending h)
    | inr room ↦ rw room (
        slug_loop-Fits m chars (separate slug pending ++ (ch ∷ [])) false
          (ground (arith, length-append (separate slug pending) (ch ∷ []))))
  ])
  | inr skip ↦ rw skip (slug_loop-Fits m chars slug true h)
]

length-trim_end-le : (s : List ℕ) → length (trim_end s) ≤ length s
unfolding trim_end
length-trim_end-le [] = omega arith
length-trim_end-le (x ∷ xs) = ground (arith, length-trim_end-le xs)

trim_end-dash : (t : List ℕ) → trim_end (t ++ (b'-' ∷ [])) ≡ trim_end t
unfolding trim_end
trim_end-dash [] = refl
trim_end-dash (x ∷ t) = rw (trim_end-dash t)

trim_end-Fits : (m : ℕ) (s : List ℕ) → Fits m s → length (trim_end s) ≤ m
trim_end-Fits m s (inl h) = omega (arith, length-trim_end-le s)
trim_end-Fits m s (inr (t, e, h)) = rw (e, trim_end-dash t) (omega (arith, length-trim_end-le t))

trim_end-kept : (s : List ℕ) → all is_kept s ≡ true → all is_kept (trim_end s) ≡ true
unfolding trim_end
trim_end-kept [] h = refl
trim_end-kept (x ∷ xs) h = ground (arith, trim_end-kept xs)

ends_dash-cons : (x : ℕ) (s : List ℕ) → is_empty s ≡ false → ends_dash (x ∷ s) ≡ ends_dash s
ends_dash-cons x [] h = cc
ends_dash-cons x (y ∷ s) h = refl

is_empty→nil : (s : List ℕ) → is_empty s ≡ true → s ≡ []
is_empty→nil [] h = refl
is_empty→nil (x ∷ s) h = cc

one_back : (x : ℕ) → ends_dash (if x == b'-' then [] else x ∷ []) ≡ false
one_back x = ground arith

trim_end-back : (s : List ℕ) → ends_dash (trim_end s) ≡ false
unfolding trim_end
trim_end-back [] = refl
trim_end-back (x ∷ xs) = elim (Bool-cases (is_empty (trim_end xs))) [
  | inl end ↦ let e = is_empty→nil (trim_end xs) end in rw e (one_back x)
  | inr more ↦ rw more (ends_dash-cons x (trim_end xs) more ∙ trim_end-back xs)
]

trim_start-kept : (s : List ℕ) → all is_kept s ≡ true → all is_kept (trim_start s) ≡ true
unfolding trim_start
trim_start-kept [] h = refl
trim_start-kept (x ∷ xs) h = ground (arith, trim_start-kept xs)

length-trim_start-le : (s : List ℕ) → length (trim_start s) ≤ length s
unfolding trim_start
length-trim_start-le [] = omega arith
length-trim_start-le (x ∷ xs) = ground (arith, length-trim_start-le xs)

trim_start-front : (s : List ℕ) → starts_dash (trim_start s) ≡ false
unfolding trim_start
trim_start-front [] = refl
trim_start-front (x ∷ xs) = ground (arith, trim_start-front xs)

trim_start-back : (s : List ℕ) → ends_dash s ≡ false → ends_dash (trim_start s) ≡ false
unfolding trim_start
trim_start-back [] h = refl
trim_start-back (x ∷ []) h = ground arith
trim_start-back (x ∷ y ∷ s) h = ground (arith, trim_start-back (y ∷ s))

slugify-IsSlug :
    (name : List ℕ) (m : ℕ) (fallback : List ℕ)
    → IsSlug m fallback
    → IsSlug m (slugify name m fallback)
unfolding slugify
slugify-IsSlug name m fallback given =
    let raw = slug_loop m name [] false in
    let cut = trim_end raw in
    elim (Bool-cases (is_empty (trim_start cut))) [
      | inl empty ↦ rw empty given
      | inr filled ↦ rw filled (record {
        kept = trim_start-kept cut (trim_end-kept raw (slug_loop-kept m name [] false refl));
        filled = filled;
        short = omega (
          arith,
          length-trim_start-le cut,
          trim_end-Fits m raw (slug_loop-Fits m name [] false (omega arith)),
        );
        front = trim_start-front cut;
        back = trim_start-back cut (trim_end-back raw);
      })
    ]

file-IsSlug : IsSlug max_filename_length file_word
unfolding is_kept
file-IsSlug = record { kept = refl; filled = refl; short = omega arith; front = refl; back = refl }

-- Whatever the sheet or the file is called: its slug holds only letters, digits, dots,
-- underscores and dashes, it is not empty, it begins and ends with no dash, and it
-- has at most 40 characters, or 100 for a stem.
pub slugs-IsSlug :
    (name : List ℕ)
    → IsSlug max_sheet_slug_length (sheet_slug name) × IsSlug max_filename_length (strict_stem name)
unfolding sheet_slug strict_stem is_kept
slugs-IsSlug name = (slugify-IsSlug name 40 (codes "sheet") sheet, stem (file_name name))
  where
    sheet : IsSlug 40 (codes "sheet")
    sheet = record { kept = refl; filled = refl; short = omega arith; front = refl; back = refl }

    base_slug :
        (base : List ℕ)
        → IsSlug 100 (if is_empty base then file_word else slugify base 100 file_word)
    base_slug [] = file-IsSlug
    base_slug (x ∷ base) = slugify-IsSlug (x ∷ base) 100 file_word file-IsSlug

    stem :
        (base : Option (List ℕ))
        → IsSlug 100 (elim base [
          | none ↦ file_word
          | some b ↦ if is_empty b then file_word else slugify b 100 file_word
        ])
    stem none = file-IsSlug
    stem (some base) = base_slug base

-- A slug is read character by character and left as it is.
slug_loop-id :
    (m : ℕ) (chars slug : List ℕ)
    → all is_kept chars ≡ true
    → length slug + length chars ≤ m
    → slug_loop m chars slug false ≡ slug ++ chars
unfolding slug_loop separate
slug_loop-id m [] slug k h = sym (append-nil slug)
slug_loop-id m (ch ∷ chars) slug k h = ground (
  arith,
  slug_loop-id m chars (slug ++ (ch ∷ [])),
  append_assoc slug (ch ∷ []) chars,
  length-append slug (ch ∷ []),
)

trim_end-id : (s : List ℕ) → ends_dash s ≡ false → trim_end s ≡ s
unfolding trim_end
trim_end-id [] h = refl
trim_end-id (x ∷ []) h = ground arith
trim_end-id (x ∷ y ∷ s) h = rw (trim_end-id (y ∷ s) h)

trim_start-id : (s : List ℕ) → starts_dash s ≡ false → trim_start s ≡ s
unfolding trim_start
trim_start-id [] h = refl
trim_start-id (x ∷ s) h = ground arith

-- A text that has the shape of a slug is its own slug, so slugging twice changes nothing.
slugify_fixed : (s fallback : List ℕ) (m : ℕ) → IsSlug m s → slugify s m fallback ≡ s
unfolding slugify
slugify_fixed s fallback m h = rw (
  slug_loop-id m s [] h.kept (omega (arith, h)),
  trim_end-id s h.back,
  trim_start-id s h.front,
  h.filled,
)
