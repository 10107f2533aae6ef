-- ===== src/Vobject/Value/RoundTrip.antt =====
-- Written values are read back: text escapes and structured values.
use pigeon_cli.Base.{
  ℕ, ◌≡◌, refl, sym, ap, ◌∙◌, ◌⊎◌, inl, inr, false, ◌||◌, List, [], ◌∷◌, ◌++◌, map, append-nil,
  append_assoc, arith,
}
use pigeon_cli.Base.Tests.{◌==◌, if◌then◌else◌, Bool-cases}
use pigeon_cli.Base.Text.{cons_first}
use pigeon_cli.Vobject.Value.{unescape, split_unescaped}
use pigeon_cli.Vobject.Property.{Property, is_quoted_printable, decoded, parts_of}

-- RFC 5545 and RFC 6350: how a text value is written.
abbrev pub escaped : ℕ → List ℕ
escaped c =
    if c == 10
    then b'\\' ∷ b'n' ∷ []
    else if c == b',' || c == b';' || c == b'\\'
    then b'\\' ∷ c ∷ []
    else c ∷ []

abbrev pub escape : List ℕ → List ℕ
escape [] = []
escape (c ∷ s) = escaped c ++ escape s

unescape-plain : (c : ℕ) (s : List ℕ) → (c == b'\\') ≡ false → unescape (c ∷ s) ≡ c ∷ unescape s
unfolding unescape
unescape-plain c [] h = refl
unescape-plain c (d ∷ s) h = rw h refl

-- A character is a line feed, one that is written behind a backslash, or written as it is.
abbrev Form : ℕ → Type 0
Form c =
    (c ≡ 10)
    ⊎ (c ≡ b',')
    ⊎ (c ≡ b';')
    ⊎ (c ≡ b'\\')
    ⊎ (((c == b'\\') ≡ false) × ((c == b';') ≡ false) × (escaped c ≡ c ∷ []))

escaped-Form : (c : ℕ) → Form c
escaped-Form c = elim (Bool-cases (c == 10)) [
  | inl at ↦ inl (ground arith)
  | inr no_break ↦ elim (Bool-cases (c == b',')) [
    | inl at ↦ inr (inl (ground arith))
    | inr no_comma ↦ elim (Bool-cases (c == b';')) [
      | inl at ↦ inr (inr (inl (ground arith)))
      | inr no_semicolon ↦ elim (Bool-cases (c == b'\\')) [
        | inl at ↦ inr (inr (inr (inl (ground arith))))
        | inr no_backslash ↦ inr (
            inr (
              inr (
                inr (
                  no_backslash,
                  no_semicolon,
                  rw (no_break, no_comma, no_semicolon, no_backslash) refl,
                ))))
      ]
    ]
  ]
]

unescape-escaped : (c : ℕ) (s : List ℕ) → unescape (escaped c ++ s) ≡ c ∷ unescape s
unfolding unescape
unescape-escaped c s = elim (escaped-Form c) [
  | inl at ↦ rw at refl
  | inr (inl at) ↦ rw at refl
  | inr (inr (inl at)) ↦ rw at refl
  | inr (inr (inr (inl at))) ↦ rw at refl
  | inr (inr (inr (inr (plain, other, same)))) ↦ rw same (unescape-plain c s plain)
]

abbrev prepend : List ℕ → List (List ℕ) → List (List ℕ)
prepend [] ps = ps
prepend (c ∷ s) ps = cons_first c (prepend s ps)

prepend-append :
    (s t : List ℕ) (ps : List (List ℕ)) → prepend (s ++ t) ps ≡ prepend s (prepend t ps)
prepend-append [] t ps = refl
prepend-append (c ∷ s) t ps = ap (cons_first c) (prepend-append s t ps)

-- Text written with its escapes is read back as it was.
pub unescape-escape : (s : List ℕ) → unescape (escape s) ≡ s
unfolding unescape
unescape-escape [] = refl
unescape-escape (c ∷ s) =
    unescape-escaped c (escape s) ∙ ap (λ (r : List ℕ). c ∷ r) (unescape-escape s)

split_unescaped-plain :
    (c : ℕ) (s : List ℕ)
    → (c == b'\\') ≡ false
    → (c == b';') ≡ false
    → split_unescaped b';' (c ∷ s) ≡ cons_first c (split_unescaped b';' s)
unfolding split_unescaped
split_unescaped-plain c [] h k = rw (h, k) refl
split_unescaped-plain c (d ∷ s) h k = rw (h, k) refl

split_unescaped-separator :
    (s : List ℕ) → split_unescaped b';' (b';' ∷ s) ≡ [] ∷ split_unescaped b';' s
unfolding split_unescaped
split_unescaped-separator [] = refl
split_unescaped-separator (d ∷ s) = refl

split_unescaped-escaped :
    (c : ℕ) (s : List ℕ)
    → split_unescaped b';' (escaped c ++ s) ≡ prepend (escaped c) (split_unescaped b';' s)
unfolding split_unescaped
split_unescaped-escaped c s = elim (escaped-Form c) [
  | inl at ↦ rw at refl
  | inr (inl at) ↦ rw at refl
  | inr (inr (inl at)) ↦ rw at refl
  | inr (inr (inr (inl at))) ↦ rw at refl
  | inr (inr (inr (inr (plain, other, same)))) ↦ rw same (split_unescaped-plain c s plain other)
]

split_unescaped-escape :
    (s rest : List ℕ)
    → split_unescaped b';' (escape s ++ rest) ≡ prepend (escape s) (split_unescaped b';' rest)
split_unescaped-escape [] rest = refl
split_unescaped-escape (c ∷ s) rest =
    ap (split_unescaped b';') (append_assoc (escaped c) (escape s) rest)
    ∙ split_unescaped-escaped c (escape s ++ rest)
    ∙ ap (prepend (escaped c)) (split_unescaped-escape s rest)
    ∙ sym (prepend-append (escaped c) (escape s) (split_unescaped b';' rest))

-- Components as one value.
abbrev pub structured : List ℕ → List (List ℕ) → List ℕ
structured first [] = escape first
structured first (next ∷ more) = escape first ++ (b';' ∷ structured next more)

prepend-first : (s t : List ℕ) (ps : List (List ℕ)) → prepend s (t ∷ ps) ≡ (s ++ t) ∷ ps
prepend-first [] t ps = refl
prepend-first (c ∷ s) t ps = ap (cons_first c) (prepend-first s t ps)

split_unescaped-structured :
    (first : List ℕ) (more : List (List ℕ))
    → split_unescaped b';' (structured first more) ≡ map escape (first ∷ more)
unfolding split_unescaped
split_unescaped-structured first [] =
    ap (split_unescaped b';') (sym (append-nil (escape first)))
    ∙ split_unescaped-escape first []
    ∙ prepend-first (escape first) [] []
    ∙ ap (λ (s : List ℕ). s ∷ []) (append-nil (escape first))
split_unescaped-structured first (next ∷ more) =
    split_unescaped-escape first (b';' ∷ structured next more)
    ∙ ap (prepend (escape first)) (split_unescaped-separator (structured next more))
    ∙ prepend-first (escape first) [] (split_unescaped b';' (structured next more))
    ∙ ap (λ (s : List ℕ). s ∷ split_unescaped b';' (structured next more))
        (append-nil (escape first))
    ∙ ap (λ (ps : List (List ℕ)). escape first ∷ ps) (split_unescaped-structured next more)

map-unescape-escape : (ss : List (List ℕ)) → map unescape (map escape ss) ≡ ss
map-unescape-escape [] = refl
map-unescape-escape (s ∷ ss) = rw (unescape-escape s, map-unescape-escape ss) refl

-- A property that is not quoted-printable and whose value holds components, each written with its
-- escapes, with a semicolon between them, has those components, also where they hold semicolons,
-- commas, backslashes and line feeds themselves.
pub parts_of-structured :
    (p : Property) (first : List ℕ) (more : List (List ℕ))
    → is_quoted_printable p ≡ false
    → p.value ≡ structured first more
    → parts_of p ≡ first ∷ more
unfolding parts_of decoded
parts_of-structured p first more bare written =
    rw (bare, written, split_unescaped-structured first more) (map-unescape-escape (first ∷ more))
