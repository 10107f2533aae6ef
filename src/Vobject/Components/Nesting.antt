-- ===== src/Vobject/Components/Nesting.antt =====
-- `components` on well-nested input, against what it picks out of the tree.
use pigeon_cli.Base.{
  ℕ, ◌+◌, ◌<◌, String, ◌≡◌, refl, sym, ap, ◌∙◌, ◌≢◌, inl, inr, true, false, Option, none, some,
  List, [], ◌∷◌, ◌++◌, append-nil, append_assoc, arith,
}
use pigeon_cli.Base.Tests.{◌==◌, if◌then◌else◌, Bool-cases}
use pigeon_cli.Base.Lists.{length}
use pigeon_cli.Base.Strings.{trim}
use pigeon_cli.Base.Ascii.{codes, bytes_eq}
use pigeon_cli.Vobject.Components.{
  Scan, wants, begin_, end_, inside, scan_one, scan, in_order, components,
}
use pigeon_cli.Vobject.Property.{Property, uppercase}
use pigeon_cli.Vobject.Unfold.{reverse_onto}

-- A row of properties and components, as the input nests them.
pub data Nodes : Type 0 where
  finished : Nodes
  leaf : Property → Nodes → Nodes
  comp : List ℕ → Nodes → Nodes → Nodes

abbrev mark : String → List ℕ → Property
mark name value = record { group = none; name = codes name; params = []; value = value }

abbrev pub write : Nodes → List Property
write finished = []
write (leaf p rest) = p ∷ write rest
write (comp name inner rest) = mark "BEGIN" name ∷ (write inner ++ (mark "END" name ∷ write rest))

-- The properties directly here, not those of the components inside.
abbrev pub leaves : Nodes → List Property
leaves finished = []
leaves (leaf p rest) = p ∷ leaves rest
leaves (comp name inner rest) = leaves rest

unfoldable pub spelled : List ℕ → List ℕ
unfolding uppercase trim
spelled name = uppercase (trim name)

-- The outermost components that are wanted, in their order, each with the properties directly inside.
abbrev pub collect : List (List ℕ) → Nodes → List (List ℕ × List Property)
collect wanted finished = []
collect wanted (leaf p rest) = collect wanted rest
collect wanted (comp name inner rest) =
    let here = collect wanted inner in
    let rest' = collect wanted rest in
    if wants wanted (spelled name) then (spelled name, leaves inner) ∷ rest' else here ++ rest'

-- No property here is named like a mark.
abbrev pub AreLeaves : Nodes → Type 0
AreLeaves finished = Unit
AreLeaves (leaf p rest) =
    (bytes_eq p.name (codes "BEGIN") ≡ false)
    × (bytes_eq p.name (codes "END") ≡ false)
    × AreLeaves rest
AreLeaves (comp name inner rest) = AreLeaves inner × AreLeaves rest

abbrev at : List (List ℕ × List Property) → List (List ℕ) → Option ℕ → Scan
at found stack open_ = record { found = found; stack = stack; open_ = open_ }

not_equal : {m n : ℕ} → m ≢ n → (m == n) ≡ false
not_equal h = ground arith

same_number : {m n : ℕ} → m ≡ n → (m == n) ≡ true
same_number h = ground arith

scan-append :
    (wanted : List (List ℕ)) (ps qs : List Property) (s : Scan)
    → scan wanted (ps ++ qs) s ≡ scan wanted qs (scan wanted ps s)
unfolding scan
scan-append wanted [] qs s = refl
scan-append wanted (p ∷ ps) qs s = scan-append wanted ps qs (scan_one wanted p s)

scan-comp :
    (wanted : List (List ℕ)) (name : List ℕ) (inner rest : Nodes) (s : Scan)
    → scan wanted (write (comp name inner rest)) s
      ≡ scan wanted (write rest) (end_ (scan wanted (write inner) (begin_ wanted (spelled name) s)))
unfolding scan scan_one spelled
scan-comp wanted name inner rest s =
    scan-append wanted (write inner) (mark "END" name ∷ write rest) (begin_ wanted (spelled name) s)

scan_one-leaf :
    (wanted : List (List ℕ)) (p : Property) (s : Scan)
    → bytes_eq p.name (codes "BEGIN") ≡ false
    → bytes_eq p.name (codes "END") ≡ false
    → scan_one wanted p s ≡ inside p s
unfolding scan_one
scan_one-leaf wanted p s b e = rw (b, e, scan_one) refl

scan-leaf :
    (wanted : List (List ℕ)) (p : Property) (rest : Nodes) (s : Scan)
    → AreLeaves (leaf p rest)
    → scan wanted (write (leaf p rest)) s ≡ scan wanted (write rest) (inside p s)
unfolding scan
scan-leaf wanted p rest s (b, e, h) = ap (scan wanted (write rest)) (scan_one-leaf wanted p s b e)

-- Deeper than directly inside, nothing is kept.
scan-deep :
    (wanted : List (List ℕ)) (ns : Nodes) (found : List (List ℕ × List Property))
    (stack : List (List ℕ)) (d : ℕ)
    → AreLeaves ns
    → d + 1 < length stack
    → scan wanted (write ns) (at found stack (some d)) ≡ at found stack (some d)
unfolding scan
scan-deep wanted finished found stack d h deep = refl
scan-deep wanted (leaf p rest) found stack d (b, e, h) deep =
    scan-leaf wanted p rest (at found stack (some d)) (b, e, h)
    ∙ rw (not_equal {m = length stack} {n = d + 1} (omega arith))
        (scan-deep wanted rest found stack d h deep)
scan-deep wanted (comp name inner rest) found stack d (h, k) deep =
    scan-comp wanted name inner rest (at found stack (some d))
    ∙ rw
        (
          scan-deep wanted inner found (spelled name ∷ stack) d h (omega arith),
          not_equal {m = d} {n = length stack} (omega arith),
        )
        (scan-deep wanted rest found stack d k deep)

abbrev leaves_onto : Nodes → List Property → List Property
leaves_onto finished props = props
leaves_onto (leaf p rest) props = leaves_onto rest (p ∷ props)
leaves_onto (comp name inner rest) props = leaves_onto rest props

-- Directly inside an open component, its own properties are kept.
scan-direct :
    (wanted : List (List ℕ)) (ns : Nodes) (name : List ℕ) (props : List Property)
    (found : List (List ℕ × List Property)) (stack : List (List ℕ)) (d : ℕ)
    → AreLeaves ns
    → length stack ≡ d + 1
    → scan wanted (write ns) (at ((name, props) ∷ found) stack (some d))
      ≡ at ((name, leaves_onto ns props) ∷ found) stack (some d)
unfolding scan
scan-direct wanted finished name props found stack d h direct = refl
scan-direct wanted (leaf p rest) name props found stack d (b, e, h) direct =
    scan-leaf wanted p rest (at ((name, props) ∷ found) stack (some d)) (b, e, h)
    ∙ rw (same_number direct) (scan-direct wanted rest name (p ∷ props) found stack d h direct)
scan-direct wanted (comp other inner rest) name props found stack d (h, k) direct =
    scan-comp wanted other inner rest (at ((name, props) ∷ found) stack (some d))
    ∙ rw
        (
          scan-deep wanted inner ((name, props) ∷ found) (spelled other ∷ stack) d h (omega arith),
          not_equal {m = d} {n = length stack} (omega arith),
        )
        (scan-direct wanted rest name props found stack d k direct)

-- What the scan has found after a row that stands in no wanted component.
abbrev found_onto :
    List (List ℕ) → Nodes → List (List ℕ × List Property) → List (List ℕ × List Property)
found_onto wanted finished found = found
found_onto wanted (leaf p rest) found = found_onto wanted rest found
found_onto wanted (comp name inner rest) found = found_onto wanted rest (
    if wants wanted (spelled name)
    then (spelled name, leaves_onto inner []) ∷ found
    else found_onto wanted inner found)

scan-outside :
    (wanted : List (List ℕ)) (ns : Nodes) (found : List (List ℕ × List Property))
    (stack : List (List ℕ))
    → AreLeaves ns
    → scan wanted (write ns) (at found stack none) ≡ at (found_onto wanted ns found) stack none
unfolding scan
scan-outside wanted finished found stack h = refl
scan-outside wanted (leaf p rest) found stack (b, e, h) =
    scan-leaf wanted p rest (at found stack none) (b, e, h) ∙ scan-outside wanted rest found stack h
scan-outside wanted (comp name inner rest) found stack (h, k) =
    scan-comp wanted name inner rest (at found stack none)
    ∙ elim (Bool-cases (wants wanted (spelled name))) [
      | inl wished ↦
          rw
            (
              wished,
              scan-direct wanted inner (spelled name) [] found (spelled name ∷ stack) (length stack)
                  h (omega arith),
              same_number {m = length stack} {n = length stack} refl,
            )
            (scan-outside wanted rest ((spelled name, leaves_onto inner []) ∷ found) stack k)
      | inr other ↦
          rw (other, scan-outside wanted inner found (spelled name ∷ stack) h)
            (scan-outside wanted rest (found_onto wanted inner found) stack k)
    ]

reverse_onto-leaves_onto :
    (ns : Nodes) (props : List Property)
    → reverse_onto (leaves_onto ns props) [] ≡ reverse_onto props (leaves ns)
reverse_onto-leaves_onto finished props = refl
reverse_onto-leaves_onto (leaf p rest) props = reverse_onto-leaves_onto rest (p ∷ props)
reverse_onto-leaves_onto (comp name inner rest) props = reverse_onto-leaves_onto rest props

in_order-found_onto :
    (wanted : List (List ℕ)) (ns : Nodes) (found : List (List ℕ × List Property))
    → in_order (found_onto wanted ns found) ≡ in_order found ++ collect wanted ns
in_order-found_onto wanted finished found = sym (append-nil (in_order found))
in_order-found_onto wanted (leaf p rest) found = in_order-found_onto wanted rest found
in_order-found_onto wanted (comp name inner rest) found =
    elim (Bool-cases (wants wanted (spelled name))) [
      | inl wished ↦ rw wished (
          in_order-found_onto wanted rest ((spelled name, leaves_onto inner []) ∷ found)
          ∙ rw (reverse_onto-leaves_onto inner []) (
              append_assoc (in_order found) ((spelled name, leaves inner) ∷ [])
                (collect wanted rest)))
      | inr other ↦ rw other (
          in_order-found_onto wanted rest (found_onto wanted inner found)
          ∙ rw (in_order-found_onto wanted inner found)
              (append_assoc (in_order found) (collect wanted inner) (collect wanted rest)))
    ]

-- On input whose BEGIN and END lines are well nested, to any depth, the components found are the
-- outermost ones that are wanted, in their order, each with the properties directly inside it
-- in their order; properties of components nested in it and outside of it are left out. No other
-- property may be named BEGIN or END.
pub components-write :
    (wanted : List (List ℕ)) (ns : Nodes)
    → AreLeaves ns
    → components wanted (write ns) ≡ collect wanted ns
unfolding components
components-write wanted ns h =
    ap (λ (s : Scan). in_order s.found) (scan-outside wanted ns [] [] h)
    ∙ in_order-found_onto wanted ns []
