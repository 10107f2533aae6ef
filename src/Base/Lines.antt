-- ===== src/Base/Lines.antt =====
-- Files that grow by whole lines.
use Prim.Native.Nat.{ℕ}
use mathlib.Core.Path.{◌≡◌, refl, ap, sym, ◌∙◌}
use mathlib.Core.Logic.{inl, inr}
use mathlib.Core.Bool.{Bool, true}
use mathlib.Core.List.{List, [], ◌∷◌, ◌++◌, map, append-nil}
use pigeon_cli.Base.Tests.{◌==◌, Bool-cases}
use pigeon_cli.Base.Text.{split_on, strip_cr, terminated, lines, cons_first, split_on_cons}

-- What becomes of a write: the file is not opened, some bytes are written before it fails, or all.
pub data Write : Type 0 where
  not_opened whole : Write
  torn : ℕ → Write

-- Empty, or its last byte is a newline.
abbrev pub is_closed : List ℕ → Bool
is_closed [] = true
is_closed (x ∷ []) = x == 10
is_closed (x ∷ y ∷ ys) = is_closed (y ∷ ys)

split_closed :
    (x : ℕ) (xs : List ℕ)
    → is_closed (x ∷ xs) ≡ true
    → (p : List ℕ) × (ps : List (List ℕ)) × ((d : List ℕ)
        → split_on 10 ((x ∷ xs) ++ d) ≡ p ∷ (ps ++ split_on 10 d))
unfolding split_on
split_closed x [] h = ([], [], λ d. rw h)
split_closed x (y ∷ ys) h =
    let (p, ps, f) = split_closed y ys h in
    elim (Bool-cases (x == 10)) [
      | inl at ↦ ([], p ∷ ps, λ d. rw at (ap (λ (l : List (List ℕ)). [] ∷ l) (f d)))
      | inr off ↦ (x ∷ p, ps, λ d. rw off (ap (cons_first x) (f d)))
    ]

terminated-append :
    (ps : List (List ℕ)) (q : List ℕ) (qs : List (List ℕ))
    → terminated (ps ++ (q ∷ qs)) ≡ map strip_cr ps ++ terminated (q ∷ qs)
unfolding terminated
terminated-append [] q qs = refl
terminated-append (p ∷ []) q qs = refl
terminated-append (p ∷ p' ∷ ps) q qs =
    ap (λ (l : List (List ℕ)). strip_cr p ∷ l) (terminated-append (p' ∷ ps) q qs)

nothing_after : (ps : List (List ℕ)) → terminated (ps ++ split_on 10 []) ≡ map strip_cr ps
nothing_after ps =
    unfold split_on in
    terminated-append ps [] [] ∙ (unfold terminated in append-nil (map strip_cr ps))

-- The lines of a closed text and of what is written behind it.
pub lines-closed : (c d : List ℕ) → is_closed c ≡ true → lines (c ++ d) ≡ lines c ++ lines d
unfolding lines
lines-closed [] d h = unfold split_on terminated in refl
lines-closed (x ∷ xs) d h =
    let (p, ps, f) = split_closed x xs h in
    let (q, qs, e) = split_on_cons 10 d in
    let whole : terminated (split_on 10 ((x ∷ xs) ++ d))
        ≡ map strip_cr (p ∷ ps) ++ terminated (split_on 10 d) =
      rw (f d, e) (terminated-append (p ∷ ps) q qs) in
    let alone : terminated (split_on 10 (x ∷ xs)) ≡ map strip_cr (p ∷ ps) =
      ap (λ (s : List ℕ). terminated (split_on 10 s)) (sym (append-nil (x ∷ xs)))
      ∙ alone_of p ps (f []) in
    whole ∙ rw alone
  where
    alone_of :
        (p : List ℕ) (ps : List (List ℕ))
        → split_on 10 ((x ∷ xs) ++ []) ≡ p ∷ (ps ++ split_on 10 [])
        → terminated (split_on 10 ((x ∷ xs) ++ [])) ≡ map strip_cr (p ∷ ps)
    alone_of p ps e = ap terminated e ∙ nothing_after (p ∷ ps)

pub is_closed-append : (c line : List ℕ) → is_closed (c ++ (line ++ (10 ∷ []))) ≡ true
is_closed-append [] [] = refl
is_closed-append [] (x ∷ []) = refl
is_closed-append [] (x ∷ y ∷ line) = is_closed-append [] (y ∷ line)
is_closed-append (x ∷ []) [] = refl
is_closed-append (x ∷ []) (y ∷ line) = is_closed-append [] (y ∷ line)
is_closed-append (x ∷ y ∷ c) line = is_closed-append (y ∷ c) line
