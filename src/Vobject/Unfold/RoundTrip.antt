-- ===== src/Vobject/Unfold/RoundTrip.antt =====
-- Lines that were folded, anywhere and also within a character, are put together again.
use pigeon_cli.Base.{
  ℕ, ◌≡◌, refl, sym, ap, ◌∙◌, Bool, true, false, not, ◌||◌, List, [], ◌∷◌, ◌++◌, map, append_assoc,
  arith,
}
use pigeon_cli.Base.Tests.{◌==◌}
use pigeon_cli.Base.Lists.{All}
use pigeon_cli.Base.Text.{has, split_on, strip_cr, has-append, split_on-append}
use pigeon_cli.Base.Strings.{starts_with}
use pigeon_cli.Vobject.Unfold.{
  soft_break, breaks_softly, join_line, join_lines, reverse_onto, unfold_bytes,
}

-- A logical line as the pieces that it is folded into: the first one, and those behind it.
abbrev pub Pieces : Type 0
Pieces = List ℕ × List (List ℕ)

abbrev pub continued : List (List ℕ) → List ℕ → List ℕ
continued [] rest = rest
continued (q ∷ qs) rest = b' ' ∷ (q ++ (13 ∷ 10 ∷ continued qs rest))

abbrev pub fold_lines : List Pieces → List ℕ
fold_lines [] = []
fold_lines ((p, qs) ∷ ls) = p ++ (13 ∷ 10 ∷ continued qs (fold_lines ls))

abbrev pub joined_onto : List ℕ → List (List ℕ) → List ℕ
joined_onto front [] = front
joined_onto front (q ∷ qs) = joined_onto (front ++ q) qs

abbrev pub whole_line : Pieces → List ℕ
whole_line (p, qs) = joined_onto p qs

-- No piece holds a line feed, and no fold stands where a soft break would.
abbrev pub AreSound : List ℕ → List (List ℕ) → Type 0
AreSound front [] = Unit
AreSound front (q ∷ qs) =
    (has 10 q ≡ false) × (soft_break (front ++ q) ≡ false) × AreSound (front ++ q) qs

abbrev pub starts_line : List ℕ → Bool
starts_line [] = false
starts_line (c ∷ cs) = not (c == b' ' || c == 9)

abbrev pub IsFolded : Pieces → Type 0
IsFolded (p, qs) =
    (starts_line p ≡ true) × (has 10 p ≡ false) × (soft_break p ≡ false) × AreSound p qs

split_crlf :
    (q rest : List ℕ)
    → has 10 q ≡ false
    → split_on 10 (q ++ (13 ∷ 10 ∷ rest)) ≡ (q ++ (13 ∷ [])) ∷ split_on 10 rest
split_crlf q rest h =
    ap (split_on 10) (sym (append_assoc q (13 ∷ []) (10 ∷ rest)))
    ∙ split_on-append 10 (q ++ (13 ∷ [])) rest (ground (arith, has-append 10 q (13 ∷ [])))

strip_cr-append : (q : List ℕ) → strip_cr (q ++ (13 ∷ [])) ≡ q
unfolding strip_cr
strip_cr-append [] = refl
strip_cr-append (x ∷ []) = refl
strip_cr-append (x ∷ y ∷ q) = ap (λ (l : List ℕ). x ∷ l) (strip_cr-append (y ∷ q))

-- A continuation line is put behind the last logical one.
join_lines-continuation :
    (q last : List ℕ) (front raws : List (List ℕ))
    → soft_break (last ++ q) ≡ false
    → join_lines false ((b' ' ∷ (q ++ (13 ∷ []))) ∷ raws) (last ∷ front)
      ≡ join_lines false raws ((last ++ q) ∷ front)
unfolding join_lines join_line breaks_softly
join_lines-continuation q last front raws hard = rw (strip_cr-append (b' ' ∷ q), hard)

continued-lines :
    (qs : List (List ℕ)) (rest last : List ℕ) (front : List (List ℕ))
    → AreSound last qs
    → join_lines false (split_on 10 (continued qs rest)) (last ∷ front)
      ≡ join_lines false (split_on 10 rest) (joined_onto last qs ∷ front)
continued-lines [] rest last front h = refl
continued-lines (q ∷ qs) rest last front (clean, hard, h) =
    ap (λ (ps : List (List ℕ)). join_lines false ps (last ∷ front))
      (split_crlf (b' ' ∷ q) (continued qs rest) clean)
    ∙ join_lines-continuation q last front (split_on 10 (continued qs rest)) hard
    ∙ continued-lines qs rest (last ++ q) front h

no_blank : (b : Bool) → not b ≡ true → b ≡ false
no_blank false h = refl
no_blank true h = sym h

join_lines-start :
    (p : List ℕ) (front raws : List (List ℕ))
    → starts_line p ≡ true
    → soft_break p ≡ false
    → join_lines false ((p ++ (13 ∷ [])) ∷ raws) front ≡ join_lines false raws (p ∷ front)
unfolding join_lines join_line breaks_softly
join_lines-start [] front raws s hard = absurd (grind arith)
join_lines-start (c ∷ p) [] raws s hard = rw (strip_cr-append (c ∷ p), hard)
join_lines-start (c ∷ p) (last ∷ front) raws s hard =
    rw (strip_cr-append (c ∷ p), no_blank (c == b' ' || c == 9) s, hard)

join_lines-fold_lines :
    (ls : List Pieces) (front : List (List ℕ))
    → All IsFolded ls
    → join_lines false (split_on 10 (fold_lines ls)) front ≡ reverse_onto (map whole_line ls) front
unfolding join_lines join_line split_on
join_lines-fold_lines [] [] h = refl
join_lines-fold_lines [] (last ∷ front) h = refl
join_lines-fold_lines ((p, qs) ∷ ls) front ((s, clean, hard, sound), h) =
    ap (λ (ps : List (List ℕ)). join_lines false ps front)
      (split_crlf p (continued qs (fold_lines ls)) clean)
    ∙ join_lines-start p front (split_on 10 (continued qs (fold_lines ls))) s hard
    ∙ continued-lines qs (fold_lines ls) p front sound
    ∙ join_lines-fold_lines ls (whole_line (p, qs) ∷ front) h

reverse_onto-twice :
    (xs ys : List (List ℕ)) → reverse_onto (reverse_onto xs ys) [] ≡ reverse_onto ys xs
reverse_onto-twice [] ys = refl
reverse_onto-twice (x ∷ xs) ys = reverse_onto-twice xs (x ∷ ys)

-- The lines of a file that begins with no byte order mark and in which every logical line was
-- folded, into a first piece that begins with neither a space nor a tab and any number of further pieces behind
-- a line break and a space, are read as the logical lines, wherever they were cut. It asks
-- that no piece holds a line feed and that no line cut so far ends in a quoted-printable soft break.
pub unfold_bytes-fold_lines :
    (ls : List Pieces)
    → All IsFolded ls
    → starts_with (0xEF ∷ 0xBB ∷ 0xBF ∷ []) (fold_lines ls) ≡ false
    → unfold_bytes (fold_lines ls) ≡ map whole_line ls
unfolding unfold_bytes
unfold_bytes-fold_lines ls h no_mark =
    rw (no_mark, join_lines-fold_lines ls [] h, reverse_onto-twice (map whole_line ls) [])
