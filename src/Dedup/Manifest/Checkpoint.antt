-- ===== src/Dedup/Manifest/Checkpoint.antt =====
-- What is checkpointed is found again after a reload.
use pigeon_cli.Base.{
  ℕ, ◌≡◌, refl, sym, ap, ◌∙◌, true, false, Option, none, some, List, [], ◌∷◌, ◌++◌, map, append-nil,
  append_assoc, arith,
}
use pigeon_cli.Base.Lists.{All}
use pigeon_cli.Base.Text.{has, lines, has-append, split_once-append, ends_in_cr, lines-append}
use pigeon_cli.Base.Lines.{is_closed, lines-closed, is_closed-append, whole}
use pigeon_cli.Base.Outcome.{ok}
use pigeon_cli.Data.ContentIndex.{Read, bytes_of, contents, not_found}
use pigeon_cli.Data.ContentIndex.Durable.{ends_in_cr-append}
use pigeon_cli.Dedup.Manifest.{Place, place_of_line, load_checkpoint, line_of, append_checkpoint}

-- A place whose line can be read back.
pub record IsPlace (place : Place) : Type 0 where
  pub no_tab : has 9 place.0 ≡ false
  pub alias_line : has 10 place.0 ≡ false
  pub key_line : has 10 place.1 ≡ false
  pub no_cr : ends_in_cr place.1 ≡ false

-- The checkpoint loop of `run_deduplicate_job` on a file system that does not fail.
unfoldable pub append_all : List Place → Option (List ℕ) → Option (List ℕ)
unfolding append_checkpoint
append_all [] file = file
append_all (place ∷ places) file = append_all places (append_checkpoint whole place file).1

abbrev pub read_of : Option (List ℕ) → Read
read_of file = elim file [ none ↦ not_found | some c ↦ contents c ]

abbrev pub places_of : Option (List ℕ) → List Place
places_of file = map place_of_line (lines (bytes_of file))

place_of_line-line_of : (place : Place) → IsPlace place → place_of_line (line_of place) ≡ place
unfolding place_of_line
place_of_line-line_of (bucket_alias, key) h =
    rw (split_once-append 9 bucket_alias key h.no_tab, place_of_line) refl

map-append {ℓ κ} :
    {A : Type ℓ} {B : Type κ} (f : A → B) (xs ys : List A) → map f (xs ++ ys) ≡ map f xs ++ map f ys
map-append f [] ys = refl
map-append f (x ∷ xs) ys = ap (λ l. f x ∷ l) (map-append f xs ys)

places_of-append :
    (c : List ℕ) (place : Place)
    → is_closed c ≡ true
    → IsPlace place
    → places_of (some (c ++ (line_of place ++ (10 ∷ [])))) ≡ places_of (some c) ++ (place ∷ [])
places_of-append c place closed h =
    ap (map place_of_line) (
      lines-closed c (line_of place ++ (10 ∷ [])) closed
      ∙ ap (λ (l : List (List ℕ)). lines c ++ l)
          (lines-append (line_of place) []
            (ground (arith, has-append 10 place.0 (9 ∷ place.1), h.alias_line, h.key_line))
            (ends_in_cr-append place.0 place.1 h.no_cr)))
    ∙ map-append place_of_line (lines c) (line_of place ∷ lines [])
    ∙ (unfold lines in rw (place_of_line-line_of place h) refl)

places_of-append_all :
    (places : List Place) (file : Option (List ℕ))
    → is_closed (bytes_of file) ≡ true
    → All IsPlace places
    → places_of (append_all places file) ≡ places_of file ++ places
unfolding append_all
places_of-append_all [] file closed h = sym (append-nil (places_of file))
places_of-append_all (place ∷ places) file closed (h, hs) =
    places_of-append_all places (some (bytes_of file ++ (line_of place ++ (10 ∷ []))))
      (is_closed-append (bytes_of file) (line_of place)) hs
    ∙ ap (λ (l : List Place). l ++ places) (places_of-append (bytes_of file) place closed h)
    ∙ append_assoc (places_of file) (place ∷ []) places

pub load_checkpoint-read_of :
    (file : Option (List ℕ)) → load_checkpoint (read_of file) ≡ ok (places_of file)
unfolding load_checkpoint
load_checkpoint-read_of none = unfold lines in refl
load_checkpoint-read_of (some c) = refl

-- The checkpoint file, loaded after any places were appended to it without an error, gives what it
-- gave before and then those places in their order, if it held whole lines before, no alias has a
-- tab, neither part of a place a newline, and no key ends in a carriage return.
pub load_checkpoint-append_all :
    (places : List Place) (file : Option (List ℕ))
    → is_closed (bytes_of file) ≡ true
    → All IsPlace places
    → load_checkpoint (read_of (append_all places file)) ≡ ok (places_of file ++ places)
load_checkpoint-append_all places file closed h =
    load_checkpoint-read_of (append_all places file)
    ∙ ap ok (places_of-append_all places file closed h)
