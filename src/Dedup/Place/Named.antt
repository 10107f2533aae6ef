-- ===== src/Dedup/Place/Named.antt =====
-- A file always finds a name that is free.
use pigeon_cli.Base.{
  ℕ, suc, ◌+◌, ◌<◌, ◌≡◌, refl, sym, ap, subst, ◌∙◌, true, false, some, List, [], ◌∷◌, map, arith,
}
use pigeon_cli.Base.Lists.{length}
use pigeon_cli.Base.Lines.{whole}
use pigeon_cli.Base.Ascii.{bytes_eq_refl}
use pigeon_cli.Base.Outcome.{ok}
use pigeon_cli.Data.ContentIndex.{check, commit}
use pigeon_cli.Data.ContentIndex.Durable.{check-commit}
use pigeon_cli.Data.FileName.{counter_mod, sanitize_filename, unique_path}
use pigeon_cli.Data.FileName.Enough.{unique_path_enough, is_in}
use pigeon_cli.Dedup.Place.{
  HashedFile, name_of_key, Answers, Store, without, is_used, final_name, entry_at, place_one,
}

module _ (ext : List ℕ) where
  is_used-is_in :
      (results : List (List ℕ × List ℕ)) (name : List ℕ)
      → is_in (map (λ (r : List ℕ × List ℕ). r.1) results) name ≡ false
      → is_used results ext name ≡ false
  is_used-is_in [] name h = refl
  is_used-is_in ((e, n) ∷ results) name h = ground (arith, is_used-is_in results name)

length-names :
    (results : List (List ℕ × List ℕ))
    → length (map (λ (r : List ℕ × List ℕ). r.1) results) ≡ length results
length-names [] = refl
length-names (r ∷ results) = ap suc (length-names results)

final_name-free :
    (s : Store) (f : HashedFile)
    → 2 + length s.results < counter_mod
    → (name : List ℕ) × (final_name s f ≡ some name) × (is_used s.results f.extension name ≡ false)
unfolding final_name
final_name-free s f few =
    let names = map (λ (r : List ℕ × List ℕ). r.1) s.results in
    let (name, found, free) =
      unique_path_enough (sanitize_filename (name_of_key f.original_key))
        (is_used s.results f.extension) names
        (subst (λ n. 2 + n < counter_mod) (sym (length-names s.results)) few)
        (is_used-is_in f.extension s.results) in
    (
      name,
      subst
          (λ n.
            unique_path (suc n) (is_used s.results f.extension)
              (sanitize_filename (name_of_key f.original_key))
            ≡ some name)
          (length-names s.results) found,
      free,
    )

abbrev pub all_well : Answers
all_well = record { made = true; moved = true; row = whole }

-- Where the file system answers well and fewer than 2 ^ 31 - 2 files were placed, a file is placed under a name that none of its
-- extension had before, its scratch file is gone, and its hash is in the index with that name.
pub place_one_well :
    (f : HashedFile) (s : Store)
    → 2 + length s.results < counter_mod
    → (name : List ℕ) × (is_used s.results f.extension name ≡ false)
      × ((place_one all_well f s).0 ≡ ok tt)
      × ((place_one all_well f s).1.results ≡ (f.extension, name) ∷ s.results)
      × ((place_one all_well f s).1.scratch ≡ without f.scratch_path s.scratch)
      × (check f.content_hash (place_one all_well f s).1.index ≡ some (entry_at f name))
unfolding place_one commit
place_one_well f s few =
    let (name, found, free) = final_name-free s f few in
    (
      name,
      free,
      rw found refl,
      rw found refl,
      rw found refl,
      rw found (
          check-commit f.content_hash f.content_hash (entry_at f name) s.index
          ∙ rw (bytes_eq_refl f.content_hash) refl),
    )
