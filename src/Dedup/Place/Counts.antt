-- ===== src/Dedup/Place/Counts.antt =====
-- The counts add up, and what is reported as finished is in the index.
use pigeon_cli.Base.{
  ℕ, suc, ◌+◌, ◌≡◌, refl, sym, ap, subst, ◌∙◌, ◌⊎◌, inl, inr, Bool, true, false, Option, none, some,
  List, [], ◌∷◌, ◌++◌, map, append-nil, append_assoc, arith,
}
use pigeon_cli.Base.Tests.{if◌then◌else◌, Bool-cases}
use pigeon_cli.Base.Lists.{length, All, length-append}
use pigeon_cli.Base.Lines.{Write, not_opened, whole, torn}
use pigeon_cli.Base.Ascii.{bytes_eq, bytes_eq_refl}
use pigeon_cli.Base.Outcome.{Result, ok, err}
use pigeon_cli.Data.ContentIndex.{ContentIndexEntry, ContentIndex, check, commit}
use pigeon_cli.Data.ContentIndex.Durable.{check-commit}
use pigeon_cli.Dedup.Place.{
  HashedFile, insert_file, sort_files, Answers, Store, final_name, entry_at, move_to, place_one,
  Placing, merge_record, skip_duplicate, count_placed, place_checked, place_next, place_each,
  nothing_placed, place_and_report,
}

-- The counts after `n` files.
record IsTallied (n : ℕ) (p : Placing) : Type 0 where
  all : p.summary.placed + p.summary.duplicates_skipped + p.summary.failed ≡ n
  skipped : p.summary.duplicates_skipped ≡ length p.records
  finished : length p.finished_keys ≡ p.summary.placed + p.summary.duplicates_skipped

count_placed-IsTallied :
    (n : ℕ) (f : HashedFile) (outcome : Result (Unit {0}) (Unit {0}) × Store) (p : Placing)
    → IsTallied n p
    → IsTallied (suc n) (count_placed f outcome p)
count_placed-IsTallied n f (ok done, store) p h = record {
  all = ground (arith, h.all);
  skipped = h.skipped;
  finished =
      ground
        (arith, h.finished, length-append p.finished_keys ((f.bucket_alias, f.original_key) ∷ []));
}
count_placed-IsTallied n f (err e, store) p h = record {
  all = ground (arith, h.all);
  skipped = h.skipped;
  finished = h.finished;
}

skip_duplicate-IsTallied :
    (n : ℕ) (f : HashedFile) (kept : ContentIndexEntry) (p : Placing)
    → IsTallied n p
    → IsTallied (suc n) (skip_duplicate f kept p)
skip_duplicate-IsTallied n f kept p h = record {
  all = ground (arith, h.all);
  skipped = ground (arith, h.skipped, length-append p.records (merge_record f kept ∷ []));
  finished =
      ground
        (arith, h.finished, length-append p.finished_keys ((f.bucket_alias, f.original_key) ∷ []));
}

-- An index and a result after `place_one`: nothing was committed, or a row was.
pub place_one-index :
    (P : Result (Unit {0}) (Unit {0}) → ContentIndex → Type 0) (a : Answers) (f : HashedFile)
    (s : Store)
    → P (err tt) s.index
    → ((name : List ℕ)
        → P
            (commit a.row f.content_hash (entry_at f name) s.index).0
            (commit a.row f.content_hash (entry_at f name) s.index).1)
    → P (place_one a f s).0 (place_one a f s).1.index
unfolding place_one
place_one-index P a f s stay go = elim (Bool-cases a.made) [
  | inr no_folder ↦ rw no_folder stay
  | inl made ↦ rw made (after_move (final_name s f))
]
  where
    after_move : (name : Option (List ℕ)) → P (move_to a f name s).0 (move_to a f name s).1.index
    after_move none = stay
    after_move (some name) = elim (Bool-cases a.moved) [
      | inr stuck ↦ rw stuck stay
      | inl moved ↦ rw moved (go name)
    ]

abbrev pub Settled : ContentIndex → HashedFile → Type 0
Settled ix f = (entry : ContentIndexEntry) × (check f.content_hash ix ≡ some entry)

found_after :
    (b : Bool) (entry : ContentIndexEntry) (old : Option ContentIndexEntry)
    → (e : ContentIndexEntry) × (old ≡ some e)
    → (e : ContentIndexEntry) × ((if b then some entry else old) ≡ some e)
found_after true entry old h = (entry, refl)
found_after false entry old h = h

commit-Settled :
    (row : Write) (hash : List ℕ) (entry : ContentIndexEntry) (ix : ContentIndex) (g : HashedFile)
    → Settled ix g
    → Settled (commit row hash entry ix).1 g
unfolding commit
commit-Settled not_opened hash entry ix g h = h
commit-Settled (torn n) hash entry ix g h = unfold check in h
commit-Settled whole hash entry ix g h =
    let (e, found) = found_after (bytes_eq hash g.content_hash) entry (check g.content_hash ix) h in
    (e, check-commit hash g.content_hash entry ix ∙ found)

commit-found :
    (row : Write) (f : HashedFile) (entry : ContentIndexEntry) (ix : ContentIndex)
    → (commit row f.content_hash entry ix).0 ≡ ok tt
    → Settled (commit row f.content_hash entry ix).1 f
unfolding commit
commit-found not_opened f entry ix h = cc
commit-found (torn n) f entry ix h = cc
commit-found whole f entry ix h = (
  entry,
  check-commit f.content_hash f.content_hash entry ix ∙ rw (bytes_eq_refl f.content_hash) refl,
)

-- The files of a list whose keys are finished, in their order.
pub data Among : List HashedFile → List HashedFile → Type 0 where
  none_left : Among [] []
  kept_one : (f : HashedFile) {fs gs : List HashedFile} → Among fs gs → Among (f ∷ fs) (f ∷ gs)
  left_out : (f : HashedFile) {fs gs : List HashedFile} → Among fs gs → Among fs (f ∷ gs)

abbrev pub key_of : HashedFile → List ℕ × List ℕ
key_of f = (f.bucket_alias, f.original_key)

module _ (answers : HashedFile → Answers) where
  place_checked-IsTallied :
      (n : ℕ) (f : HashedFile) (found : Option ContentIndexEntry) (p : Placing)
      → IsTallied n p
      → IsTallied (suc n) (place_checked answers f found p)
  unfolding place_checked
  place_checked-IsTallied n f none p h =
      count_placed-IsTallied n f (place_one (answers f) f p.store) p h
  place_checked-IsTallied n f (some kept) p h = skip_duplicate-IsTallied n f kept p h

  place_each-IsTallied :
      (n : ℕ) (fs : List HashedFile) (p : Placing)
      → IsTallied n p
      → IsTallied (n + length fs) (place_each answers fs p)
  unfolding place_each place_next
  place_each-IsTallied n [] p h = subst (λ k. IsTallied k p) (omega arith) h
  place_each-IsTallied n (f ∷ fs) p h =
      subst (λ k. IsTallied k (place_each answers (f ∷ fs) p)) (omega arith)
        (place_each-IsTallied (suc n) fs (place_next answers f p)
          (place_checked-IsTallied n f (check f.content_hash p.store.index) p h))

  -- What a round does for its file.
  abbrev Round : HashedFile → Placing → Placing → Type 0
  Round f p p' =
      (Settled p'.store.index f × (p'.finished_keys ≡ p.finished_keys ++ (key_of f ∷ [])))
      ⊎ (p'.finished_keys ≡ p.finished_keys)

  place_one-Settled :
      (f g : HashedFile) (s : Store)
      → Settled s.index g
      → Settled (place_one (answers f) f s).1.index g
  place_one-Settled f g s h =
      place_one-index (λ r ix. Settled ix g) (answers f) f s h
        (λ name. commit-Settled (answers f).row f.content_hash (entry_at f name) s.index g h)

  place_one-found :
      (f : HashedFile) (s : Store)
      → (place_one (answers f) f s).0 ≡ ok tt
      → Settled (place_one (answers f) f s).1.index f
  place_one-found f s =
      place_one-index (λ r ix. r ≡ ok tt → Settled ix f) (answers f) f s (λ e. cc)
        (λ name. commit-found (answers f).row f (entry_at f name) s.index)

  count_placed-Settled :
      (f g : HashedFile) (outcome : Result (Unit {0}) (Unit {0}) × Store) (p : Placing)
      → Settled outcome.1.index g
      → Settled (count_placed f outcome p).store.index g
  count_placed-Settled f g (ok done, store) p h = h
  count_placed-Settled f g (err e, store) p h = h

  place_checked-Settled :
      (f g : HashedFile) (found : Option ContentIndexEntry) (p : Placing)
      → Settled p.store.index g
      → Settled (place_checked answers f found p).store.index g
  unfolding place_checked
  place_checked-Settled f g (some kept) p h = h
  place_checked-Settled f g none p h =
      count_placed-Settled f g (place_one (answers f) f p.store) p (place_one-Settled f g p.store h)

  place_each-Settled :
      (fs : List HashedFile) (g : HashedFile) (p : Placing)
      → Settled p.store.index g
      → Settled (place_each answers fs p).store.index g
  unfolding place_each place_next
  place_each-Settled [] g p h = h
  place_each-Settled (f ∷ fs) g p h =
      place_each-Settled fs g (place_next answers f p)
        (place_checked-Settled f g (check f.content_hash p.store.index) p h)

  count_placed-Round :
      (f : HashedFile) (outcome : Result (Unit {0}) (Unit {0}) × Store) (p : Placing)
      → (outcome.0 ≡ ok tt → Settled outcome.1.index f)
      → Round f p (count_placed f outcome p)
  count_placed-Round f (ok tt, store) p h = inl (h refl, refl)
  count_placed-Round f (err e, store) p h = inr refl

  place_checked-Round :
      (f : HashedFile) (found : Option ContentIndexEntry) (p : Placing)
      → check f.content_hash p.store.index ≡ found
      → Round f p (place_checked answers f found p)
  unfolding place_checked
  place_checked-Round f (some kept) p h = inl ((kept, h), refl)
  place_checked-Round f none p h =
      count_placed-Round f (place_one (answers f) f p.store) p (place_one-found f p.store)

  -- What the rest of the loop reports, behind what was reported before.
  abbrev Reported : List HashedFile → Placing → Type 0
  Reported fs p =
      (kept : List HashedFile) × Among kept fs
      × ((place_each answers fs p).finished_keys ≡ p.finished_keys ++ map key_of kept)
      × All (Settled (place_each answers fs p).store.index) kept

  place_each-Reported : (fs : List HashedFile) (p : Placing) → Reported fs p
  unfolding place_each place_next
  place_each-Reported [] p = ([], none_left, sym (append-nil p.finished_keys), tt)
  place_each-Reported (f ∷ fs) p =
      let (kept, among, keys, settled) = place_each-Reported fs (place_next answers f p) in
      elim (place_checked-Round f (check f.content_hash p.store.index) p refl) [
        | inr same ↦ (kept, left_out f among, keys ∙ ap (λ l. l ++ map key_of kept) same, settled)
        | inl (here, more) ↦ (
          f ∷ kept,
          kept_one f among,
          keys
              ∙ ap (λ l. l ++ map key_of kept) more
              ∙ append_assoc p.finished_keys (key_of f ∷ []) (map key_of kept),
          (place_each-Settled fs f (place_next answers f p) here, settled),
        )
      ]

length-insert_file :
    (f : HashedFile) (fs : List HashedFile) → length (insert_file f fs) ≡ suc (length fs)
unfolding insert_file
length-insert_file f [] = refl
length-insert_file f (g ∷ gs) = ground (arith, length-insert_file f gs)

length-sort_files : (fs : List HashedFile) → length (sort_files fs) ≡ length fs
unfolding sort_files
length-sort_files [] = refl
length-sort_files (f ∷ fs) = length-insert_file f (sort_files fs) ∙ ap suc (length-sort_files fs)

-- Whatever the file system answers: every file is counted once, as placed, as a duplicate or as
-- failed; there is one record for each duplicate; and the keys that are reported as finished are those
-- of some of the files, in the order in which they were placed, as many as are not failed,
-- and the content of each of them is in the index at the end.
pub place_and_report-counts :
    (answers : HashedFile → Answers) (files : List HashedFile) (s : Store)
    → let p = place_and_report answers files s in
      (p.summary.placed + p.summary.duplicates_skipped + p.summary.failed ≡ length files)
      × (length p.records ≡ p.summary.duplicates_skipped)
      × (length p.finished_keys ≡ p.summary.placed + p.summary.duplicates_skipped)
      × ((kept : List HashedFile) × Among kept (sort_files files)
          × (p.finished_keys ≡ map key_of kept)
          × All (Settled p.store.index) kept)
unfolding place_and_report
place_and_report-counts answers files s =
    let tallied =
      place_each-IsTallied answers 0 (sort_files files) (nothing_placed s)
        (record { all = refl; skipped = refl; finished = refl }) in
    let (kept, among, keys, settled) =
      place_each-Reported answers (sort_files files) (nothing_placed s) in
    (
      tallied.all ∙ ground (arith, length-sort_files files),
      sym tallied.skipped,
      tallied.finished,
      (kept, among, keys, settled),
    )
