-- ===== src/Data/ContentIndex/Durable.antt =====
-- What is committed is found again, in memory and after a reload.
use pigeon_cli.Base.{
  ℕ, ◌≡◌, refl, Bool, true, false, Option, none, some, List, [], ◌∷◌, ◌++◌, arith, append_assoc, ap,
  ◌∙◌,
}
use pigeon_cli.Base.Tests.{if◌then◌else◌}
use pigeon_cli.Base.Lines.{
  Write, not_opened, torn, whole, is_closed, lines-closed, is_closed-append,
}
use pigeon_cli.Base.Text.{has, has-append, ends_in_cr, split_once-append, lines, lines-append}
use pigeon_cli.Base.Ascii.{bytes_eq}
use pigeon_cli.Base.Outcome.{ok}
use pigeon_cli.Base.Assoc
use pigeon_cli.Base.Assoc.{Assoc}
use pigeon_cli.Data.ContentIndex.{
  ContentIndexEntry, ContentIndex, parse_line, insert_line, collect, Read, not_found, contents,
  load, check, row, bytes_of, commit,
}

-- A text without a tab or a newline.
pub record IsField (s : List ℕ) : Type 0 where
  pub no_tab : has 9 s ≡ false
  pub no_newline : has 10 s ≡ false

pub record IsRow (hash : List ℕ) (entry : ContentIndexEntry) : Type 0 where
  pub hash_field : IsField hash
  pub path_field : IsField entry.relative_path
  pub key_field : IsField entry.original_key
  pub alias_field : IsField entry.source_bucket_alias
  pub no_cr : ends_in_cr entry.source_bucket_alias ≡ false

-- The row without its newline.
abbrev line_of : List ℕ → ContentIndexEntry → List ℕ
line_of hash entry =
    hash
    ++ (9 ∷ (entry.relative_path ++ (9 ∷ (entry.original_key ++ (9 ∷ entry.source_bucket_alias)))))

row-line :
    (hash : List ℕ) (entry : ContentIndexEntry) → row hash entry ≡ line_of hash entry ++ (10 ∷ [])
row-line hash entry = simp append_assoc

parse_line-row :
    (hash : List ℕ) (entry : ContentIndexEntry)
    → IsRow hash entry
    → parse_line (line_of hash entry) ≡ some (hash, entry)
unfolding parse_line
parse_line-row hash entry h = ground (
  arith,
  split_once-append 9 hash
      (entry.relative_path ++ (9 ∷ (entry.original_key ++ (9 ∷ entry.source_bucket_alias)))),
  split_once-append 9 entry.relative_path (entry.original_key ++ (9 ∷ entry.source_bucket_alias)),
  split_once-append 9 entry.original_key entry.source_bucket_alias,
)

collect-append :
    (xs ys : List (List ℕ)) (m : Assoc ContentIndexEntry)
    → collect (xs ++ ys) m ≡ collect ys (collect xs m)
unfolding collect
collect-append [] ys m = refl
collect-append (x ∷ xs) ys m = collect-append xs ys (insert_line (parse_line x) m)

line_of-has :
    (hash : List ℕ) (entry : ContentIndexEntry)
    → IsRow hash entry
    → has 10 (line_of hash entry) ≡ false
line_of-has hash entry h = ground (
  arith,
  has-append 10 hash
      (9 ∷ (entry.relative_path ++ (9 ∷ (entry.original_key ++ (9 ∷ entry.source_bucket_alias))))),
  has-append 10 entry.relative_path (9 ∷ (entry.original_key ++ (9 ∷ entry.source_bucket_alias))),
  has-append 10 entry.original_key (9 ∷ entry.source_bucket_alias),
)

pub ends_in_cr-append :
    (xs : List ℕ) (s : List ℕ) → ends_in_cr s ≡ false → ends_in_cr (xs ++ (9 ∷ s)) ≡ false
ends_in_cr-append [] [] h = refl
ends_in_cr-append [] (y ∷ s) h = h
ends_in_cr-append (x ∷ []) s h = ends_in_cr-append [] s h
ends_in_cr-append (x ∷ y ∷ xs) s h = ends_in_cr-append (y ∷ xs) s h

line_of-cr :
    (hash : List ℕ) (entry : ContentIndexEntry)
    → IsRow hash entry
    → ends_in_cr (line_of hash entry) ≡ false
line_of-cr hash entry h =
    ends_in_cr-append hash _
      (ends_in_cr-append entry.relative_path _ (ends_in_cr-append entry.original_key _ h.no_cr))

collect-row :
    (c hash : List ℕ) (entry : ContentIndexEntry)
    → is_closed c ≡ true
    → IsRow hash entry
    → collect (lines (c ++ row hash entry)) [] ≡ Assoc.insert hash entry (collect (lines c) [])
collect-row c hash entry closed h =
    ap (λ (l : List (List ℕ)). collect l [])
      (ap (λ (r : List ℕ). lines (c ++ r)) (row-line hash entry)
        ∙ lines-closed c (line_of hash entry ++ (10 ∷ [])) closed
        ∙ ap (λ (l : List (List ℕ)). lines c ++ l)
            (lines-append (line_of hash entry) [] (line_of-has hash entry h)
              (line_of-cr hash entry h)))
    ∙ collect-append (lines c) (line_of hash entry ∷ lines []) []
    ∙ (unfold collect lines in rw (parse_line-row hash entry h))

-- The file holds whole lines, and reading it gives the entries.
pub record IsSynced (ix : ContentIndex) : Type 0 where
  pub closed : is_closed (bytes_of ix.file) ≡ true
  pub same : collect (lines (bytes_of ix.file)) [] ≡ ix.entries

pub commit-IsSynced :
    (hash : List ℕ) (entry : ContentIndexEntry) (ix : ContentIndex)
    → IsRow hash entry
    → IsSynced ix
    → IsSynced (commit whole hash entry ix).1
unfolding commit
commit-IsSynced hash entry ix h s = record {
  closed = rw row-line (is_closed-append (bytes_of ix.file) (line_of hash entry));
  same = collect-row (bytes_of ix.file) hash entry s.closed h ∙ ap (Assoc.insert hash entry) s.same;
}

-- A run of commits, each with the answer of the file system.
pub data Commit : Type 0 where
  attempt : Write → List ℕ → ContentIndexEntry → Commit

unfoldable pub commit_all : List Commit → ContentIndex → ContentIndex
commit_all [] ix = ix
commit_all (attempt write hash entry ∷ rest) ix = commit_all rest (commit write hash entry ix).1

abbrev pub is_torn : Write → Bool
is_torn (torn n) = true
is_torn _ = false

-- No write fails midway, and all rows can be read back.
abbrev pub AreRows : List Commit → Type 0
AreRows [] = Unit
AreRows (attempt write hash entry ∷ rest) =
    (is_torn write ≡ false) × IsRow hash entry × AreRows rest

commit_all-IsSynced :
    (commits : List Commit) (ix : ContentIndex)
    → AreRows commits
    → IsSynced ix
    → IsSynced (commit_all commits ix)
unfolding commit_all
commit_all-IsSynced [] ix rows s = s
commit_all-IsSynced (attempt whole hash entry ∷ rest) ix (sound, h, rows) s =
    commit_all-IsSynced rest (commit whole hash entry ix).1 rows (commit-IsSynced hash entry ix h s)
commit_all-IsSynced (attempt (torn n) hash entry ∷ rest) ix (sound, h, rows) s = cc
commit_all-IsSynced (attempt not_opened hash entry ∷ rest) ix (sound, h, rows) s =
    commit_all-IsSynced rest (commit not_opened hash entry ix).1 rows (unfold commit in s)

-- What a read of the index's own file returns.
abbrev pub read_back : ContentIndex → Read
read_back ix = elim ix.file [ none ↦ not_found | some c ↦ contents c ]

load-file :
    (file : Option (List ℕ)) (entries : Assoc ContentIndexEntry)
    → collect (lines (bytes_of file)) [] ≡ entries
    → load (read_back (record { file = file; entries = entries }))
      ≡ ok (record { file = file; entries = entries })
unfolding load
load-file none entries e = ap (λ es. ok (record { file = none; entries = es })) e
load-file (some c) entries e = ap (λ es. ok (record { file = some c; entries = es })) e

-- After any run of commits on a synced index, of which some may fail to open the file but none
-- fails midway, loading the file gives back the index that the run ended with, as long as no field of
-- a row holds a tab or a newline and no alias ends in a carriage return.
pub load-commit_all :
    (commits : List Commit) (ix : ContentIndex)
    → AreRows commits
    → IsSynced ix
    → load (read_back (commit_all commits ix)) ≡ ok (commit_all commits ix)
load-commit_all commits ix rows s =
    let end = commit_all commits ix in
    load-file end.file end.entries (commit_all-IsSynced commits ix rows s).same

-- A commit that is written is found under its hash, and leaves every other hash as it was.
pub check-commit :
    (hash other : List ℕ) (entry : ContentIndexEntry) (ix : ContentIndex)
    → check other (commit whole hash entry ix).1
      ≡ (if bytes_eq hash other then some entry else check other ix)
unfolding check commit
check-commit hash other entry ix = Assoc.lookup-insert hash other entry ix.entries
