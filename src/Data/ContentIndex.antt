-- ===== src/Data/ContentIndex.antt =====
-- `ContentIndex`: which content is already placed, kept in memory and in an append-only file.
pub mod Durable
use pigeon_cli.Base.{ℕ, Bool, true, false, Option, none, some, List, [], ◌∷◌, ◌++◌, map}
use pigeon_cli.Base.Text.{split_once, lines}
use pigeon_cli.Base.Assoc
use pigeon_cli.Base.Assoc.{Assoc}
use pigeon_cli.Base.Lines.{Write, not_opened, torn, whole}
use pigeon_cli.Base.Lists.{take}
use pigeon_cli.Base.Outcome.{Result, ok, err}

pub record ContentIndexEntry : Type 0 where
  pub relative_path : List ℕ
  pub original_key : List ℕ
  pub source_bucket_alias : List ℕ

-- The index, with the contents of its file; `none` while the file does not exist.
pub record ContentIndex : Type 0 where
  pub file : Option (List ℕ)
  pub entries : Assoc ContentIndexEntry

-- `unwrap_or((rest, ""))`
abbrev pub or_whole : List ℕ → Option (List ℕ × List ℕ) → List ℕ × List ℕ
or_whole rest none = (rest, [])
or_whole rest (some p) = p

-- The fields behind the hash of a line with tabs.
unfoldable pub entry_of : List ℕ → ContentIndexEntry
unfolding split_once
entry_of rest =
    let (relative_path, rest') = or_whole rest (split_once 9 rest) in
    let (original_key, source_bucket_alias) = or_whole rest' (split_once 9 rest') in
    record {
      relative_path = relative_path;
      original_key = original_key;
      source_bucket_alias = source_bucket_alias;
    }

-- One line: the format with tabs, or the older one with a space.
unfoldable pub parse_line : List ℕ → Option (List ℕ × ContentIndexEntry)
unfolding entry_of
parse_line line = elim (split_once 9 line) [
  | some (hash, rest) ↦ some (hash, entry_of rest)
  | none ↦ elim (split_once 32 line) [
    | none ↦ none
    | some (hash, relative_path) ↦ some (
      hash,
      record { relative_path = relative_path; original_key = []; source_bucket_alias = [] },
    )
  ]
]

abbrev pub insert_line :
    Option (List ℕ × ContentIndexEntry) → Assoc ContentIndexEntry → Assoc ContentIndexEntry
insert_line none entries = entries
insert_line (some (hash, entry)) entries = Assoc.insert hash entry entries

-- `collect` into a map: a later line of the same hash replaces an earlier one.
unfoldable pub collect : List (List ℕ) → Assoc ContentIndexEntry → Assoc ContentIndexEntry
unfolding parse_line
collect [] entries = entries
collect (line ∷ rest) entries = collect rest (insert_line (parse_line line) entries)

-- What reading the file gives: its contents, that it is not there, or another error.
pub data Read : Type 0 where
  contents : List ℕ → Read
  not_found : Read
  failed : Read

unfoldable pub load : Read → Result (Unit {0}) ContentIndex
unfolding collect lines
load (contents c) = ok (record { file = some c; entries = collect (lines c) [] })
load not_found = ok (record { file = none; entries = [] })
load failed = err tt

unfoldable pub check : List ℕ → ContentIndex → Option ContentIndexEntry
check hash ix = Assoc.lookup hash ix.entries

abbrev pub row : List ℕ → ContentIndexEntry → List ℕ
row hash entry =
    hash
    ++ (9
        ∷ (entry.relative_path
            ++ (9 ∷ (entry.original_key ++ (9 ∷ (entry.source_bucket_alias ++ (10 ∷ [])))))))

abbrev pub bytes_of : Option (List ℕ) → List ℕ
bytes_of none = []
bytes_of (some c) = c

-- `commit_with_key_and_bucket`; a write that fails midway leaves a part of the row behind.
unfoldable pub commit :
    Write → List ℕ → ContentIndexEntry → ContentIndex → Result (Unit {0}) (Unit {0}) × ContentIndex
commit not_opened hash entry ix = (err tt, ix)
commit (torn n) hash entry ix =
    (err tt, record ix { file = some (bytes_of ix.file ++ take n (row hash entry)) })
commit whole hash entry ix = (
  ok tt,
  record {
    file = some (bytes_of ix.file ++ row hash entry);
    entries = Assoc.insert hash entry ix.entries;
  },
)
