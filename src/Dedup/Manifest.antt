-- ===== src/Dedup/Manifest.antt =====
-- manifest.rs: what is still to be done, from the listings and the checkpoint file.
pub mod Checkpoint
pub mod Pending
use pigeon_cli.Base.{ℕ, ◌+◌, ◌%◌, Bool, ◌&&◌, ◌||◌, Option, none, some, List, [], ◌∷◌, ◌++◌, map}
use pigeon_cli.Base.Tests.{if◌then◌else◌, u64_mod}
use pigeon_cli.Base.Lists.{take, any}
use pigeon_cli.Base.Text.{split_on, split_once, lines}
use pigeon_cli.Base.Strings.{last_piece}
use pigeon_cli.Base.Lines.{Write, not_opened, whole, torn}
use pigeon_cli.Base.Ascii.{codes, to_lower, bytes_eq}
use pigeon_cli.Base.Outcome.{Result, ◌>>=◌, ok, err}
use pigeon_cli.Data.ContentIndex.{Read, bytes_of, contents, not_found, failed}
use pigeon_cli.Ledger.{bytes_lt}
use pigeon_cli.Base.FilePath

unfoldable pub after_zip_separator : List ℕ → List ℕ
unfolding split_on
after_zip_separator key = last_piece (split_on b'!' key)

-- A key is UTF-8, and so is each part of it, so that `to_str` always succeeds.
unfoldable pub extension_of : List ℕ → List ℕ
unfolding after_zip_separator FilePath.extension to_lower
extension_of key = elim (FilePath.extension (after_zip_separator key)) [
  | none ↦ codes "(none)"
  | some ext ↦ map to_lower ext
]

pub record DeduplicateTask : Type 0 where
  pub bucket_alias : List ℕ
  pub key : List ℕ
  pub size : ℕ

pub record TypeSummary : Type 0 where
  pub extension : List ℕ
  pub count : ℕ
  pub total_bytes : ℕ

pub record DeduplicatePlan : Type 0 where
  pub tasks : List DeduplicateTask
  pub type_summary : List TypeSummary

-- The pair of a bucket's alias and a key in it.
abbrev pub Place : Type 0
Place = List ℕ × List ℕ

abbrev pub same_place : Place → Place → Bool
same_place (a, k) (b, j) = bytes_eq a b && bytes_eq k j

-- A line of before the aliases is a key alone.
unfoldable pub place_of_line : List ℕ → Place
unfolding split_once
place_of_line line = elim (split_once 9 line) [ none ↦ ([], line) | some place ↦ place ]

unfoldable pub load_checkpoint : Read → Result (Unit {0}) (List Place)
unfolding lines place_of_line
load_checkpoint (contents c) = ok (map place_of_line (lines c))
load_checkpoint not_found = ok []
load_checkpoint failed = err tt

abbrev pub holds : Place → List Place → Bool
holds place done = any (λ p. same_place p place) done

unfoldable pub is_checkpointed : List Place → List ℕ → List ℕ → Bool
is_checkpointed done bucket_alias key = holds (bucket_alias, key) done || holds ([], key) done

abbrev pub line_of : Place → List ℕ
line_of (bucket_alias, key) = bucket_alias ++ (9 ∷ key)

-- `append_checkpoint`, on the contents of the file.
unfoldable pub append_checkpoint :
    Write → Place → Option (List ℕ) → Result (Unit {0}) (Unit {0}) × Option (List ℕ)
append_checkpoint not_opened place file = (err tt, file)
append_checkpoint (torn n) place file =
    (err tt, some (bytes_of file ++ take n (line_of place ++ (10 ∷ []))))
append_checkpoint whole place file = (ok tt, some (bytes_of file ++ (line_of place ++ (10 ∷ []))))

-- One object of a listing.
pub record Listed : Type 0 where
  pub path : List ℕ
  pub size : ℕ

-- The rows by extension, in the order of a `BTreeMap`; the sum of a `u64`.
unfoldable pub tally : List ℕ → ℕ → List TypeSummary → List TypeSummary
unfolding bytes_lt
tally ext size [] = record { extension = ext; count = 1; total_bytes = size } ∷ []
tally ext size (t ∷ ts) =
    let rest = tally ext size ts in
    if bytes_eq ext t.extension
    then record t { count = t.count + 1; total_bytes = (t.total_bytes + size) % u64_mod } ∷ ts
    else if bytes_lt ext t.extension
    then record { extension = ext; count = 1; total_bytes = size } ∷ t ∷ ts
    else t ∷ rest

abbrev pub task_of : List ℕ → Listed → DeduplicateTask
task_of bucket_alias e = record { bucket_alias = bucket_alias; key = e.path; size = e.size }

abbrev pub with_task : List ℕ → Listed → DeduplicatePlan → DeduplicatePlan
with_task bucket_alias e plan = record {
  tasks = plan.tasks ++ (task_of bucket_alias e ∷ []);
  type_summary = tally (extension_of e.path) e.size plan.type_summary;
}

unfoldable pub classify_one : List Place → List ℕ → Listed → DeduplicatePlan → DeduplicatePlan
unfolding is_checkpointed tally extension_of
classify_one done bucket_alias e plan =
    if is_checkpointed done bucket_alias e.path then plan else with_task bucket_alias e plan

-- The loop over the entries of a listing.
unfoldable pub classify : List Place → List ℕ → List Listed → DeduplicatePlan → DeduplicatePlan
unfolding classify_one
classify done bucket_alias [] plan = plan
classify done bucket_alias (e ∷ es) plan =
    classify done bucket_alias es (classify_one done bucket_alias e plan)

-- A bucket's alias, with its listing or that rclone failed.
abbrev pub Listing : Type 0
Listing = List ℕ × Result (Unit {0}) (List Listed)

unfoldable pub gather_buckets :
    List Place → List Listing → DeduplicatePlan → Result (Unit {0}) DeduplicatePlan
unfolding classify
gather_buckets done [] plan = ok plan
gather_buckets done ((bucket_alias, err e) ∷ rest) plan = err e
gather_buckets done ((bucket_alias, ok entries) ∷ rest) plan =
    gather_buckets done rest (classify done bucket_alias entries plan)

abbrev pub empty_plan : DeduplicatePlan
empty_plan = record { tasks = []; type_summary = [] }

unfoldable pub gather_pending : List Listing → Read → Result (Unit {0}) DeduplicatePlan
unfolding load_checkpoint gather_buckets
gather_pending source_buckets checkpoint = do
  done ← load_checkpoint checkpoint
  gather_buckets done source_buckets empty_plan
