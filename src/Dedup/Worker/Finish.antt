-- ===== src/Dedup/Worker/Finish.antt =====
-- `run_deduplicate_job` behind its workers: placement, the checkpoint, and the summary.
pub mod Tainted
pub mod Totals
use pigeon_cli.Base.{ℕ, ◌+◌, Bool, not, ◌&&◌, ◌||◌, Option, none, some, List, [], ◌∷◌, ◌++◌}
use pigeon_cli.Base.Tests.{if◌then◌else◌}
use pigeon_cli.Base.Lists.{length}
use pigeon_cli.Base.Lines.{Write}
use pigeon_cli.Base.Outcome.{Result, ◌>>◌, ok, err}
use pigeon_cli.Data.ContentIndex.{Read, load}
use pigeon_cli.Dedup.Manifest.{Place, holds, append_checkpoint}
use pigeon_cli.Dedup.Place.{
  HashedFile, PlacementSummary, Answers, Placing, place_and_report, ArchiveFailure,
}
use pigeon_cli.Dedup.Worker.{FailureBreakdown, merge, is_zip_key, Results, no_failures}

-- The closure of `retain`.
unfoldable pub is_finished : List Place → List Place → Place → Bool
unfolding is_zip_key
is_finished tainted_roots placed_keys root =
    not (holds root tainted_roots) && (holds root placed_keys || is_zip_key root.1)

unfoldable pub retain : List Place → List Place → List Place → List Place
unfolding is_finished
retain tainted_roots placed_keys [] = []
retain tainted_roots placed_keys (root ∷ roots) =
    let rest = retain tainted_roots placed_keys roots in
    if is_finished tainted_roots placed_keys root then root ∷ rest else rest

-- The loops over the keys to checkpoint; the first error ends the run.
unfoldable pub checkpoint_each :
    (Place → Write) → List Place → Option (List ℕ) → Result (Unit {0}) (Unit {0}) × Option (List ℕ)
unfolding append_checkpoint
checkpoint_each writes [] file = (ok tt, file)
checkpoint_each writes (root ∷ roots) file =
    let (outcome, file') = append_checkpoint (writes root) root file in
    let rest = checkpoint_each writes roots file' in
    elim outcome [ err e ↦ (err e, file') | ok done ↦ rest ]

-- All that is checkpointed, in the order of the two loops.
unfoldable pub to_checkpoint : Results → List Place → List Place
unfolding retain
to_checkpoint r placed_keys =
    retain r.tainted_roots placed_keys r.finished_root_keys ++ r.apple_double_skipped_roots

pub record DeduplicateSummary : Type 0 where
  pub processed : ℕ
  pub failed : ℕ
  pub failure_breakdown : FailureBreakdown
  pub duplicates_skipped : ℕ
  pub dropped_members : ℕ
  pub skipped_apple_double : ℕ
  pub archive_failures : List ArchiveFailure
  pub uploaded : ℕ
  pub upload_failed : ℕ

unfoldable pub summary_of : Results → PlacementSummary → DeduplicateSummary
summary_of r placement_summary =
    let b = r.failure_breakdown in
    record {
      processed = placement_summary.placed;
      failed = b.download + b.archive + b.hash + placement_summary.failed;
      failure_breakdown = record (merge no_failures b) { placement = placement_summary.failed };
      duplicates_skipped = placement_summary.duplicates_skipped;
      dropped_members = r.dropped_members;
      skipped_apple_double = length r.apple_double_skipped_roots;
      archive_failures = r.archive_failures;
      uploaded = 0;
      upload_failed = 0;
    }

-- What `rclone` reports of the upload: how many files were copied, and how many errors there were.
abbrev pub with_upload :
    Option (Result (Unit {0}) (ℕ × ℕ)) → DeduplicateSummary → Result (Unit {0}) DeduplicateSummary
with_upload none summary = ok summary
with_upload (some (err e)) summary = err e
with_upload (some (ok (transferred, errors))) summary =
    ok (record summary { uploaded = transferred; upload_failed = errors })

-- The answers to the rest of the run.
pub record RestAnswers : Type 0 where
  pub index_file : Read
  pub placing : HashedFile → Answers
  pub report_written : Bool
  pub writes : Place → Write
  pub upload : Option (Result (Unit {0}) (ℕ × ℕ))

abbrev pub after_placing :
    RestAnswers
    → Results
    → Option (List ℕ)
    → Placing
    → Result (Unit {0}) DeduplicateSummary × Option (List ℕ)
after_placing a r checkpoint p =
    if a.report_written
    then (let (outcome, file) =
          checkpoint_each a.writes (to_checkpoint r p.finished_keys) checkpoint in
        (outcome >> with_upload a.upload (summary_of r p.summary), file))
    else (err tt, checkpoint)

-- The run behind the workers, with the checkpoint file as it leaves it.
unfoldable pub finish_run :
    RestAnswers
    → Results
    → List (List ℕ × List ℕ)
    → List (List ℕ)
    → Option (List ℕ)
    → Result (Unit {0}) DeduplicateSummary × Option (List ℕ)
unfolding load place_and_report checkpoint_each to_checkpoint summary_of
finish_run a r placed_before scratch checkpoint = elim (load a.index_file) [
  | err e ↦ (err e, checkpoint)
  | ok index ↦ after_placing a r checkpoint (
      place_and_report a.placing r.hashed_files
        (record { results = placed_before; scratch = scratch; index = index }))
]
