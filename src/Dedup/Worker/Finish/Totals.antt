-- ===== src/Dedup/Worker/Finish/Totals.antt =====
-- Every item is counted once in the summary.
use pigeon_cli.Base.{ℕ, suc, ◌+◌, ◌≡◌, refl, ap, inl, inr, true, List, [], ◌∷◌, map, arith}
use pigeon_cli.Base.Tests.{Bool-cases}
use pigeon_cli.Base.Lists.{length, all, length-append}
use pigeon_cli.Dedup.Manifest.{DeduplicateTask, Place, holds}
use pigeon_cli.Dedup.Place.{HashedFile, Answers, Store, place_and_report}
use pigeon_cli.Dedup.Worker.{
  FailureBreakdown, FailureCategory, ItemOutcome, Results, Effect, effects, taint, count_failures,
  apply_effect, members_of, item_of_task, in_download, in_archive, in_hash, zip_expanded, hashed,
  skipped_apple_double, archive_open_failed, failed_in, add_members, add_finished, add_failures,
  add_dropped, add_tainted, add_hashed, add_skipped, add_archive_failure,
}
use pigeon_cli.Dedup.Worker.Pool.{Handled, Pool, effects_of, initial, Reaches}
use pigeon_cli.Dedup.Worker.Pool.Sums.{sum_of}
use pigeon_cli.Dedup.Worker.Pool.Leaving.{is_gone, all_handled}
use pigeon_cli.Dedup.Worker.Pool.Noted.{Tally, all_noted}
use pigeon_cli.Dedup.Worker.Finish.{summary_of}
use pigeon_cli.Dedup.Place.Counts.{place_and_report-counts}

-- The hashed files and the failures, as the results have them.
abbrev total : Results → ℕ
total r =
    length r.hashed_files
    + (r.failure_breakdown.download + r.failure_breakdown.archive + r.failure_breakdown.hash)

abbrev weight : ItemOutcome → ℕ
weight (zip_expanded display_key depth members dropped) = dropped
weight (hashed depth file) = 1
weight (skipped_apple_double depth) = 0
weight (archive_open_failed key error) = 1
weight (failed_in category) = 1

abbrev dropped_by : ItemOutcome → ℕ
dropped_by (zip_expanded display_key depth members dropped) = dropped
dropped_by _ = 0

-- Items that are neither hashed nor failed: expanded archives, and what is skipped.
abbrev pub set_aside : ItemOutcome → ℕ
set_aside (zip_expanded display_key depth members dropped) = 1
set_aside (skipped_apple_double depth) = 1
set_aside _ = 0

abbrev pub set_aside_by : List Handled → ℕ
set_aside_by [] = 0
set_aside_by (h ∷ hs) = set_aside h.outcome + set_aside_by hs

abbrev total_gain : Effect → ℕ
total_gain (add_hashed file) = 1
total_gain (add_failures category n) = n
total_gain _ = 0

abbrev drop_gain : Effect → ℕ
drop_gain (add_dropped n) = n
drop_gain _ = 0

count_failures-sum :
    (c : FailureCategory) (n : ℕ) (b : FailureBreakdown)
    → (count_failures c n b).download + (count_failures c n b).archive + (count_failures c n b).hash
      ≡ b.download + b.archive + b.hash + n
count_failures-sum in_download n b = omega arith
count_failures-sum in_archive n b = omega arith
count_failures-sum in_hash n b = omega arith

taint-same :
    (root : Place) (r : Results)
    → (total (taint root r) ≡ total r) × ((taint root r).dropped_members ≡ r.dropped_members)
taint-same root r = elim (Bool-cases (holds root r.tainted_roots)) [
  | inl old ↦ rw old (refl, refl)
  | inr fresh ↦ rw fresh (refl, refl)
]

total_applies : (e : Effect) (r : Results) → total (apply_effect e r) ≡ total r + total_gain e
unfolding apply_effect
total_applies (add_failures category n) r =
    omega (arith, count_failures-sum category n r.failure_breakdown)
total_applies (add_tainted root) r = omega (arith, taint-same root r)
total_applies (add_hashed file) r = omega (arith, length-append r.hashed_files (file ∷ []))
total_applies (add_members members) r = omega arith
total_applies (add_finished root) r = omega arith
total_applies (add_dropped n) r = omega arith
total_applies (add_skipped root) r = omega arith
total_applies (add_archive_failure failure) r = omega arith

drop_applies :
    (e : Effect) (r : Results)
    → (apply_effect e r).dropped_members ≡ r.dropped_members + drop_gain e
unfolding apply_effect
drop_applies (add_tainted root) r = omega (arith, taint-same root r)
drop_applies (add_failures category n) r = omega arith
drop_applies (add_hashed file) r = omega arith
drop_applies (add_members members) r = omega arith
drop_applies (add_finished root) r = omega arith
drop_applies (add_dropped n) r = omega arith
drop_applies (add_skipped root) r = omega arith
drop_applies (add_archive_failure failure) r = omega arith

abbrev totals : Tally
totals = record { value = total; gain = total_gain; starts = refl; applies = total_applies }

abbrev drops : Tally
drops = record {
  value = λ r. r.dropped_members;
  gain = drop_gain;
  starts = refl;
  applies = drop_applies;
}

effects-weight :
    (a k : List ℕ) (o : ItemOutcome)
    → (sum_of total_gain (effects a k o) ≡ weight o)
      × (sum_of drop_gain (effects a k o) ≡ dropped_by o)
unfolding effects
effects-weight a k (zip_expanded key depth members dropped) = (ground arith, ground arith)
effects-weight a k (hashed depth file) = (ground arith, ground arith)
effects-weight a k (skipped_apple_double depth) = (ground arith, ground arith)
effects-weight a k (archive_open_failed key error) = (refl, refl)
effects-weight a k (failed_in category) = (refl, refl)

abbrev pub queued_by : List Handled → ℕ
queued_by [] = 0
queued_by (h ∷ hs) = length (members_of h.outcome) + queued_by hs

outcome-once : (o : ItemOutcome) → weight o + set_aside o ≡ 1 + dropped_by o
outcome-once (zip_expanded key depth members dropped) = omega arith
outcome-once (hashed depth file) = refl
outcome-once (skipped_apple_double depth) = refl
outcome-once (archive_open_failed key error) = refl
outcome-once (failed_in category) = refl

sum_of-weights :
    (hs : List Handled)
    → sum_of (λ (h : Handled). sum_of total_gain (effects_of h)) hs + set_aside_by hs
      ≡ length hs + sum_of (λ (h : Handled). sum_of drop_gain (effects_of h)) hs
sum_of-weights [] = refl
sum_of-weights (h ∷ hs) = omega (
  arith,
  effects-weight h.item.bucket_alias h.item.root_key h.outcome,
  outcome-once h.outcome,
  sum_of-weights hs,
)

length-sum {ℓ} : {A : Type ℓ} (xs : List A) → sum_of (λ x. 1) xs ≡ length xs
length-sum [] = refl
length-sum (x ∷ xs) = ground (arith, length-sum xs)

queued_by-sum :
    (hs : List Handled)
    → sum_of (λ (h : Handled). sum_of (λ i. 1) (members_of h.outcome)) hs ≡ queued_by hs
queued_by-sum [] = refl
queued_by-sum (h ∷ hs) = omega (arith, length-sum (members_of h.outcome), queued_by-sum hs)

length-items : (tasks : List DeduplicateTask) → length (map item_of_task tasks) ≡ length tasks
length-items [] = refl
length-items (t ∷ ts) = ap suc (length-items ts)

-- When the workers have left and the hashed files have been placed, whatever was answered: the files
-- placed, the duplicates, the failures, and the archives and AppleDouble items that were set aside are
-- together as many as the tasks, the members that the archives gave, and the members that were dropped;
-- and the number of failures is the sum of its breakdown.
pub summary_of-totals :
    {buckets : List (List ℕ)} (concurrency : ℕ) (tasks : List DeduplicateTask) (p : Pool)
    (answers : HashedFile → Answers) (s : Store)
    → Reaches buckets (initial concurrency tasks) p
    → all is_gone p.workers ≡ true
    → let summary =
        summary_of p.results (place_and_report answers p.results.hashed_files s).summary in
      (summary.processed + summary.duplicates_skipped + summary.failed + set_aside_by p.handled
        ≡ length tasks + queued_by p.handled + summary.dropped_members)
      × (summary.failed
          ≡ summary.failure_breakdown.download + summary.failure_breakdown.archive
            + summary.failure_breakdown.hash + summary.failure_breakdown.placement)
unfolding summary_of
summary_of-totals concurrency tasks p answers s r left =
    let once = (all_handled (λ i. 1) concurrency tasks p r left).2 in
    let placed = (place_and_report-counts answers p.results.hashed_files s).0 in
    let summed : total p.results
        ≡ sum_of (λ (h : Handled). sum_of total_gain (effects_of h)) p.handled =
      all_noted totals concurrency tasks p r left in
    let lost : p.results.dropped_members
        ≡ sum_of (λ (h : Handled). sum_of drop_gain (effects_of h)) p.handled =
      all_noted drops concurrency tasks p r left in
    let items = length-sum (map item_of_task tasks) in
    let names = length-items tasks in
    let every : length p.handled ≡ length tasks + queued_by p.handled =
      omega (arith, once, length-sum p.handled, items, names, queued_by-sum p.handled) in
    let sum : total p.results + set_aside_by p.handled
        ≡ length p.handled + p.results.dropped_members =
      omega (arith, summed, lost, sum_of-weights p.handled) in
    (ground (arith, placed, every, sum), omega arith)
