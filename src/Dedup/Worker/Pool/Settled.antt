-- ===== src/Dedup/Worker/Pool/Settled.antt =====
-- When the workers have left, nothing that was found is lost, and nothing is there twice.
use pigeon_cli.Base.{
  ℕ, ◌+◌, ◌≡◌, refl, ap, ◌∙◌, inl, inr, Bool, true, List, [], ◌∷◌, ◌++◌, map, arith,
}
use pigeon_cli.Base.Tests.{if◌then◌else◌, Bool-cases}
use pigeon_cli.Base.Lists.{all, All}
use pigeon_cli.Dedup.Manifest.{DeduplicateTask, holds}
use pigeon_cli.Dedup.Place.{HashedFile}
use pigeon_cli.Dedup.Worker.{
  QueueItem, ItemOutcome, Results, Effect, effects, apply_effect, members_of, item_of_task,
  zip_expanded, hashed, skipped_apple_double, archive_open_failed, failed_in, add_members,
  add_finished, add_failures, add_dropped, add_tainted, add_hashed, add_skipped,
  add_archive_failure,
}
use pigeon_cli.Dedup.Worker.Pool.{Handled, Pool, effects_of, initial, Reaches}
use pigeon_cli.Dedup.Worker.Pool.Sums.{sum_of, sum_of-append}
use pigeon_cli.Dedup.Worker.Pool.Leaving.{is_gone, initial-IsSafe, Reaches-IsSafe, all_handled}
use pigeon_cli.Dedup.Worker.Pool.Noted.{Tally, all_noted}
use pigeon_cli.Dedup.Worker.Pool.Family.{Label, label, offspring}

-- How many entries of a list pass a test. Two lists that agree on this for every test have the same
-- entries, each as often.
abbrev pub count {ℓ} : {A : Type ℓ} → (A → Bool) → List A → ℕ
count test xs = sum_of (λ x. if test x then 1 else 0) xs

abbrev pub label_of_task : DeduplicateTask → Label
label_of_task t = (t.bucket_alias, t.key, t.key)

abbrev pub label_of : Handled → Label
label_of h = label h.item

-- The members of all archives that were expanded.
abbrev pub all_offspring : List Handled → List Label
all_offspring [] = []
all_offspring (h ∷ hs) = offspring h ++ all_offspring hs

abbrev file_of : ItemOutcome → List HashedFile
file_of (hashed depth file) = file ∷ []
file_of _ = []

-- The files of all outcomes that have one.
abbrev pub files_of : List Handled → List HashedFile
files_of [] = []
files_of (h ∷ hs) = file_of h.outcome ++ files_of hs

module _ (test : Label → Bool) where
  abbrev passes : QueueItem → ℕ
  passes item = if test (label item) then 1 else 0

  count-labels : (items : List QueueItem) → sum_of passes items ≡ count test (map label items)
  count-labels [] = refl
  count-labels (i ∷ is) = ap (λ n. passes i + n) (count-labels is)

  count-tasks :
      (tasks : List DeduplicateTask)
      → sum_of passes (map item_of_task tasks) ≡ count test (map label_of_task tasks)
  count-tasks [] = refl
  count-tasks (t ∷ ts) = ap (λ n. passes (item_of_task t) + n) (count-tasks ts)

  count-handled :
      (hs : List Handled)
      → sum_of (λ (h : Handled). passes h.item) hs ≡ count test (map label_of hs)
  count-handled [] = refl
  count-handled (h ∷ hs) = ap (λ n. passes h.item + n) (count-handled hs)

  count-offspring :
      (hs : List Handled)
      → All (λ (h : Handled). map label (members_of h.outcome) ≡ offspring h) hs
      → sum_of (λ (h : Handled). sum_of passes (members_of h.outcome)) hs
        ≡ count test (all_offspring hs)
  count-offspring [] born = refl
  count-offspring (h ∷ hs) (e, born) =
      let members : sum_of passes (members_of h.outcome) ≡ count test (offspring h) =
        count-labels (members_of h.outcome) ∙ ap (count test) e in
      omega (
        arith,
        members,
        count-offspring hs born,
        sum_of-append (λ l. if test l then 1 else 0) (offspring h) (all_offspring hs),
      )

-- The hashed files that pass a test.
module _ (test : HashedFile → Bool) where
  abbrev file_gain : Effect → ℕ
  file_gain (add_hashed file) = if test file then 1 else 0
  file_gain _ = 0

  file_applies :
      (e : Effect) (r : Results)
      → count test (apply_effect e r).hashed_files ≡ count test r.hashed_files + file_gain e
  unfolding apply_effect
  file_applies (add_members members) r = omega arith
  file_applies (add_finished root) r = omega arith
  file_applies (add_failures category n) r = omega arith
  file_applies (add_dropped n) r = omega arith
  file_applies (add_tainted root) r = elim (Bool-cases (holds root r.tainted_roots)) [
    | inl old ↦ rw old (omega arith)
    | inr fresh ↦ rw fresh (omega arith)
  ]
  file_applies (add_hashed file) r =
      ground (arith, sum_of-append (λ f. if test f then 1 else 0) r.hashed_files (file ∷ []))
  file_applies (add_skipped root) r = omega arith
  file_applies (add_archive_failure failure) r = omega arith

  abbrev file_tally : Tally
  file_tally = record {
    value = λ r. count test r.hashed_files;
    gain = file_gain;
    starts = refl;
    applies = file_applies;
  }

  file_gain-effects :
      (a k : List ℕ) (o : ItemOutcome) → sum_of file_gain (effects a k o) ≡ count test (file_of o)
  unfolding effects
  file_gain-effects a k (zip_expanded key depth members dropped) = ground arith
  file_gain-effects a k (hashed depth file) = ground arith
  file_gain-effects a k (skipped_apple_double depth) = ground arith
  file_gain-effects a k (archive_open_failed key error) = refl
  file_gain-effects a k (failed_in category) = refl

  count-files :
      (hs : List Handled)
      → sum_of (λ (h : Handled). sum_of file_gain (effects_of h)) hs ≡ count test (files_of hs)
  count-files [] = refl
  count-files (h ∷ hs) = omega (
    arith,
    file_gain-effects h.item.bucket_alias h.item.root_key h.outcome,
    count-files hs,
    sum_of-append (λ f. if test f then 1 else 0) (file_of h.outcome) (files_of hs),
  )

-- In whatever order the workers take their steps, and whatever the answers: when all of them have
-- left, the queue is empty and no item is in flight; the items that were handled are, each as often,
-- the tasks and the members that the expanded archives gave, every member under the alias and the root
-- of its archive; and the hashed files are, each as often, those of the outcomes.
pub Reaches-all_gone :
    {buckets : List (List ℕ)} (concurrency : ℕ) (tasks : List DeduplicateTask) (p : Pool)
    → Reaches buckets (initial concurrency tasks) p
    → all is_gone p.workers ≡ true
    → (p.queue ≡ [])
      × (p.in_flight ≡ 0)
      × ((test : Label → Bool)
          → count test (map label_of p.handled)
            ≡ count test (map label_of_task tasks) + count test (all_offspring p.handled))
      × ((test : HashedFile → Bool)
          → count test p.results.hashed_files ≡ count test (files_of p.handled))
Reaches-all_gone concurrency tasks p r left =
    let (empty, still, once) = all_handled (λ item. 0) concurrency tasks p r left in
    let safe = Reaches-IsSafe (λ item. 0) _ (initial-IsSafe (λ item. 0) concurrency tasks) r in
    (
      empty,
      still,
      λ test. omega (
        arith,
        (all_handled (passes test) concurrency tasks p r left).2,
        count-handled test p.handled,
        count-tasks test tasks,
        count-offspring test p.handled safe.born,
      ),
      λ test. all_noted (file_tally test) concurrency tasks p r left ∙ count-files test p.handled,
    )
