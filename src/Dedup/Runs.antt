-- ===== src/Dedup/Runs.antt =====
-- Small runs: keys as the program's own tests have them, one archive, two copies of one content.
use pigeon_cli.Base.{
  ℕ, ◌+◌, ◌*◌, ◌≤◌, String, ◌≡◌, refl, ◌⊎◌, Bool, true, false, Option, none, some, List, [], ◌∷◌,
  ◌++◌, map, arith,
}
use pigeon_cli.Base.Lists.{length, All}
use pigeon_cli.Base.Lines.{whole}
use pigeon_cli.Base.Ascii.{codes}
use pigeon_cli.Base.Outcome.{ok, err}
use pigeon_cli.Base.Assoc.{Assoc, lookup, insert}
use pigeon_cli.Dedup.Manifest.{
  after_zip_separator, extension_of, DeduplicateTask, DeduplicatePlan, Place, load_checkpoint,
  holds, Listing, empty_plan, gather_pending,
}
use pigeon_cli.Dedup.Manifest.Checkpoint.{
  IsPlace, append_all, read_of, places_of, load_checkpoint-append_all,
}
use pigeon_cli.Dedup.Manifest.Pending.{
  place_of_task, counted, pending_all, gather_pending-pending_all, gather_pending-append_all,
}
use pigeon_cli.Dedup.Place.{
  HashedFile, MergeRecord, is_undated_key, sort_files, Answers, Store, without, is_used, entry_at,
  place_one, place_and_report,
}
use pigeon_cli.Dedup.Place.Keys.{Location}
use pigeon_cli.Dedup.Worker.{
  QueueItem, ExtractedMember, Disk, ItemAnswers, is_zip_key, member_item, process_item, Results,
  no_results, Effect, effects, apply_effect, item_of_task, expanded, add_members, add_finished,
  add_hashed,
}
use pigeon_cli.Dedup.Worker.Pool.{
  Worker, Handled, Pool, processed, initial, Reaches, at_queue, holding, working, finishing,
  saw_nothing, gone, pop_front, find_nothing, leave, fetch_add, process, settle, fetch_sub, here,
  there,
}
use pigeon_cli.Dedup.Worker.Finish.{retain, to_checkpoint, summary_of}
use pigeon_cli.Dedup.Archive.{extraction_ratio_limit, ZipFile, expand_to_dir, chunk}
use pigeon_cli.Data.ContentIndex.{check}
use pigeon_cli.Dedup.Place.Counts.{Settled, Among, key_of, place_and_report-counts}
use pigeon_cli.Dedup.Place.Named.{all_well, place_one_well}
use pigeon_cli.Dedup.Worker.Pool.Settled.{
  count, label_of_task, label_of, all_offspring, files_of, Reaches-all_gone,
}
use pigeon_cli.Dedup.Worker.Pool.Family.{Label}
use pigeon_cli.Dedup.Worker.Finish.Tainted.{has_failed, retain-IsClean, task_itself, member}
use pigeon_cli.Dedup.Worker.Finish.Totals.{set_aside_by, queued_by, summary_of-totals}
use pigeon_cli.Dedup.Archive.Capped.{sizes, wanted, entries_of, expand_to_dir-capped}
use mathlib.Core.List.{Memᴰ}
use pigeon_cli.Base.Assoc

after_zip_separator_run :
    after_zip_separator (codes "a.zip!nested.zip!photos/img.jpg") ≡ codes "photos/img.jpg"
unfolding after_zip_separator
after_zip_separator_run = refl

extension_of_run :
    (extension_of (codes "outer.zip!README") ≡ codes "(none)")
    × (extension_of (codes "outer.zip!photos/img.JPG") ≡ codes "jpg")
    × (extension_of (codes ".DS_Store") ≡ codes "(none)")
unfolding extension_of
extension_of_run = (refl, refl, refl)

is_undated_key_run :
    (is_undated_key (codes "x/0000-00-00-scan.pdf") ≡ true)
    × (is_undated_key (codes "x/2020-01-02-scan.pdf") ≡ false)
unfolding is_undated_key
is_undated_key_run = (refl, refl)

abbrev places : List Place
places = (codes "b", codes "x/a.jpg") ∷ (codes "c", codes "y z") ∷ []

places-IsPlace : All IsPlace places
places-IsPlace = (
  record { no_tab = refl; alias_line = refl; key_line = refl; no_cr = refl },
  (record { no_tab = refl; alias_line = refl; key_line = refl; no_cr = refl }, tt),
)

-- A line of before the aliases.
abbrev old_file : Option (List ℕ)
old_file = some (codes "old\n")

load_checkpoint-append_all_example :
    load_checkpoint (read_of (append_all places old_file)) ≡ ok (places_of old_file ++ places)
load_checkpoint-append_all_example = load_checkpoint-append_all places old_file refl places-IsPlace

abbrev listings : List Listing
listings =
    (
      codes "b",
      ok (
          record { path = codes "old"; size = 1 }
          ∷ record { path = codes "x/a.jpg"; size = 2 }
          ∷ []),
    )
    ∷ (codes "c", ok (record { path = codes "y z"; size = 3 } ∷ []))
    ∷ []

abbrev plan : DeduplicatePlan
plan = record {
  tasks =
      record { bucket_alias = codes "b"; key = codes "x/a.jpg"; size = 2 }
      ∷ record { bucket_alias = codes "c"; key = codes "y z"; size = 3 }
      ∷ [];
  type_summary =
      record { extension = codes "(none)"; count = 1; total_bytes = 3 }
      ∷ record { extension = codes "jpg"; count = 1; total_bytes = 2 }
      ∷ [];
}

plan_run : gather_pending listings (read_of old_file) ≡ ok plan
unfolding gather_pending
plan_run = refl

gather_pending-pending_all_example :
    (plan.tasks ≡ pending_all (places_of old_file) listings)
    × (counted plan.type_summary ≡ length plan.tasks)
gather_pending-pending_all_example = gather_pending-pending_all listings old_file plan plan_run

gather_pending-append_all_example :
    gather_pending listings (read_of (append_all (map place_of_task plan.tasks) old_file))
    ≡ ok empty_plan
gather_pending-append_all_example =
    gather_pending-append_all listings old_file plan plan_run refl places-IsPlace

abbrev file : String → String → HashedFile
file key hash = record {
  original_key = codes key;
  bucket_alias = codes "b";
  scratch_path = codes key;
  extension = codes "pdf";
  content_hash = codes hash;
}

abbrev files : List HashedFile
files = file "0000-00-00-a.pdf" "h" ∷ file "z/a.pdf" "h" ∷ file "y/a.pdf" "k" ∷ []

abbrev fine : HashedFile → Answers
fine f = record { made = true; moved = true; row = whole }

abbrev bare : Store
bare = record { results = []; scratch = []; index = record { file = none; entries = [] } }

-- The dated copy is kept, and the other file of its name gets a number.
place_and_report_run :
    ((place_and_report fine files bare).store.results
      ≡ (codes "pdf", codes "a-2.pdf") ∷ (codes "pdf", codes "a.pdf") ∷ [])
    × ((place_and_report fine files bare).finished_keys
        ≡ (codes "b", codes "y/a.pdf")
          ∷ (codes "b", codes "z/a.pdf")
          ∷ (codes "b", codes "0000-00-00-a.pdf")
          ∷ [])
unfolding place_and_report Assoc.lookup Assoc.insert
place_and_report_run = (refl, refl)

place_and_report-counts_example :
    let p = place_and_report fine files bare in
    (p.summary.placed + p.summary.duplicates_skipped + p.summary.failed ≡ length files)
    × (length p.records ≡ p.summary.duplicates_skipped)
    × (length p.finished_keys ≡ p.summary.placed + p.summary.duplicates_skipped)
    × ((kept : List HashedFile) × Among kept (sort_files files)
        × (p.finished_keys ≡ map key_of kept)
        × All (Settled p.store.index) kept)
place_and_report-counts_example = place_and_report-counts fine files bare

-- Of two copies of one content the one without a date is dropped.
abbrev dated_copy : Location
dated_copy = record { archive = none; folder = some (codes "z"); name = codes "a.pdf" }

abbrev undated_copy : Location
undated_copy = record { archive = none; folder = none; name = codes "0000-00-00-a.pdf" }

abbrev merged : MergeRecord
merged = record {
  duplicate_key = codes "0000-00-00-a.pdf";
  duplicate_bucket_alias = codes "b";
  kept_path = codes "pdf/a.pdf";
  kept_original_key = codes "z/a.pdf";
  kept_bucket_alias = codes "b";
  content_hash = codes "h";
}

abbrev copies : List HashedFile
copies = file "0000-00-00-a.pdf" "h" ∷ file "z/a.pdf" "h" ∷ []

-- One archive of one member, and one worker with another file.
abbrev buckets : List (List ℕ)
buckets = codes "b" ∷ []

abbrev empty_disk : Disk
empty_disk = record { counter = 0; files = [] }

abbrev extracted : ExtractedMember
extracted = record { name = codes "m.txt"; path = codes "1.txt"; size = 4 }

abbrev answers : ItemAnswers
answers = record {
  has_space = true;
  made_folder = true;
  pulled = true;
  has_space_to_expand = true;
  expansion = expanded (extracted ∷ []) 0;
  disk_expanded = record { counter = 2; files = codes "1.txt" ∷ codes "000000000000.zip" ∷ [] };
  digest = some (codes "h");
}

process_item_run :
    (process_item buckets answers
      (item_of_task (record { bucket_alias = codes "b"; key = codes "a.zip"; size = 9 }))
      empty_disk).1
    ≡ record { counter = 2; files = codes "1.txt" ∷ [] }
unfolding process_item without
process_item_run = refl

-- One archive is expanded and its member is hashed by one worker.
abbrev task : DeduplicateTask
task = record { bucket_alias = codes "b"; key = codes "a.zip"; size = 9 }

abbrev archive : QueueItem
archive = item_of_task task

abbrev inner : QueueItem
inner = member_item archive extracted

abbrev expanded_one : Handled
expanded_one = processed buckets answers archive empty_disk

abbrev hashed_one : Handled
hashed_one = processed buckets answers inner empty_disk

abbrev at : List QueueItem → ℕ → Results → Worker → List Handled → Pool
at queue in_flight r w handled = record {
  queue = queue;
  in_flight = in_flight;
  results = r;
  workers = w ∷ [];
  handled = handled;
}

abbrev found_archive : Results
found_archive = record no_results { finished_root_keys = (codes "b", codes "a.zip") ∷ [] }

abbrev member_file : HashedFile
member_file = record {
  original_key = codes "a.zip!m.txt";
  bucket_alias = codes "b";
  scratch_path = codes "1.txt";
  extension = codes "txt";
  content_hash = codes "h";
}

abbrev found_both : Results
found_both = record found_archive { hashed_files = member_file ∷ [] }

abbrev finish_archive : Effect
finish_archive = add_finished (codes "b", codes "a.zip")

abbrev left_all : Pool
left_all = at [] 0 found_both gone (hashed_one ∷ expanded_one ∷ [])

after_archive :
    Reaches buckets
      (initial 1 (task ∷ []))
      (at (inner ∷ []) 0 found_archive at_queue (expanded_one ∷ []))
unfolding processed effects apply_effect
after_archive =
    let start = initial 1 (task ∷ []) in
    let p1 = at [] 0 no_results (holding archive) [] in
    let p2 = at [] 1 no_results (working archive) [] in
    let p3 =
      at [] 1 no_results (finishing (add_members (inner ∷ []) ∷ finish_archive ∷ []))
        (expanded_one ∷ []) in
    let p4 = at (inner ∷ []) 1 no_results (finishing (finish_archive ∷ [])) (expanded_one ∷ []) in
    let p5 = at (inner ∷ []) 1 found_archive (finishing []) (expanded_one ∷ []) in
    there p5 _
      (there p4 p5
        (there p3 p4
          (there p2 p3
            (there p1 p2 (there start p1 here (pop_front start [] [] archive [] refl refl))
              (fetch_add p1 [] [] archive refl))
            (process p2 [] [] archive answers empty_disk refl))
          (settle p3 [] [] (add_members (inner ∷ [])) (finish_archive ∷ []) refl))
        (settle p4 [] [] finish_archive [] refl))
      (fetch_sub p5 [] [] refl)

reached : Reaches buckets (initial 1 (task ∷ [])) left_all
unfolding processed effects apply_effect
reached =
    let both = hashed_one ∷ expanded_one ∷ [] in
    let p1 = at (inner ∷ []) 0 found_archive at_queue (expanded_one ∷ []) in
    let p2 = at [] 0 found_archive (holding inner) (expanded_one ∷ []) in
    let p3 = at [] 1 found_archive (working inner) (expanded_one ∷ []) in
    let p4 = at [] 1 found_archive (finishing (add_hashed member_file ∷ [])) both in
    let p5 = at [] 1 found_both (finishing []) both in
    let p6 = at [] 0 found_both at_queue both in
    let p7 = at [] 0 found_both saw_nothing both in
    there p7 left_all
      (there p6 p7
        (there p5 p6
          (there p4 p5
            (there p3 p4
              (there p2 p3 (there p1 p2 after_archive (pop_front p1 [] [] inner [] refl refl))
                (fetch_add p2 [] [] inner refl))
              (process p3 [] [] inner answers empty_disk refl))
            (settle p4 [] [] (add_hashed member_file) [] refl))
          (fetch_sub p5 [] [] refl))
        (find_nothing p6 [] [] refl refl))
      (leave p7 [] [] refl refl)

Reaches-all_gone_example :
    (left_all.queue ≡ [])
    × (left_all.in_flight ≡ 0)
    × ((test : Label → Bool)
        → count test (map label_of left_all.handled)
          ≡ count test (map label_of_task (task ∷ []))
            + count test (all_offspring left_all.handled))
    × ((test : HashedFile → Bool)
        → count test left_all.results.hashed_files ≡ count test (files_of left_all.handled))
Reaches-all_gone_example = Reaches-all_gone 1 (task ∷ []) left_all reached refl

-- The member stems from the archive, which is checkpointed.
retain-IsClean_example :
    (has_failed hashed_one.outcome ≡ false)
    × ((is_zip_key (codes "a.zip") ≡ true) ⊎ (holds (codes "b", codes "a.zip") [] ≡ true))
unfolding retain is_zip_key processed
retain-IsClean_example =
    retain-IsClean 1 (task ∷ []) left_all [] (codes "b", codes "a.zip") hashed_one reached refl
      (Memᴰ.head refl) (Memᴰ.head refl)
      (member expanded_one inner (Memᴰ.tail (Memᴰ.head refl)) (task_itself task refl)
        (Memᴰ.head refl))

summary_of-totals_example :
    let summary =
      summary_of left_all.results
        (place_and_report fine left_all.results.hashed_files bare).summary in
    (summary.processed + summary.duplicates_skipped + summary.failed + set_aside_by left_all.handled
      ≡ length (task ∷ []) + queued_by left_all.handled + summary.dropped_members)
    × (summary.failed
        ≡ summary.failure_breakdown.download + summary.failure_breakdown.archive
          + summary.failure_breakdown.hash + summary.failure_breakdown.placement)
summary_of-totals_example = summary_of-totals 1 (task ∷ []) left_all fine bare reached refl

-- A member of an archive cannot be moved to its place, and the archive is checkpointed all the same.
abbrev lost : Results
lost = record no_results {
  hashed_files = file "a.zip!m.pdf" "h" ∷ [];
  finished_root_keys = (codes "b", codes "a.zip") ∷ [];
}

abbrev stuck : HashedFile → Answers
stuck f = record { made = true; moved = false; row = whole }

lost_member_run :
    ((place_and_report stuck lost.hashed_files bare).summary.failed ≡ 1)
    × (to_checkpoint lost (place_and_report stuck lost.hashed_files bare).finished_keys
        ≡ (codes "b", codes "a.zip") ∷ [])
unfolding place_and_report to_checkpoint Assoc.lookup
lost_member_run = (refl, refl)

-- A small archive of two members, of which the second is too large, and one that is skipped.
abbrev bomb : ZipFile
bomb = record {
  made_folder = true;
  opened = true;
  compressed_size = 1;
  entries = some (
      some (record {
        name = codes "a.txt";
        is_dir = false;
        created = true;
        chunks = chunk 60 true ∷ [];
      })
      ∷ some (record {
        name = codes "__MACOSX/a";
        is_dir = false;
        created = true;
        chunks = chunk 9 true ∷ [];
      })
      ∷ some (record {
        name = codes "x/.git/a";
        is_dir = false;
        created = true;
        chunks = chunk 9 true ∷ [];
      })
      ∷ some (record {
        name = codes "b.txt";
        is_dir = false;
        created = true;
        chunks = chunk 40 true ∷ chunk 1 true ∷ [];
      })
      ∷ []);
}

bomb_run :
    ((expand_to_dir bomb empty_disk).1.members
      ≡ record { name = codes "a.txt"; path = codes "000000000000.member"; size = 60 } ∷ [])
    × ((expand_to_dir bomb empty_disk).1.dropped ≡ 1)
unfolding expand_to_dir
bomb_run = (refl, refl)

expand_to_dir-capped_example :
    (sizes (expand_to_dir bomb empty_disk).1.members ≤ 1 * extraction_ratio_limit)
    × (((expand_to_dir bomb empty_disk).0 ≡ err tt)
        ⊎ (length (expand_to_dir bomb empty_disk).1.members
              + (expand_to_dir bomb empty_disk).1.dropped
            ≡ length (wanted (entries_of bomb))))
expand_to_dir-capped_example = expand_to_dir-capped bomb empty_disk

place_one_well_example :
    (name : List ℕ) × (is_used bare.results (codes "pdf") name ≡ false)
    × ((place_one all_well (file "z/a.pdf" "h") bare).0 ≡ ok tt)
    × ((place_one all_well (file "z/a.pdf" "h") bare).1.results
        ≡ (codes "pdf", name) ∷ bare.results)
    × ((place_one all_well (file "z/a.pdf" "h") bare).1.scratch
        ≡ without (codes "z/a.pdf") bare.scratch)
    × (check (codes "h") (place_one all_well (file "z/a.pdf" "h") bare).1.index
        ≡ some (entry_at (file "z/a.pdf" "h") name))
place_one_well_example = place_one_well (file "z/a.pdf" "h") bare (omega arith)
