-- ===== src/Dedup/Worker/Finish/Tainted.antt =====
-- No root is checkpointed of which an item failed.
use pigeon_cli.Base.{
  ℕ, ◌≡◌, refl, sym, subst, ◌∙◌, ◌⊎◌, inl, inr, Bool, true, false, not, ◌&&◌, ◌||◌, List, [], ◌∷◌,
  ◌++◌, map, arith,
}
use pigeon_cli.Base.Tests.{ltb, Bool-cases}
use pigeon_cli.Base.Lists.{any, all, All, All-Memᴰ}
use pigeon_cli.Base.Ascii.{bytes_eq→eq}
use pigeon_cli.Dedup.Manifest.{DeduplicateTask, Place, same_place, holds}
use pigeon_cli.Dedup.Worker.{
  QueueItem, ItemOutcome, ExtractedMember, Expansion, Disk, ItemAnswers, is_zip_key, member_item,
  expand_outcome, Results, Effect, effects, taint, apply_effect, members_of, item_of_task,
  zip_expanded, hashed, skipped_apple_double, archive_open_failed, failed_in, expanded,
  not_opened_for, panicked, add_members, add_finished, add_failures, add_dropped, add_tainted,
  add_hashed, add_skipped, add_archive_failure,
}
use pigeon_cli.Dedup.Worker.Pool.{
  Worker, Handled, Pool, processed, effects_of, initial, Step, Reaches, at_queue, holding, working,
  finishing, saw_nothing, gone, pop_front, find_nothing, leave, sleep, fetch_add, process, settle,
  fetch_sub, here, there,
}
use pigeon_cli.Dedup.Worker.Pool.Sums.{any-append, any-change, any-same}
use pigeon_cli.Dedup.Worker.Pool.Leaving.{is_gone, gone-any}
use pigeon_cli.Dedup.Worker.Pool.Family.{process_item-P}
use pigeon_cli.Dedup.Worker.Finish.{is_finished, retain}
use pigeon_cli.Dedup.Manifest.Pending.{same_place_refl}
use mathlib.Core.List.{Memᴰ}
use mathlib.Core.List.Memᴰ

abbrev pub has_failed : ItemOutcome → Bool
has_failed (zip_expanded display_key depth members dropped) = ltb 0 dropped
has_failed (hashed depth file) = false
has_failed (skipped_apple_double depth) = false
has_failed (archive_open_failed key error) = true
has_failed (failed_in category) = true

abbrev pub root_of : QueueItem → Place
root_of item = (item.bucket_alias, item.root_key)

same_place→eq : (p q : Place) → same_place p q ≡ true → p ≡ q
same_place→eq (a, k) (b, j) h =
    rw (bytes_eq→eq a b (ground arith), bytes_eq→eq k j (ground arith)) refl

taint-root : (root : Place) (r : Results) → holds root (taint root r).tainted_roots ≡ true
taint-root root r = elim (Bool-cases (holds root r.tainted_roots)) [
  | inl old ↦ rw old old
  | inr fresh ↦ rw (fresh, same_place_refl root) refl
]

taint-other :
    (root other : Place) (r : Results)
    → holds other r.tainted_roots ≡ true
    → holds other (taint root r).tainted_roots ≡ true
taint-other root other r h = elim (Bool-cases (holds root r.tainted_roots)) [
  | inl old ↦ rw old h
  | inr fresh ↦ rw fresh (ground arith)
]

-- The effects that taint a root, as far as a worker still has them.
abbrev taints : Place → Effect → Bool
taints root (add_tainted other) = same_place root other
taints root _ = false

abbrev owes : Place → Worker → Bool
owes root (finishing es) = any (taints root) es
owes root _ = false

-- A root that is tainted, or that a worker is about to taint.
abbrev is_marked : Place → Pool → Bool
is_marked root p = holds root p.results.tainted_roots || any (owes root) p.workers

apply_effect-keeps :
    (root : Place) (e : Effect) (r : Results)
    → holds root r.tainted_roots ≡ true
    → holds root (apply_effect e r).tainted_roots ≡ true
unfolding apply_effect
apply_effect-keeps root (add_tainted other) r h = taint-other other root r h
apply_effect-keeps root (add_members members) r h = h
apply_effect-keeps root (add_finished other) r h = h
apply_effect-keeps root (add_failures category n) r h = h
apply_effect-keeps root (add_dropped n) r h = h
apply_effect-keeps root (add_hashed file) r h = h
apply_effect-keeps root (add_skipped other) r h = h
apply_effect-keeps root (add_archive_failure failure) r h = h

apply_effect-taints :
    (root : Place) (e : Effect) (r : Results)
    → taints root e ≡ true
    → holds root (apply_effect e r).tainted_roots ≡ true
unfolding apply_effect
apply_effect-taints root (add_tainted other) r h =
    subst (λ (q : Place). holds root (taint q r).tainted_roots ≡ true) (same_place→eq root other h)
      (taint-root root r)
apply_effect-taints root (add_members members) r h = cc
apply_effect-taints root (add_finished other) r h = cc
apply_effect-taints root (add_failures category n) r h = cc
apply_effect-taints root (add_dropped n) r h = cc
apply_effect-taints root (add_hashed file) r h = cc
apply_effect-taints root (add_skipped other) r h = cc
apply_effect-taints root (add_archive_failure failure) r h = cc

-- A worker that still owes a mark, in front of it others.
any-split :
    (f : Worker → Bool) (before after : List Worker) (x : Worker)
    → any f (before ++ (x ∷ after)) ≡ (any f before || (f x || any f after))
any-split f before after x = any-append f before (x ∷ after)

marked_on :
    (root : Place) (e : Effect) (r : Results) (a b c : Bool)
    → (holds root r.tainted_roots || (a || ((taints root e || b) || c))) ≡ true
    → (holds root (apply_effect e r).tainted_roots || (a || (b || c))) ≡ true
marked_on root e r a b c h =
    ground (arith, apply_effect-keeps root e r, apply_effect-taints root e r)

module _ {buckets : List (List ℕ)} (root : Place) where
  Step-marked : {p q : Pool} → Step buckets p q → is_marked root p ≡ true → is_marked root q ≡ true
  Step-marked (pop_front p before after item rest w e) h =
      rw (any-same before after at_queue (holding item) (owes root) refl, sym w) h
  Step-marked (find_nothing p before after w e) h =
      rw (any-same before after at_queue saw_nothing (owes root) refl, sym w) h
  Step-marked (leave p before after w e) h =
      rw (any-same before after saw_nothing gone (owes root) refl, sym w) h
  Step-marked (sleep p before after w e) h =
      rw (any-same before after saw_nothing at_queue (owes root) refl, sym w) h
  Step-marked (fetch_add p before after item w) h =
      rw (any-same before after (holding item) (working item) (owes root) refl, sym w) h
  Step-marked (fetch_sub p before after w) h =
      rw (any-same before after (finishing []) at_queue (owes root) refl, sym w) h
  Step-marked (process p before after item a disk w) h =
      let es = effects_of (processed buckets a item disk) in
      ground (
        arith,
        h,
        w,
        any-split (owes root) before after (working item),
        any-split (owes root) before after (finishing es),
      )
  Step-marked (settle p before after e es w) h =
      rw (any-split (owes root) before after (finishing es)) (
        marked_on root e p.results (any (owes root) before) (any (taints root) es)
          (any (owes root) after)
          (rw (w, any-split (owes root) before after (finishing (e ∷ es))) at h))

effects-taint :
    (a k : List ℕ) (o : ItemOutcome)
    → has_failed o ≡ true
    → any (taints (a, k)) (effects a k o) ≡ true
unfolding effects
effects-taint a k (zip_expanded key depth members dropped) h =
    ground (arith, same_place_refl (a, k))
effects-taint a k (hashed depth file) h = cc
effects-taint a k (skipped_apple_double depth) h = cc
effects-taint a k (archive_open_failed key error) h = rw (same_place_refl (a, k)) refl
effects-taint a k (failed_in category) h = rw (same_place_refl (a, k)) refl

-- A failed item marks its root, and the members of an archive have its root.
abbrev Marks : Pool → Handled → Type 0
Marks p h = has_failed h.outcome ≡ true → is_marked (root_of h.item) p ≡ true

abbrev IsFamily : Handled → Type 0
IsFamily h = All (λ (m : QueueItem). root_of m ≡ root_of h.item) (members_of h.outcome)

abbrev IsMarked : Pool → Type 0
IsMarked p = All (λ (h : Handled). Marks p h × IsFamily h) p.handled

members-IsFamily :
    (item : QueueItem) (ms : List ExtractedMember)
    → All (λ (m : QueueItem). root_of m ≡ root_of item) (map (member_item item) ms)
members-IsFamily item [] = tt
members-IsFamily item (m ∷ ms) = (refl, members-IsFamily item ms)

expansion-IsFamily :
    (item : QueueItem) (x : Expansion)
    → All (λ (m : QueueItem). root_of m ≡ root_of item) (members_of (expand_outcome item x))
expansion-IsFamily item (expanded ms dropped) = members-IsFamily item ms
expansion-IsFamily item (not_opened_for error) = tt
expansion-IsFamily item panicked = tt

processed-IsFamily :
    (buckets : List (List ℕ)) (a : ItemAnswers) (item : QueueItem) (disk : Disk)
    → IsFamily (processed buckets a item disk)
unfolding processed
processed-IsFamily buckets a item disk =
    process_item-P (λ o. All (λ (m : QueueItem). root_of m ≡ root_of item) (members_of o)) a item
      (record {
        skips = tt;
        fails = λ category. tt;
        expands = expansion-IsFamily item a.expansion;
        hashes = λ file. tt;
      })
      buckets disk

Step-later :
    {buckets : List (List ℕ)} {p q : Pool}
    → Step buckets p q
    → (hs : List Handled) → All (λ (h : Handled). Marks p h × IsFamily h) hs
    → All (λ (h : Handled). Marks q h × IsFamily h) hs
Step-later s [] rest = tt
Step-later s (h ∷ hs) ((marks, family), rest) =
    (((λ lost. Step-marked (root_of h.item) s (marks lost)), family), Step-later s hs rest)

processed-marks :
    (buckets : List (List ℕ)) (p : Pool) (before after : List Worker) (item : QueueItem)
    (a : ItemAnswers) (disk : Disk)
    → has_failed (processed buckets a item disk).outcome ≡ true
    → (holds (root_of (processed buckets a item disk).item) p.results.tainted_roots
        || any
            (owes (root_of (processed buckets a item disk).item))
            (before ++ (finishing (effects_of (processed buckets a item disk)) ∷ after)))
      ≡ true
processed-marks buckets p before after item a disk lost =
    let h : Handled = processed buckets a item disk in
    let owed_ = effects-taint h.item.bucket_alias h.item.root_key h.outcome lost in
    ground (
      arith,
      any-change before after (working item) (finishing (effects_of h)) (owes (root_of h.item))
          owed_,
    )

Step-IsMarked : {buckets : List (List ℕ)} {p q : Pool} → Step buckets p q → IsMarked p → IsMarked q
Step-IsMarked {buckets} (process p before after item a disk w) h = (
  (processed-marks buckets p before after item a disk, processed-IsFamily buckets a item disk),
  Step-later (process p before after item a disk w) p.handled h,
)
Step-IsMarked {buckets} (pop_front p before after item rest w e) h =
    Step-later {buckets = buckets} (pop_front p before after item rest w e) p.handled h
Step-IsMarked {buckets} (find_nothing p before after w e) h =
    Step-later {buckets = buckets} (find_nothing p before after w e) p.handled h
Step-IsMarked {buckets} (leave p before after w e) h =
    Step-later {buckets = buckets} (leave p before after w e) p.handled h
Step-IsMarked {buckets} (sleep p before after w e) h =
    Step-later {buckets = buckets} (sleep p before after w e) p.handled h
Step-IsMarked {buckets} (fetch_add p before after item w) h =
    Step-later {buckets = buckets} (fetch_add p before after item w) p.handled h
Step-IsMarked {buckets} (fetch_sub p before after w) h =
    Step-later {buckets = buckets} (fetch_sub p before after w) p.handled h
Step-IsMarked {buckets} (settle p before after e es w) h =
    Step-later {buckets = buckets} (settle p before after e es w) p.handled h

Reaches-IsMarked :
    {buckets : List (List ℕ)} {start p : Pool}
    → IsMarked start
    → Reaches buckets start p
    → IsMarked p
Reaches-IsMarked h here = h
Reaches-IsMarked h (there p q r s) = Step-IsMarked s (Reaches-IsMarked h r)

-- The items that stem from the task of a key: the task's own, and every member of an archive that stems
-- from it and was handled. No root key is asked of the items.
pub data Descends (hs : List Handled) (root : Place) : QueueItem → Type 0 where
  task_itself :
      (t : DeduplicateTask) → (t.bucket_alias, t.key) ≡ root → Descends hs root (item_of_task t)
  member :
      (h : Handled) (item : QueueItem)
      → Memᴰ h hs
      → Descends hs root h.item
      → Memᴰ item (members_of h.outcome)
      → Descends hs root item

Descends-root :
    (p : Pool) {root : Place} {item : QueueItem}
    → IsMarked p
    → Descends p.handled root item
    → root_of item ≡ root
Descends-root p marked (task_itself t e) = e
Descends-root p marked (member h item m d c) =
    All-Memᴰ (λ (i : QueueItem). root_of i ≡ root_of h.item) c
      (All-Memᴰ (λ (g : Handled). Marks p g × IsFamily g) m marked).1
    ∙ Descends-root p marked d

both_ways : {b : Bool} → b ≡ true → b ≡ false → ⊥
both_ways h k = ground arith

retained_of :
    (tainted placed zipped : Bool)
    → (not tainted && (placed || zipped)) ≡ true
    → (tainted ≡ false) × ((zipped ≡ true) ⊎ (placed ≡ true))
retained_of true placed zipped h = cc
retained_of false true zipped h = (refl, inr refl)
retained_of false false zipped h = (refl, inl h)

retain-finished :
    (tainted placed_keys roots : List Place) {root : Place}
    → Memᴰ root (retain tainted placed_keys roots)
    → is_finished tainted placed_keys root ≡ true
unfolding retain
retain-finished tainted placed_keys [] m = elim m [ ]
retain-finished tainted placed_keys (r ∷ roots) m =
    elim (Bool-cases (is_finished tainted placed_keys r)) [
      | inl kept ↦ elim (Memᴰ.cases_cons (rw kept at m)) [
        | inl e ↦ subst (λ (q : Place). is_finished tainted placed_keys q ≡ true) (sym e) kept
        | inr n ↦ retain-finished tainted placed_keys roots n
      ]
      | inr dropped ↦ retain-finished tainted placed_keys roots (rw dropped at m)
    ]

-- When all workers have left, and whatever is reported as placed: of a root that `retain` keeps, neither
-- the item of its task failed or dropped a member nor any item that stems from it through any number of
-- archives; and its key is that of an archive or among those reported as placed or as duplicates.
pub retain-IsClean :
    {buckets : List (List ℕ)} (concurrency : ℕ) (tasks : List DeduplicateTask) (p : Pool)
    (placed_keys : List Place) (root : Place) (h : Handled)
    → Reaches buckets (initial concurrency tasks) p
    → all is_gone p.workers ≡ true
    → Memᴰ root (retain p.results.tainted_roots placed_keys p.results.finished_root_keys)
    → Memᴰ h p.handled
    → Descends p.handled root h.item
    → (has_failed h.outcome ≡ false)
      × ((is_zip_key root.1 ≡ true) ⊎ (holds root placed_keys ≡ true))
unfolding is_finished
retain-IsClean concurrency tasks p placed_keys root h r left kept m d =
    let marked = Reaches-IsMarked tt r in
    let (clean, why) =
      retained_of (holds root p.results.tainted_roots) (holds root placed_keys) (is_zip_key root.1)
        (retain-finished p.results.tainted_roots placed_keys p.results.finished_root_keys kept) in
    let same = Descends-root p marked d in
    let marks = (All-Memᴰ (λ (g : Handled). Marks p g × IsFamily g) m marked).0 in
    (
      elim (Bool-cases (has_failed h.outcome)) [
        | inr fine ↦ fine
        | inl lost ↦ absurd (
            both_ways (subst (λ (q : Place). is_marked q p ≡ true) same (marks lost))
              (rw (clean, gone-any (owes root) p.workers refl left) refl))
      ],
      why,
    )
