-- ===== src/Dedup/Worker/Pool/Leaving.antt =====
-- No worker leaves too early: what holds in every state that they reach.
use pigeon_cli.Base.{
  ℕ, zero, suc, ◌+◌, ◌≤◌, max, ◌≡◌, refl, sym, ap, ◌∙◌, Bool, true, false, ◌||◌, List, [], ◌∷◌, map,
  arith,
}
use pigeon_cli.Base.Lists.{any, all, All}
use pigeon_cli.Dedup.Manifest.{DeduplicateTask}
use pigeon_cli.Dedup.Worker.{
  QueueItem, ItemOutcome, Effect, effects, queued, members_of, item_of_task, zip_expanded, hashed,
  skipped_apple_double, archive_open_failed, failed_in,
}
use pigeon_cli.Dedup.Worker.Pool.{
  Worker, Handled, Pool, processed, effects_of, repeat, initial, Step, Reaches, at_queue, holding,
  working, finishing, saw_nothing, gone, pop_front, find_nothing, leave, sleep, fetch_add, process,
  settle, fetch_sub, here, there,
}
use pigeon_cli.Dedup.Worker.Pool.Sums.{
  sum_of, sum_of-append, owed, sum_of-change, any-change, any-same, repeat-none,
}
use pigeon_cli.Dedup.Worker.Pool.Family.{label, offspring, processed-offspring}

-- A worker that will look at the queue again, whatever happens.
abbrev pub is_busy : Worker → Bool
is_busy saw_nothing = false
is_busy gone = false
is_busy _ = true

abbrev pub is_gone : Worker → Bool
is_gone gone = true
is_gone _ = false

abbrev pub in_work : Worker → ℕ
in_work (working item) = 1
in_work (finishing es) = 1
in_work _ = 0

-- What the members that an effect puts on the queue count.
abbrev pub members_in : (QueueItem → ℕ) → Effect → ℕ
members_in f e = sum_of f (queued e)

abbrev pub is_nil {ℓ} : {A : Type ℓ} → List A → Bool
is_nil [] = true
is_nil (x ∷ xs) = false

-- What holds in every state that the workers reach, where `f` counts items and `tasks` is what it counts
-- on the first queue.
pub record IsSafe (f : QueueItem → ℕ) (tasks : ℕ) (p : Pool) : Type 0 where
  pub watched : (is_nil p.queue || any is_busy p.workers) ≡ true
  pub counted : p.in_flight ≡ sum_of in_work p.workers
  pub kept :
      sum_of (λ (h : Handled). f h.item) p.handled
        + sum_of f p.queue
        + sum_of (owed f (members_in f)) p.workers
      ≡ tasks + sum_of (λ (h : Handled). sum_of f (members_of h.outcome)) p.handled
  pub born : All (λ (h : Handled). map label (members_of h.outcome) ≡ offspring h) p.handled

or_true : (b : Bool) → (b || true) ≡ true
or_true true = refl
or_true false = refl

effects-members :
    (f : QueueItem → ℕ) (a k : List ℕ) (o : ItemOutcome)
    → sum_of (members_in f) (effects a k o) ≡ sum_of f (members_of o)
unfolding effects
effects-members f a k (zip_expanded key depth members dropped) = ground arith
effects-members f a k (hashed depth file) = ground arith
effects-members f a k (skipped_apple_double depth) = ground arith
effects-members f a k (archive_open_failed key error) = refl
effects-members f a k (failed_in category) = refl

module _ {buckets : List (List ℕ)} (f : QueueItem → ℕ) (tasks : ℕ) where
  Step-IsSafe : {p q : Pool} → Step buckets p q → IsSafe f tasks p → IsSafe f tasks q
  Step-IsSafe (pop_front p before after item rest w e) h =
      let flight = sum_of-change before after at_queue (holding item) in_work in
      let hold = sum_of-change before after at_queue (holding item) (owed f (members_in f)) in
      record {
        watched =
            rw (any-change before after at_queue (holding item) is_busy refl)
              (or_true (is_nil rest));
        counted = ground (arith, h.counted, flight, w);
        kept = ground (arith, h.kept, hold, w, e);
        born = h.born;
      }
  Step-IsSafe (find_nothing p before after w e) h =
      let flight = sum_of-change before after at_queue saw_nothing in_work in
      let hold = sum_of-change before after at_queue saw_nothing (owed f (members_in f)) in
      record {
        watched = rw e refl;
        counted = ground (arith, h.counted, flight, w);
        kept = ground (arith, h.kept, hold, w);
        born = h.born;
      }
  Step-IsSafe (leave p before after w e) h =
      let flight = sum_of-change before after saw_nothing gone in_work in
      let hold = sum_of-change before after saw_nothing gone (owed f (members_in f)) in
      record {
        watched = rw (any-same before after saw_nothing gone is_busy refl, sym w) h.watched;
        counted = ground (arith, h.counted, flight, w);
        kept = ground (arith, h.kept, hold, w);
        born = h.born;
      }
  Step-IsSafe (sleep p before after w e) h =
      let flight = sum_of-change before after saw_nothing at_queue in_work in
      let hold = sum_of-change before after saw_nothing at_queue (owed f (members_in f)) in
      record {
        watched =
            rw (any-change before after saw_nothing at_queue is_busy refl)
              (or_true (is_nil p.queue));
        counted = ground (arith, h.counted, flight, w);
        kept = ground (arith, h.kept, hold, w);
        born = h.born;
      }
  Step-IsSafe (fetch_add p before after item w) h =
      let flight = sum_of-change before after (holding item) (working item) in_work in
      let hold = sum_of-change before after (holding item) (working item) (owed f (members_in f)) in
      record {
        watched =
            rw (any-change before after (holding item) (working item) is_busy refl)
              (or_true (is_nil p.queue));
        counted = ground (arith, h.counted, flight, w);
        kept = ground (arith, h.kept, hold, w);
        born = h.born;
      }
  Step-IsSafe (process p before after item a disk w) h =
      let g : Handled = processed buckets a item disk in
      let es = effects_of g in
      let flight = sum_of-change before after (working item) (finishing es) in_work in
      let hold = sum_of-change before after (working item) (finishing es) (owed f (members_in f)) in
      let given_ = effects-members f g.item.bucket_alias g.item.root_key g.outcome in
      record {
        watched =
            rw (any-change before after (working item) (finishing es) is_busy refl)
              (or_true (is_nil p.queue));
        counted = ground (arith, h.counted, flight, w);
        kept = unfold processed in ground (arith, h.kept, hold, w, given_);
        born = (processed-offspring buckets a item disk, h.born);
      }
  Step-IsSafe (settle p before after e es w) h =
      let flight = sum_of-change before after (finishing (e ∷ es)) (finishing es) in_work in
      let hold =
        sum_of-change before after (finishing (e ∷ es)) (finishing es) (owed f (members_in f)) in
      record {
        watched =
            rw (any-change before after (finishing (e ∷ es)) (finishing es) is_busy refl)
              (or_true _);
        counted = ground (arith, h.counted, flight, w);
        kept = ground (arith, h.kept, hold, w, sum_of-append f p.queue (queued e));
        born = h.born;
      }
  Step-IsSafe (fetch_sub p before after w) h =
      let flight = sum_of-change before after (finishing []) at_queue in_work in
      let hold = sum_of-change before after (finishing []) at_queue (owed f (members_in f)) in
      record {
        watched =
            rw (any-change before after (finishing []) at_queue is_busy refl)
              (or_true (is_nil p.queue));
        counted = ground (arith, h.counted, flight, w);
        kept = ground (arith, h.kept, hold, w);
        born = h.born;
      }

repeat-busy : (n : ℕ) → 1 ≤ n → any is_busy (repeat n) ≡ true
repeat-busy zero h = absurd (omega arith)
repeat-busy (suc n) h = refl

pub initial-IsSafe :
    (f : QueueItem → ℕ) (concurrency : ℕ) (tasks : List DeduplicateTask)
    → IsSafe f (sum_of f (map item_of_task tasks)) (initial concurrency tasks)
initial-IsSafe f concurrency tasks = record {
  watched = rw (repeat-busy (max concurrency 1) (omega arith)) (or_true _);
  counted = sym (repeat-none in_work (max concurrency 1) refl);
  kept = ground (arith, repeat-none (owed f (members_in f)) (max concurrency 1) refl);
  born = tt;
}

pub Reaches-IsSafe :
    {buckets : List (List ℕ)} {start p : Pool} (f : QueueItem → ℕ) (tasks : ℕ)
    → IsSafe f tasks start
    → Reaches buckets start p
    → IsSafe f tasks p
Reaches-IsSafe f tasks safe here = safe
Reaches-IsSafe f tasks safe (there p q r s) = Step-IsSafe f tasks s (Reaches-IsSafe f tasks safe r)

is_gone→gone : (w : Worker) → is_gone w ≡ true → w ≡ gone
is_gone→gone gone h = refl
is_gone→gone at_queue h = cc
is_gone→gone (holding item) h = cc
is_gone→gone (working item) h = cc
is_gone→gone (finishing es) h = cc
is_gone→gone saw_nothing h = cc

all_gone :
    (w : Worker) (ws : List Worker)
    → all is_gone (w ∷ ws) ≡ true
    → (w ≡ gone) × (all is_gone ws ≡ true)
all_gone w ws h = (is_gone→gone w (ground arith), ground arith)

pub gone-any :
    (f : Worker → Bool) (ws : List Worker)
    → f gone ≡ false
    → all is_gone ws ≡ true
    → any f ws ≡ false
gone-any f [] z h = refl
gone-any f (w ∷ ws) z h = let (left, rest) = all_gone w ws h in rw (left, z) (gone-any f ws z rest)

pub gone_none :
    (f : Worker → ℕ) (ws : List Worker) → f gone ≡ 0 → all is_gone ws ≡ true → sum_of f ws ≡ 0
gone_none f [] z h = refl
gone_none f (w ∷ ws) z h =
    let (left, rest) = all_gone w ws h in rw (left, z, gone_none f ws z rest) refl

-- When all workers have left, everything that was queued was handled, by any measure of items.
pub all_handled :
    {buckets : List (List ℕ)} (f : QueueItem → ℕ) (concurrency : ℕ) (tasks : List DeduplicateTask)
    (p : Pool)
    → Reaches buckets (initial concurrency tasks) p
    → all is_gone p.workers ≡ true
    → (p.queue ≡ [])
      × (p.in_flight ≡ 0)
      × (sum_of (λ (h : Handled). f h.item) p.handled
          ≡ sum_of f (map item_of_task tasks)
            + sum_of (λ (h : Handled). sum_of f (members_of h.outcome)) p.handled)
all_handled f concurrency tasks p r left =
    let safe =
      Reaches-IsSafe f (sum_of f (map item_of_task tasks)) (initial-IsSafe f concurrency tasks) r in
    let empty : p.queue ≡ [] =
      nothing_queued p.queue (rw (gone-any is_busy p.workers refl left) at safe.watched) in
    (
      empty,
      safe.counted ∙ gone_none in_work p.workers refl left,
      ground (
        arith,
        safe.kept,
        gone_none (owed f (members_in f)) p.workers refl left,
        ap (sum_of f) empty,
      ),
    )
  where
    nothing_queued : (queue : List QueueItem) → (is_nil queue || false) ≡ true → queue ≡ []
    nothing_queued [] h = refl
    nothing_queued (x ∷ xs) h = cc
