-- ===== src/Dedup/Worker/Pool.antt =====
-- The loop of the workers, step by step. What the disk and `rclone` give to an item is an answer, and
-- the disk that the item finds is whatever the other workers have left at that time.
pub mod Sums
pub mod Family
pub mod Leaving
pub mod Noted
pub mod Settled
use pigeon_cli.Base.{ℕ, zero, suc, ◌+◌, ◌-◌, max, ◌≡◌, ◌≢◌, List, [], ◌∷◌, ◌++◌, map}
use pigeon_cli.Dedup.Manifest.{DeduplicateTask}
use pigeon_cli.Dedup.Worker.{
  QueueItem, ItemOutcome, Disk, ItemAnswers, process_item, Results, no_results, Effect, effects,
  apply_effect, queued, item_of_task,
}

-- Where a worker is in its loop: in front of `pop_front`, with an item that is not yet counted in
-- `in_flight`, with one that is, with what is still to be done for an outcome, behind a look at an empty
-- queue, or out.
pub data Worker : Type 0 where
  at_queue : Worker
  holding : QueueItem → Worker
  working : QueueItem → Worker
  finishing : List Effect → Worker
  saw_nothing : Worker
  gone : Worker

-- An item that was processed, the answers that it got, and its outcome.
pub record Handled : Type 0 where
  pub item : QueueItem
  pub answers : ItemAnswers
  pub outcome : ItemOutcome

-- What the workers share; `handled` is not in the program: it keeps the outcomes, the latest in front.
pub record Pool : Type 0 where
  pub queue : List QueueItem
  pub in_flight : ℕ
  pub results : Results
  pub workers : List Worker
  pub handled : List Handled

unfoldable pub processed : List (List ℕ) → ItemAnswers → QueueItem → Disk → Handled
unfolding process_item
processed buckets a item disk = record {
  item = item;
  answers = a;
  outcome = (process_item buckets a item disk).0;
}

abbrev pub effects_of : Handled → List Effect
effects_of h = effects h.item.bucket_alias h.item.root_key h.outcome

abbrev pub repeat : ℕ → List Worker
repeat zero = []
repeat (suc n) = at_queue ∷ repeat n

-- `concurrency.max(1)` workers in front of a queue of all tasks.
abbrev pub initial : ℕ → List DeduplicateTask → Pool
initial concurrency tasks = record {
  queue = map item_of_task tasks;
  in_flight = 0;
  results = no_results;
  workers = repeat (max concurrency 1);
  handled = [];
}

module _ (buckets : List (List ℕ)) where
  -- One step of one worker, with the others before and after it.
  pub data Step : Pool → Pool → Type 0 where
    pop_front :
        (p : Pool) (before after : List Worker) (item : QueueItem) (rest : List QueueItem)
        → p.workers ≡ before ++ (at_queue ∷ after)
        → p.queue ≡ item ∷ rest
        → Step p (record p { queue = rest; workers = before ++ (holding item ∷ after) })
    find_nothing :
        (p : Pool) (before after : List Worker)
        → p.workers ≡ before ++ (at_queue ∷ after)
        → p.queue ≡ []
        → Step p (record p { workers = before ++ (saw_nothing ∷ after) })
    leave :
        (p : Pool) (before after : List Worker)
        → p.workers ≡ before ++ (saw_nothing ∷ after)
        → p.in_flight ≡ 0
        → Step p (record p { workers = before ++ (gone ∷ after) })
    sleep :
        (p : Pool) (before after : List Worker)
        → p.workers ≡ before ++ (saw_nothing ∷ after)
        → p.in_flight ≢ 0
        → Step p (record p { workers = before ++ (at_queue ∷ after) })
    fetch_add :
        (p : Pool) (before after : List Worker) (item : QueueItem)
        → p.workers ≡ before ++ (holding item ∷ after)
        → Step p
            (record p { in_flight = p.in_flight + 1; workers = before ++ (working item ∷ after) })
    process :
        (p : Pool) (before after : List Worker) (item : QueueItem) (a : ItemAnswers) (disk : Disk)
        → p.workers ≡ before ++ (working item ∷ after)
        → Step p (record p {
          workers = before ++ (finishing (effects_of (processed buckets a item disk)) ∷ after);
          handled = processed buckets a item disk ∷ p.handled;
        })
    settle :
        (p : Pool) (before after : List Worker) (e : Effect) (es : List Effect)
        → p.workers ≡ before ++ (finishing (e ∷ es) ∷ after)
        → Step p (record p {
          queue = p.queue ++ queued e;
          results = apply_effect e p.results;
          workers = before ++ (finishing es ∷ after);
        })
    fetch_sub :
        (p : Pool) (before after : List Worker)
        → p.workers ≡ before ++ (finishing [] ∷ after)
        → Step p (record p { in_flight = p.in_flight - 1; workers = before ++ (at_queue ∷ after) })

  pub data Reaches (start : Pool) : Pool → Type 0 where
    here : Reaches start start
    there : (p q : Pool) → Reaches start p → Step p q → Reaches start q
