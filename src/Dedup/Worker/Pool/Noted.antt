-- ===== src/Dedup/Worker/Pool/Noted.antt =====
-- What the results count is what the outcomes give, less what the workers still have to do.
use pigeon_cli.Base.{ℕ, ◌+◌, max, ◌≡◌, refl, true, List, [], ◌∷◌, arith}
use pigeon_cli.Base.Lists.{all}
use pigeon_cli.Dedup.Manifest.{DeduplicateTask}
use pigeon_cli.Dedup.Worker.{Results, no_results, Effect, apply_effect}
use pigeon_cli.Dedup.Worker.Pool.{
  Handled, Pool, processed, effects_of, repeat, initial, Step, Reaches, at_queue, holding, working,
  finishing, saw_nothing, gone, pop_front, find_nothing, leave, sleep, fetch_add, process, settle,
  fetch_sub, here, there,
}
use pigeon_cli.Dedup.Worker.Pool.Sums.{sum_of, owed, nothing_held, sum_of-change, repeat-none}
use pigeon_cli.Dedup.Worker.Pool.Leaving.{is_gone, gone_none}

-- A number that each effect raises by its own amount.
pub record Tally : Type 0 where
  pub value : Results → ℕ
  pub gain : Effect → ℕ
  pub starts : value no_results ≡ 0
  pub applies : (e : Effect) (r : Results) → value (apply_effect e r) ≡ value r + gain e

module _ (t : Tally) where
  abbrev gained : Handled → ℕ
  gained h = sum_of t.gain (effects_of h)

  abbrev IsNoted : Pool → Type 0
  IsNoted p =
      t.value p.results + sum_of (owed nothing_held t.gain) p.workers ≡ sum_of gained p.handled

  module _ {buckets : List (List ℕ)} where
    Step-IsNoted : {p q : Pool} → Step buckets p q → IsNoted p → IsNoted q
    Step-IsNoted (pop_front p before after item rest w e) h =
        let hold = sum_of-change before after at_queue (holding item) (owed nothing_held t.gain) in
        ground (arith, h, hold, w)
    Step-IsNoted (find_nothing p before after w e) h =
        let hold = sum_of-change before after at_queue saw_nothing (owed nothing_held t.gain) in
        ground (arith, h, hold, w)
    Step-IsNoted (leave p before after w e) h =
        let hold = sum_of-change before after saw_nothing gone (owed nothing_held t.gain) in
        ground (arith, h, hold, w)
    Step-IsNoted (sleep p before after w e) h =
        let hold = sum_of-change before after saw_nothing at_queue (owed nothing_held t.gain) in
        ground (arith, h, hold, w)
    Step-IsNoted (fetch_add p before after item w) h =
        let hold =
          sum_of-change before after (holding item) (working item) (owed nothing_held t.gain) in
        ground (arith, h, hold, w)
    Step-IsNoted (process p before after item a disk w) h =
        let hold =
          sum_of-change before after (working item)
            (finishing (effects_of (processed buckets a item disk))) (owed nothing_held t.gain) in
        ground (arith, h, hold, w)
    Step-IsNoted (fetch_sub p before after w) h =
        let hold = sum_of-change before after (finishing []) at_queue (owed nothing_held t.gain) in
        ground (arith, h, hold, w)
    Step-IsNoted (settle p before after e es w) h =
        let hold =
          sum_of-change before after (finishing (e ∷ es)) (finishing es)
            (owed nothing_held t.gain) in
        ground (arith, h, hold, w, t.applies e p.results)

  Reaches-IsNoted :
      {buckets : List (List ℕ)} {start p : Pool}
      → IsNoted start
      → Reaches buckets start p
      → IsNoted p
  Reaches-IsNoted h here = h
  Reaches-IsNoted h (there p q r s) = Step-IsNoted s (Reaches-IsNoted h r)

  -- When all workers have left, the results count what the outcomes give.
  pub all_noted :
      {buckets : List (List ℕ)} (concurrency : ℕ) (tasks : List DeduplicateTask) (p : Pool)
      → Reaches buckets (initial concurrency tasks) p
      → all is_gone p.workers ≡ true
      → t.value p.results ≡ sum_of gained p.handled
  all_noted concurrency tasks p r left =
      let begun : t.value no_results
            + sum_of (owed nothing_held t.gain) (repeat (max concurrency 1))
          ≡ 0 =
        ground (arith, t.starts, repeat-none (owed nothing_held t.gain) (max concurrency 1) refl) in
      let h = Reaches-IsNoted begun r in
      ground (arith, h, gone_none (owed nothing_held t.gain) p.workers refl left)
