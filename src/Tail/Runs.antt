-- ===== src/Tail/Runs.antt =====
-- Polls of a log of three lines; every line is read as an error with the line as its cause, but
-- for the lines that begin with `C`, which are copies.
use pigeon_cli.Base.{ℕ, ◌+◌, ◌≡◌, refl, Option, none, some, List, [], ◌∷◌}
use pigeon_cli.Base.Tests.{if◌then◌else◌}
use pigeon_cli.Base.Lists.{length}
use pigeon_cli.Base.Text.{split_on}
use pigeon_cli.Base.Strings.{starts_with, init}
use pigeon_cli.Base.Ascii.{codes}
use pigeon_cli.Tail.{LogLine, no_summary, new, polls}
use pigeon_cli.Tail.Lines.{copied_all, totals, error_count, entries}
use pigeon_cli.Tail.Polls.{reads_of, log_of, all_objects, all_repeats, polls-read_once}

abbrev json : List ℕ → Option LogLine
json line =
    if starts_with (codes "C") line
    then some (record {
      level = codes "INFO";
      msg = codes "Copied (new)";
      object = some line;
      stats = some (record { bytes = 7; transfers = 1; errors = 0; deletes = 0 });
    })
    else some (record { level = codes "error"; msg = line; object = none; stats = none })

-- The log is cut within its first line, and one poll cannot read it.
abbrev gains : List (Option (List ℕ))
gains = some (codes "C") ∷ none ∷ some (codes "1\nx\nx\n") ∷ some (codes "x") ∷ []

polls_run :
    (all_objects (polls json (reads_of [] gains) new).0 ≡ codes "C1" ∷ [])
    × (all_repeats (polls json (reads_of [] gains) new).0 ≡ 1)
unfolding polls
polls_run = (refl, refl)

polls-read_once_example :
    (all_objects (polls json (reads_of [] gains) new).0
      ≡ copied_all (entries json (init (split_on 10 (log_of [] gains)))))
    × ((polls json (reads_of [] gains) new).1.cumulative
        ≡ totals (entries json (init (split_on 10 (log_of [] gains)))) no_summary)
    × (all_repeats (polls json (reads_of [] gains) new).0
          + length (polls json (reads_of [] gains) new).1.warnings
        ≡ error_count (entries json (init (split_on 10 (log_of [] gains)))))
polls-read_once_example = polls-read_once json gains
