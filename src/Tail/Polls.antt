-- ===== src/Tail/Polls.antt =====
-- The polls of a growing log against one reading of it.
use pigeon_cli.Base.{ℕ, ◌+◌, ◌≡◌, refl, Option, none, some, List, [], ◌∷◌, ◌++◌, append-nil, arith}
use pigeon_cli.Base.Lists.{length}
use pigeon_cli.Base.Text.{split_on}
use pigeon_cli.Base.Strings.{init}
use pigeon_cli.Tail.{LogLine, no_summary, TailDelta, Tailer, new, flush_only_delta, poll, polls}
use pigeon_cli.Tail.Lines.{copied_all, totals, error_count, repeats, entries}
use pigeon_cli.Tail.Follows.{Follows, flushed, poll-Follows, regrouped}

-- What a log gains before each poll; nothing where the poll cannot read it.
abbrev pub reads_of : List ℕ → List (Option (List ℕ)) → List (Option (List ℕ))
reads_of seen [] = []
reads_of seen (none ∷ gains) = none ∷ reads_of seen gains
reads_of seen (some more ∷ gains) = some (seen ++ more) ∷ reads_of (seen ++ more) gains

abbrev pub log_of : List ℕ → List (Option (List ℕ)) → List ℕ
log_of seen [] = seen
log_of seen (none ∷ gains) = log_of seen gains
log_of seen (some more ∷ gains) = log_of (seen ++ more) gains

abbrev pub all_objects : List TailDelta → List (List ℕ)
all_objects [] = []
all_objects (d ∷ ds) = d.copied_objects ++ all_objects ds

abbrev pub all_repeats : List TailDelta → ℕ
all_repeats [] = 0
all_repeats (d ∷ ds) = repeats d.collapsed_repeats + all_repeats ds

module _ (json : List ℕ → Option LogLine) where
  polls-Follows :
      (gains : List (Option (List ℕ))) (seen : List ℕ) (copied : List (List ℕ)) (reported : ℕ)
      (t : Tailer)
      → Follows json seen copied reported t
      → Follows json
          (log_of seen gains)
          (copied ++ all_objects (polls json (reads_of seen gains) t).0)
          (reported + all_repeats (polls json (reads_of seen gains) t).0)
          (polls json (reads_of seen gains) t).1
  unfolding polls
  polls-Follows [] seen copied reported t f =
      let e : reported + 0 ≡ reported = omega arith in rw (append-nil copied, e) f
  polls-Follows (none ∷ gains) seen copied reported t f =
      let d = (flush_only_delta t).0 in
      let t' = (flush_only_delta t).1 in
      regrouped json copied d.copied_objects (all_objects (polls json (reads_of seen gains) t').0)
        reported (repeats d.collapsed_repeats) (all_repeats (polls json (reads_of seen gains) t').0)
        (polls-Follows gains seen (copied ++ d.copied_objects)
          (reported + repeats d.collapsed_repeats) t' (flushed json seen copied reported t f))
  polls-Follows (some more ∷ gains) seen copied reported t f =
      let d = (poll json (some (seen ++ more)) t).0 in
      let t' = (poll json (some (seen ++ more)) t).1 in
      let onward = seen ++ more in
      regrouped json copied d.copied_objects (all_objects (polls json (reads_of onward gains) t').0)
        reported (repeats d.collapsed_repeats)
        (all_repeats (polls json (reads_of onward gains) t').0)
        (polls-Follows gains onward (copied ++ d.copied_objects)
          (reported + repeats d.collapsed_repeats) t'
          (poll-Follows json seen more copied reported t f))

  start : Follows json [] [] 0 new
  unfolding split_on entries totals
  start = record {
    offset = refl;
    partial_line = refl;
    cumulative = refl;
    pending = refl;
    streak = refl;
    all_copied = refl;
    all_errors = refl;
  }

  -- However the log grows between the polls and wherever the polls cut it, a line in the middle or a
  -- poll that cannot read included: the objects that the polls report are those of the whole
  -- lines of the log, in their order and once each; the totals are those of these lines; and each
  -- error line is either logged or counted in one of the reported repeats.
  pub polls-read_once :
      (gains : List (Option (List ℕ)))
      → (all_objects (polls json (reads_of [] gains) new).0
          ≡ copied_all (entries json (init (split_on 10 (log_of [] gains)))))
        × ((polls json (reads_of [] gains) new).1.cumulative
            ≡ totals (entries json (init (split_on 10 (log_of [] gains)))) no_summary)
        × (all_repeats (polls json (reads_of [] gains) new).0
              + length (polls json (reads_of [] gains) new).1.warnings
            ≡ error_count (entries json (init (split_on 10 (log_of [] gains)))))
  polls-read_once gains =
      let f = polls-Follows gains [] [] 0 new start in
      (f.all_copied, f.cumulative, omega (arith, f.all_errors))
