-- ===== src/Tail.antt =====
-- src/core/rclone/log.rs: the tailer of rclone's log. The JSON reader is third-party code and a
-- parameter. The warnings that the source hands to the logger are kept in the state, as a record
-- of what was logged; no function reads them.
pub mod Lines
pub mod Follows
pub mod Polls
pub mod Runs
use pigeon_cli.Base.{ℕ, ◌+◌, ◌-◌, Bool, ◌&&◌, Option, none, some, List, [], ◌∷◌, ◌++◌}
use pigeon_cli.Base.Tests.{leb, ◌==◌, if◌then◌else◌}
use pigeon_cli.Base.Lists.{length, drop}
use pigeon_cli.Base.Text.{is_empty, split_on}
use pigeon_cli.Base.Strings.{starts_with, contains, trim, init, last_piece}
use pigeon_cli.Base.Ascii.{codes, bytes_eq, eq_ignore_ascii_case}

pub record Stats : Type 0 where
  pub bytes : ℕ
  pub transfers : ℕ
  pub errors : ℕ
  pub deletes : ℕ

pub record LogLine : Type 0 where
  pub level : List ℕ
  pub msg : List ℕ
  pub object : Option (List ℕ)
  pub stats : Option Stats

pub record LogSummary : Type 0 where
  pub transferred : ℕ
  pub errors : ℕ
  pub bytes : ℕ
  pub deletes : ℕ
  pub duplicate_notices : ℕ

abbrev pub no_summary : LogSummary
no_summary = record { transferred = 0; errors = 0; bytes = 0; deletes = 0; duplicate_notices = 0 }

pub record ErrorStreak : Type 0 where
  pub cause : List ℕ
  pub first_key : Option (List ℕ)
  pub count : ℕ

pub record CollapsedErrorSummary : Type 0 where
  pub cause : List ℕ
  pub first_key : Option (List ℕ)
  pub repeated : ℕ

pub record TailDelta : Type 0 where
  pub transferred : ℕ
  pub errors : ℕ
  pub bytes : ℕ
  pub deletes : ℕ
  pub collapsed_repeats : List CollapsedErrorSummary
  pub copied_objects : List (List ℕ)

-- `TailDelta::is_empty`
unfoldable pub is_empty_delta : TailDelta → Bool
is_empty_delta d = d.transferred == 0 && d.errors == 0 && d.bytes == 0 && d.deletes == 0

pub record Warning : Type 0 where
  pub key : Option (List ℕ)
  pub error : List ℕ

pub record Tailer : Type 0 where
  pub offset : ℕ
  pub partial_line : List ℕ
  pub cumulative : LogSummary
  pub current_streak : Option ErrorStreak
  pub pending_copied : List (List ℕ)
  pub warnings : List Warning

abbrev pub new : Tailer
new = record {
  offset = 0;
  partial_line = [];
  cumulative = no_summary;
  current_streak = none;
  pending_copied = [];
  warnings = [];
}

abbrev pub summary_of : ErrorStreak → Option CollapsedErrorSummary
summary_of s =
    if leb s.count 1
    then none
    else some (record { cause = s.cause; first_key = s.first_key; repeated = s.count - 1 })

unfoldable pub flush_error_streak : Tailer → Option CollapsedErrorSummary × Tailer
flush_error_streak t = elim t.current_streak [
  | none ↦ (none, t)
  | some s ↦ (summary_of s, record t { current_streak = none })
]

abbrev pub start_streak : Option (List ℕ) → List ℕ → Tailer → Tailer
start_streak key cause t = record t {
  current_streak = some (record { cause = cause; first_key = key; count = 1 });
  warnings = t.warnings ++ (record { key = key; error = cause } ∷ []);
}

-- The first error of a cause is logged, and those of the same cause behind it are counted.
unfoldable pub record_error :
    Option (List ℕ) → List ℕ → Tailer → Option CollapsedErrorSummary × Tailer
unfolding flush_error_streak
record_error key cause t = elim t.current_streak [
  | none ↦ (none, start_streak key cause t)
  | some s ↦
      if bytes_eq s.cause cause
      then (none, record t { current_streak = some (record s { count = s.count + 1 }) })
      else ((flush_error_streak t).0, start_streak key cause (flush_error_streak t).1)
]

abbrev pub take_stats : Option Stats → LogSummary → LogSummary
take_stats none c = c
take_stats (some s) c = record c {
  transferred = s.transfers;
  errors = s.errors;
  bytes = s.bytes;
  deletes = s.deletes;
}

abbrev pub copied_of : LogLine → List (List ℕ)
copied_of l =
    if eq_ignore_ascii_case l.level (codes "info") && starts_with (codes "Copied ") l.msg
    then elim l.object [ none ↦ [] | some object ↦ object ∷ [] ]
    else []

abbrev pub is_duplicate_notice : LogLine → Bool
is_duplicate_notice l =
    eq_ignore_ascii_case l.level (codes "notice")
    && contains (codes "Duplicate object found in source") l.msg

-- What a line does to the totals.
unfoldable pub count_line : LogLine → LogSummary → LogSummary
unfolding eq_ignore_ascii_case contains
count_line l c =
    let c' = take_stats l.stats c in
    if is_duplicate_notice l then record c' { duplicate_notices = c'.duplicate_notices + 1 } else c'

unfoldable pub process_parsed : LogLine → Tailer → Option CollapsedErrorSummary × Tailer
unfolding count_line record_error eq_ignore_ascii_case
process_parsed l t =
    let t' = record t {
      cumulative = count_line l t.cumulative;
      pending_copied = t.pending_copied ++ copied_of l;
    } in
    if eq_ignore_ascii_case l.level (codes "error")
    then record_error l.object l.msg t'
    else (none, t')

unfoldable pub process_read : Option LogLine → Tailer → Option CollapsedErrorSummary × Tailer
unfolding process_parsed
process_read none t = (none, t)
process_read (some l) t = process_parsed l t

module _ (json : List ℕ → Option LogLine) where
  abbrev pub read_line : List ℕ → Option LogLine
  read_line line = if is_empty line then none else json line

  unfoldable pub process_line : List ℕ → Tailer → Option CollapsedErrorSummary × Tailer
  unfolding process_read
  process_line line t = process_read (read_line line) t

abbrev pub listed : Option CollapsedErrorSummary → List CollapsedErrorSummary
listed none = []
listed (some s) = s ∷ []

-- A poll that sees no new bytes.
unfoldable pub flush_only_delta : Tailer → TailDelta × Tailer
unfolding flush_error_streak
flush_only_delta t =
    let (s, t') = flush_error_streak (record t { pending_copied = [] }) in
    (
      record {
        transferred = 0;
        errors = 0;
        bytes = 0;
        deletes = 0;
        collapsed_repeats = listed s;
        copied_objects = t.pending_copied;
      },
      t',
    )

module _ (json : List ℕ → Option LogLine) where
  unfoldable pub process_lines :
      List (List ℕ) → List CollapsedErrorSummary → Tailer → List CollapsedErrorSummary × Tailer
  unfolding process_line trim
  process_lines [] repeats t = (repeats, t)
  process_lines (line ∷ rest) repeats t =
      let (s, t') = process_line json (trim line) t in process_lines rest (repeats ++ listed s) t'

  abbrev pub delta_of : LogSummary → List CollapsedErrorSummary → Tailer → TailDelta × Tailer
  delta_of before repeats t =
      let (s, t') = flush_error_streak t in
      (
        record {
          transferred = t.cumulative.transferred - before.transferred;
          errors = t.cumulative.errors - before.errors;
          bytes = t.cumulative.bytes - before.bytes;
          deletes = t.cumulative.deletes - before.deletes;
          collapsed_repeats = repeats ++ listed s;
          copied_objects = t'.pending_copied;
        },
        record t' { pending_copied = [] },
      )

  -- `poll` on the bytes behind the offset, of which there is at least one.
  unfoldable pub poll_bytes : List ℕ → Tailer → TailDelta × Tailer
  unfolding process_lines split_on flush_error_streak
  poll_bytes buf t =
      let pieces = split_on 10 (t.partial_line ++ buf) in
      let (repeats, t') =
        process_lines (init pieces) [] (record t { partial_line = last_piece pieces }) in
      delta_of t.cumulative repeats (record t' { offset = t'.offset + length buf })

  abbrev pub poll_buf : List ℕ → Tailer → TailDelta × Tailer
  poll_buf [] t = flush_only_delta t
  poll_buf (c ∷ cs) t = poll_bytes (c ∷ cs) t

  -- What a poll reads: nothing, where the file cannot be opened or read as text, or the file.
  unfoldable pub poll : Option (List ℕ) → Tailer → TailDelta × Tailer
  unfolding flush_only_delta poll_bytes
  poll none t = flush_only_delta t
  poll (some file) t = poll_buf (drop t.offset file) t

  -- Several polls, with what each of them can read.
  unfoldable pub polls : List (Option (List ℕ)) → Tailer → List TailDelta × Tailer
  unfolding poll
  polls [] t = ([], t)
  polls (read ∷ reads) t =
      let (d, t') = poll read t in let (ds, t'') = polls reads t' in (d ∷ ds, t'')
