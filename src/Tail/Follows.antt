-- ===== src/Tail/Follows.antt =====
-- One poll of a growing log, from a state that follows what was read of it before.
use pigeon_cli.Base.{
  ℕ, ◌+◌, ◌≡◌, refl, sym, ap, ◌∙◌, true, Option, none, some, List, [], ◌∷◌, ◌++◌, append-nil,
  append_assoc, arith,
}
use pigeon_cli.Base.Lists.{length, drop, length-append, drop-append}
use pigeon_cli.Base.Text.{split_on}
use pigeon_cli.Base.Strings.{trim, init, last_piece, split_on-pieces}
use pigeon_cli.Tail.{
  LogLine, no_summary, CollapsedErrorSummary, Tailer, flush_error_streak, copied_of, process_parsed,
  process_read, read_line, process_line, listed, flush_only_delta, process_lines, poll_bytes,
  poll_buf, poll,
}
use pigeon_cli.Tail.Lines.{
  copied_all, totals, error_count, repeats, repeats-append, repeats-listed, held, is_streak,
  flush_error_streak-repeats, flush_error_streak-Flushed, Processed, process_parsed-Processed,
  with_read, entries, entries-append, copied_all-append, totals-append, error_count-append,
}

-- The tailer after a batch of lines.
record Batch (ls : List LogLine) (t : Tailer) (before after : List CollapsedErrorSummary)
    (t' : Tailer) : Type 0 where
  offset : t'.offset ≡ t.offset
  partial_line : t'.partial_line ≡ t.partial_line
  cumulative : t'.cumulative ≡ totals ls t.cumulative
  copied : t'.pending_copied ≡ t.pending_copied ++ copied_all ls
  streak : is_streak t'.current_streak ≡ true
  accounted :
      repeats after + held t'.current_streak + length t'.warnings
      ≡ repeats before + held t.current_streak + length t.warnings + error_count ls

no_lines :
    (before : List CollapsedErrorSummary) (t : Tailer)
    → is_streak t.current_streak ≡ true
    → Batch [] t before before t
unfolding totals
no_lines before t h = record {
  offset = refl;
  partial_line = refl;
  cumulative = refl;
  copied = sym (append-nil t.pending_copied);
  streak = h;
  accounted = omega arith;
}

-- A line in front of a batch.
line_first :
    (l : LogLine) (ls : List LogLine) (t t' t'' : Tailer) (s : Option CollapsedErrorSummary)
    (before after : List CollapsedErrorSummary)
    → Processed l t s t'
    → Batch ls t' (before ++ listed s) after t''
    → Batch (l ∷ ls) t before after t''
unfolding totals
line_first l ls t t' t'' s before after p b = record {
  offset = b.offset ∙ p.offset;
  partial_line = b.partial_line ∙ p.partial_line;
  cumulative = b.cumulative ∙ ap (totals ls) p.cumulative;
  copied =
      b.copied
      ∙ ap (λ (c : List (List ℕ)). c ++ copied_all ls) p.copied
      ∙ append_assoc t.pending_copied (copied_of l) (copied_all ls);
  streak = b.streak;
  accounted =
      omega (arith, b.accounted, p.accounted, repeats-append before (listed s), repeats-listed s);
}

skipped :
    {ls : List LogLine} {t t' : Tailer} {after : List CollapsedErrorSummary}
    (before : List CollapsedErrorSummary)
    → Batch ls t (before ++ []) after t'
    → Batch ls t before after t'
skipped before b = rw (append-nil before) at b

module _ (json : List ℕ → Option LogLine) where
  process_lines-Batch :
      (lines : List (List ℕ)) (before : List CollapsedErrorSummary) (t : Tailer)
      → is_streak t.current_streak ≡ true
      → Batch
          (entries json lines)
          t
          before
          (process_lines json lines before t).0
          (process_lines json lines before t).1
  unfolding process_lines process_line process_read entries
  process_lines-Batch [] before t h = no_lines before t h
  process_lines-Batch (line ∷ rest) before t h =
      go (read_line json (trim line))
        (λ s t' h'. process_lines-Batch rest (before ++ listed s) t' h')
    where
      go :
          (m : Option LogLine)
          → ((s : Option CollapsedErrorSummary) (t' : Tailer)
              → is_streak t'.current_streak ≡ true
              → Batch
                  (entries json rest)
                  t'
                  (before ++ listed s)
                  (process_lines json rest (before ++ listed s) t').0
                  (process_lines json rest (before ++ listed s) t').1)
          → Batch
              (with_read m (entries json rest))
              t
              before
              (process_lines json rest
                (before ++ listed (process_read m t).0)
                (process_read m t).1).0
              (process_lines json rest
                (before ++ listed (process_read m t).0)
                (process_read m t).1).1
      go none ih = skipped before (ih none t h)
      go (some l) ih =
          let p = process_parsed-Processed l t h in
          line_first l (entries json rest) t (process_parsed l t).1 _ (process_parsed l t).0 before
            _ p (ih (process_parsed l t).0 (process_parsed l t).1 p.streak)

  -- The tailer between two polls, when it has read `seen`, and what the polls have reported.
  pub record Follows (seen : List ℕ) (copied : List (List ℕ)) (reported : ℕ) (t : Tailer)
      : Type 0 where
    pub offset : t.offset ≡ length seen
    pub partial_line : t.partial_line ≡ last_piece (split_on 10 seen)
    pub cumulative : t.cumulative ≡ totals (entries json (init (split_on 10 seen))) no_summary
    pub pending : t.pending_copied ≡ []
    pub streak : t.current_streak ≡ none
    pub all_copied : copied ≡ copied_all (entries json (init (split_on 10 seen)))
    pub all_errors :
        reported + length t.warnings ≡ error_count (entries json (init (split_on 10 seen)))

  pub flushed :
      (seen : List ℕ) (copied : List (List ℕ)) (reported : ℕ) (t : Tailer)
      → Follows seen copied reported t
      → Follows seen
          (copied ++ (flush_only_delta t).0.copied_objects)
          (reported + repeats (flush_only_delta t).0.collapsed_repeats)
          (flush_only_delta t).1
  unfolding flush_only_delta
  flushed seen copied reported t f =
      let u : Tailer = record t { pending_copied = [] } in
      let fl = flush_error_streak-Flushed u in
      record {
        offset = fl.offset ∙ f.offset;
        partial_line = fl.partial_line ∙ f.partial_line;
        cumulative = fl.cumulative ∙ f.cumulative;
        pending = fl.pending;
        streak = fl.streak;
        all_copied =
            ap (λ (c : List (List ℕ)). copied ++ c) f.pending ∙ append-nil copied ∙ f.all_copied;
        all_errors = omega (
          arith,
          f.all_errors,
          ap length fl.warnings,
          repeats-listed (flush_error_streak u).0,
          flush_error_streak-repeats u,
          ap held f.streak,
        );
      }

  poll_bytes-Follows :
      (seen more : List ℕ) (copied : List (List ℕ)) (reported : ℕ) (t : Tailer)
      → Follows seen copied reported t
      → Follows
          (seen ++ more)
          (copied ++ (poll_bytes json more t).0.copied_objects)
          (reported + repeats (poll_bytes json more t).0.collapsed_repeats)
          (poll_bytes json more t).1
  unfolding poll_bytes
  poll_bytes-Follows seen more copied reported t f =
      let pieces = split_on 10 (t.partial_line ++ more) in
      let t' : Tailer = record t { partial_line = last_piece pieces } in
      let r = process_lines json (init pieces) [] t' in
      let b = process_lines-Batch (init pieces) [] t' (ap is_streak f.streak) in
      let u : Tailer = record r.1 { offset = r.1.offset + length more } in
      let fl = flush_error_streak-Flushed u in
      let (front, back) = rw (sym f.partial_line) at (split_on-pieces 10 seen more) in
      let all : entries json (init (split_on 10 (seen ++ more)))
          ≡ entries json (init (split_on 10 seen)) ++ entries json (init pieces) =
        ap (entries json) front ∙ entries-append json (init (split_on 10 seen)) (init pieces) in
      record {
        offset = omega (arith, fl.offset, b.offset, f.offset, length-append seen more);
        partial_line = fl.partial_line ∙ b.partial_line ∙ sym back;
        cumulative =
            fl.cumulative
            ∙ b.cumulative
            ∙ ap (totals (entries json (init pieces))) f.cumulative
            ∙ sym (
                totals-append (entries json (init (split_on 10 seen))) (entries json (init pieces))
                  no_summary)
            ∙ ap (λ (ls : List LogLine). totals ls no_summary) (sym all);
        pending = refl;
        streak = fl.streak;
        all_copied =
            ap (λ (c : List (List ℕ)). copied ++ c)
              (fl.pending
                ∙ b.copied
                ∙ ap (λ (c : List (List ℕ)). c ++ copied_all (entries json (init pieces)))
                    f.pending)
            ∙ ap (λ (c : List (List ℕ)). c ++ copied_all (entries json (init pieces))) f.all_copied
            ∙ sym (
                copied_all-append (entries json (init (split_on 10 seen)))
                  (entries json (init pieces)))
            ∙ ap copied_all (sym all);
        all_errors = omega (
          arith,
          f.all_errors,
          b.accounted,
          ap length fl.warnings,
          repeats-append r.0 (listed (flush_error_streak u).0),
          repeats-listed (flush_error_streak u).0,
          flush_error_streak-repeats u,
          ap held f.streak,
          ap error_count all,
          error_count-append (entries json (init (split_on 10 seen))) (entries json (init pieces)),
        );
      }

  poll_buf-Follows :
      (seen more : List ℕ) (copied : List (List ℕ)) (reported : ℕ) (t : Tailer)
      → Follows seen copied reported t
      → Follows
          (seen ++ more)
          (copied ++ (poll_buf json more t).0.copied_objects)
          (reported + repeats (poll_buf json more t).0.collapsed_repeats)
          (poll_buf json more t).1
  poll_buf-Follows seen [] copied reported t f = rw append-nil (flushed seen copied reported t f)
  poll_buf-Follows seen (c ∷ cs) copied reported t f =
      poll_bytes-Follows seen (c ∷ cs) copied reported t f

  poll-poll_buf :
      (seen more : List ℕ) (t : Tailer)
      → t.offset ≡ length seen
      → poll json (some (seen ++ more)) t ≡ poll_buf json more t
  unfolding poll
  poll-poll_buf seen more t e =
      ap (λ (b : List ℕ). poll_buf json b t)
        (ap (λ n. drop n (seen ++ more)) e ∙ drop-append seen more)

  pub poll-Follows :
      (seen more : List ℕ) (copied : List (List ℕ)) (reported : ℕ) (t : Tailer)
      → Follows seen copied reported t
      → Follows
          (seen ++ more)
          (copied ++ (poll json (some (seen ++ more)) t).0.copied_objects)
          (reported + repeats (poll json (some (seen ++ more)) t).0.collapsed_repeats)
          (poll json (some (seen ++ more)) t).1
  poll-Follows seen more copied reported t f =
      rw (poll-poll_buf seen more t f.offset) (poll_buf-Follows seen more copied reported t f)

  -- The reports of a poll and of those behind it.
  pub regrouped :
      {seen : List ℕ} {t : Tailer} (copied objects later : List (List ℕ)) (reported n m : ℕ)
      → Follows seen ((copied ++ objects) ++ later) ((reported + n) + m) t
      → Follows seen (copied ++ (objects ++ later)) (reported + (n + m)) t
  regrouped copied objects later reported n m f =
      let e : (reported + n) + m ≡ reported + (n + m) = omega arith in
      rw (append_assoc copied objects later, e) at f
