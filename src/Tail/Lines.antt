-- ===== src/Tail/Lines.antt =====
-- What the lines of a poll do to the tailer, field by field.
use pigeon_cli.Base.{
  ℕ, ◌+◌, ◌-◌, ◌≡◌, refl, sym, ap, ◌∙◌, Bool, true, Option, none, some, List, [], ◌∷◌, ◌++◌,
  append_assoc, arith,
}
use pigeon_cli.Base.Tests.{leb, if◌then◌else◌}
use pigeon_cli.Base.Lists.{length, length-append}
use pigeon_cli.Base.Strings.{trim}
use pigeon_cli.Base.Ascii.{codes, eq_ignore_ascii_case}
use pigeon_cli.Tail.{
  LogLine, LogSummary, ErrorStreak, CollapsedErrorSummary, Warning, Tailer, flush_error_streak,
  record_error, copied_of, count_line, process_parsed, read_line, listed,
}

abbrev pub copied_all : List LogLine → List (List ℕ)
copied_all [] = []
copied_all (l ∷ ls) = copied_of l ++ copied_all ls

unfoldable pub totals : List LogLine → LogSummary → LogSummary
totals [] c = c
totals (l ∷ ls) c = totals ls (count_line l c)

abbrev pub is_error : LogLine → Bool
is_error l = eq_ignore_ascii_case l.level (codes "error")

abbrev pub error_count : List LogLine → ℕ
error_count [] = 0
error_count (l ∷ ls) = (if is_error l then 1 else 0) + error_count ls

abbrev pub repeats_of : Option CollapsedErrorSummary → ℕ
repeats_of none = 0
repeats_of (some s) = s.repeated

abbrev pub repeats : List CollapsedErrorSummary → ℕ
repeats [] = 0
repeats (s ∷ ss) = s.repeated + repeats ss

pub repeats-append :
    (xs ys : List CollapsedErrorSummary) → repeats (xs ++ ys) ≡ repeats xs + repeats ys
repeats-append [] ys = omega arith
repeats-append (x ∷ xs) ys = omega (arith, repeats-append xs ys)

pub repeats-listed : (s : Option CollapsedErrorSummary) → repeats (listed s) ≡ repeats_of s
repeats-listed none = refl
repeats-listed (some s) = omega arith

-- The errors of a streak that are counted and not logged.
abbrev pub held : Option ErrorStreak → ℕ
held none = 0
held (some s) = s.count - 1

abbrev pub is_streak : Option ErrorStreak → Bool
is_streak none = true
is_streak (some s) = leb 1 s.count

pub flush_error_streak-repeats :
    (t : Tailer) → repeats_of (flush_error_streak t).0 ≡ held t.current_streak
unfolding flush_error_streak
flush_error_streak-repeats t = ground arith

-- A flush ends the streak and changes nothing else.
pub record Flushed (t t' : Tailer) : Type 0 where
  pub offset : t'.offset ≡ t.offset
  pub partial_line : t'.partial_line ≡ t.partial_line
  pub cumulative : t'.cumulative ≡ t.cumulative
  pub pending : t'.pending_copied ≡ t.pending_copied
  pub warnings : t'.warnings ≡ t.warnings
  pub streak : t'.current_streak ≡ none

pub flush_error_streak-Flushed : (t : Tailer) → Flushed t (flush_error_streak t).1
unfolding flush_error_streak
flush_error_streak-Flushed t = record {
  offset = ground arith;
  partial_line = ground arith;
  cumulative = ground arith;
  pending = ground arith;
  warnings = ground arith;
  streak = ground arith;
}

-- The tailer `t'` after `l` was read in `t`, with what is reported.
pub record Processed (l : LogLine) (t : Tailer) (s : Option CollapsedErrorSummary) (t' : Tailer)
    : Type 0 where
  pub offset : t'.offset ≡ t.offset
  pub partial_line : t'.partial_line ≡ t.partial_line
  pub cumulative : t'.cumulative ≡ count_line l t.cumulative
  pub copied : t'.pending_copied ≡ t.pending_copied ++ copied_of l
  pub streak : is_streak t'.current_streak ≡ true
  pub accounted :
      repeats_of s + held t'.current_streak + length t'.warnings
      ≡ held t.current_streak + length t.warnings + (if is_error l then 1 else 0)

one_more : (t : Tailer) (w : Warning) → length (t.warnings ++ (w ∷ [])) ≡ length t.warnings + 1
one_more t w = omega (arith, length-append t.warnings (w ∷ []))

pub process_parsed-Processed :
    (l : LogLine) (t : Tailer)
    → is_streak t.current_streak ≡ true
    → Processed l t (process_parsed l t).0 (process_parsed l t).1
unfolding process_parsed record_error flush_error_streak
process_parsed-Processed l t h = record {
  offset = ground arith;
  partial_line = ground arith;
  cumulative = ground arith;
  copied = ground arith;
  streak = ground arith;
  accounted = ground (arith, one_more t (record { key = l.object; error = l.msg }));
}

abbrev pub with_read : Option LogLine → List LogLine → List LogLine
with_read none ls = ls
with_read (some l) ls = l ∷ ls

-- The lines that can be read, in their order.
module _ (json : List ℕ → Option LogLine) where
  unfoldable pub entries : List (List ℕ) → List LogLine
  unfolding trim
  entries [] = []
  entries (line ∷ rest) = with_read (read_line json (trim line)) (entries rest)

  pub entries-append : (xs ys : List (List ℕ)) → entries (xs ++ ys) ≡ entries xs ++ entries ys
  unfolding entries
  entries-append [] ys = refl
  entries-append (x ∷ xs) ys = go (read_line json (trim x)) (entries-append xs ys)
    where
      go :
          (m : Option LogLine)
          → entries (xs ++ ys) ≡ entries xs ++ entries ys
          → with_read m (entries (xs ++ ys)) ≡ with_read m (entries xs) ++ entries ys
      go none e = e
      go (some l) e = ap (λ (z : List LogLine). l ∷ z) e

pub copied_all-append :
    (xs ys : List LogLine) → copied_all (xs ++ ys) ≡ copied_all xs ++ copied_all ys
copied_all-append [] ys = refl
copied_all-append (x ∷ xs) ys =
    ap (λ (z : List (List ℕ)). copied_of x ++ z) (copied_all-append xs ys)
    ∙ sym (append_assoc (copied_of x) (copied_all xs) (copied_all ys))

pub totals-append :
    (xs ys : List LogLine) (c : LogSummary) → totals (xs ++ ys) c ≡ totals ys (totals xs c)
unfolding totals
totals-append [] ys c = refl
totals-append (x ∷ xs) ys c = totals-append xs ys (count_line x c)

pub error_count-append :
    (xs ys : List LogLine) → error_count (xs ++ ys) ≡ error_count xs + error_count ys
error_count-append [] ys = omega arith
error_count-append (x ∷ xs) ys = omega (arith, error_count-append xs ys)
