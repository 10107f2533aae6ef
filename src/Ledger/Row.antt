-- ===== src/Ledger/Row.antt =====
-- The row of an entry as a line of the file.
use pigeon_cli.Base.{ℕ, ◌<◌, ◌≡◌, refl, Bool, true, false, some, List, [], ◌∷◌, ◌++◌, arith}
use pigeon_cli.Base.Tests.{u32_mod}
use pigeon_cli.Base.Lists.{all}
use pigeon_cli.Base.Text.{
  has, has-append, split_on, split_on-append, lines, lines-append, ends_in_cr,
}
use pigeon_cli.Base.Ascii.{is_digit}
use pigeon_cli.Base.Decimal.{show, show-digits, parse_uint-show, digits-has, show_cons}
use pigeon_cli.Ledger.{LedgerEntry, row_of, parse_line, starts_with_hash, row, is_white_space}

-- An entry that a row can hold.
pub record IsRow (e : LedgerEntry) : Type 0 where
  pub mailbox_tab : has 9 e.key.mailbox ≡ false
  pub mailbox_newline : has 10 e.key.mailbox ≡ false
  pub mailbox_hash : starts_with_hash (row e) ≡ false
  pub time_tab : has 9 e.ingested_at ≡ false
  pub time_newline : has 10 e.ingested_at ≡ false
  pub time_cr : ends_in_cr e.ingested_at ≡ false
  pub generation : e.key.uidvalidity < u32_mod
  pub number : e.key.uid < u32_mod

split_on_none : (c : ℕ) (p : List ℕ) → has c p ≡ false → split_on c p ≡ p ∷ []
unfolding split_on
split_on_none c [] h = refl
split_on_none c (x ∷ p) h = ground (arith, split_on_none c p)

split_on-row :
    (e : LedgerEntry)
    → IsRow e
    → split_on 9 (row e)
      ≡ e.key.mailbox ∷ show e.key.uidvalidity ∷ show e.key.uid ∷ e.ingested_at ∷ []
unfolding row
split_on-row e h =
    let v = show e.key.uidvalidity in
    let u = show e.key.uid in
    rw (
      split_on-append 9 e.key.mailbox (v ++ (9 ∷ (u ++ (9 ∷ e.ingested_at)))) h.mailbox_tab,
      split_on-append 9 v (u ++ (9 ∷ e.ingested_at))
          (digits-has 9 v refl (show-digits e.key.uidvalidity)),
      split_on-append 9 u e.ingested_at (digits-has 9 u refl (show-digits e.key.uid)),
      split_on_none 9 e.ingested_at h.time_tab,
    )

row_of-fields :
    (e : LedgerEntry)
    → IsRow e
    → row_of (e.key.mailbox ∷ show e.key.uidvalidity ∷ show e.key.uid ∷ e.ingested_at ∷ []) ≡ some e
unfolding row_of
row_of-fields e h = ground (
  arith,
  parse_uint-show u32_mod e.key.uidvalidity h.generation,
  parse_uint-show u32_mod e.key.uid h.number,
)

all-append : (p : ℕ → Bool) (xs ys : List ℕ) → all p ys ≡ false → all p (xs ++ ys) ≡ false
all-append p [] ys h = h
all-append p (x ∷ xs) ys h = ground (arith, all-append p xs ys)

-- The digits of a row are no white space.
not_blank : (n : ℕ) (rest : List ℕ) → all is_white_space (show n ++ rest) ≡ false
not_blank n rest =
    let (c, cs, e) = show_cons n in
    let digits = show-digits n in
    rw e (first_digit c (cs ++ rest) (first_of c cs ((rw e at digits))))
  where
    first_of : (c : ℕ) (cs : List ℕ) → all is_digit (c ∷ cs) ≡ true → is_digit c ≡ true
    first_of c cs h = ground arith

    first_digit : (c : ℕ) (cs : List ℕ) → is_digit c ≡ true → all is_white_space (c ∷ cs) ≡ false
    first_digit c cs h = ground arith

pub parse_line-row : (e : LedgerEntry) → IsRow e → parse_line (row e) ≡ some e
unfolding parse_line
parse_line-row e h =
    let u = show e.key.uid ++ (9 ∷ e.ingested_at) in
    let filled : all is_white_space (row e) ≡ false =
      (unfold row in
        all-append is_white_space e.key.mailbox (9 ∷ (show e.key.uidvalidity ++ (9 ∷ u)))
          (not_blank e.key.uidvalidity (9 ∷ u))) in
    rw (filled, h.mailbox_hash, split_on-row e h) (row_of-fields e h)

pub row-has :
    (e : LedgerEntry)
    → has 10 e.key.mailbox ≡ false
    → has 10 e.ingested_at ≡ false
    → has 10 (row e) ≡ false
unfolding row
row-has e m t = ground (
  arith,
  has-append 10 e.key.mailbox
      (9 ∷ (show e.key.uidvalidity ++ (9 ∷ (show e.key.uid ++ (9 ∷ e.ingested_at))))),
  has-append 10 (show e.key.uidvalidity) (9 ∷ (show e.key.uid ++ (9 ∷ e.ingested_at))),
  has-append 10 (show e.key.uid) (9 ∷ e.ingested_at),
  digits-has 10 (show e.key.uidvalidity) refl (show-digits e.key.uidvalidity),
  digits-has 10 (show e.key.uid) refl (show-digits e.key.uid),
)

ends_in_cr-append : (xs s : List ℕ) → ends_in_cr s ≡ false → ends_in_cr (xs ++ (9 ∷ s)) ≡ false
ends_in_cr-append [] [] h = refl
ends_in_cr-append [] (y ∷ s) h = h
ends_in_cr-append (x ∷ []) s h = ends_in_cr-append [] s h
ends_in_cr-append (x ∷ y ∷ xs) s h = ends_in_cr-append (y ∷ xs) s h

pub row-cr : (e : LedgerEntry) → ends_in_cr e.ingested_at ≡ false → ends_in_cr (row e) ≡ false
unfolding row
row-cr e cr =
    ends_in_cr-append e.key.mailbox
      (show e.key.uidvalidity ++ (9 ∷ (show e.key.uid ++ (9 ∷ e.ingested_at))))
      (ends_in_cr-append (show e.key.uidvalidity) (show e.key.uid ++ (9 ∷ e.ingested_at))
        (ends_in_cr-append (show e.key.uid) e.ingested_at cr))

pub lines-row :
    (e : LedgerEntry) (rest : List ℕ) → IsRow e → lines (row e ++ (10 ∷ rest)) ≡ row e ∷ lines rest
lines-row e rest h =
    lines-append (row e) rest (row-has e h.mailbox_newline h.time_newline) (row-cr e h.time_cr)
