-- ===== src/Ledger/RoundTrip.antt =====
-- `Ledger::parse` reads what `Ledger::serialize` and `LedgerSync::append` write.
use pigeon_cli.Base.{
  ℕ, ◌≡◌, refl, sym, ◌∙◌, ap, true, false, none, some, List, [], ◌∷◌, ◌++◌, arith, append_assoc,
  append-nil,
}
use pigeon_cli.Base.Lists.{All}
use pigeon_cli.Base.Text.{has, lines, lines-append, ends_in_cr}
use pigeon_cli.Base.Lines.{whole, is_closed, lines-closed, is_closed-append}
use pigeon_cli.Base.Outcome.{ok}
use pigeon_cli.Base.Decimal.{show}
use pigeon_cli.Ledger.{
  bytes_of, append, Key, LedgerEntry, Ledger, key_lt, get, map_insert, insert, parse_line,
  starts_with_hash, insert_row, collect, parse, ledger_header, row, rows, serialize,
}
use pigeon_cli.Ledger.Map.{IsLedger, key_lt-same_key, key_lt_asym}
use pigeon_cli.Ledger.Row.{IsRow, parse_line-row, row-has, row-cr, lines-row}

abbrev Below : Key → Ledger → Type 0
Below k l = All (λ (f : LedgerEntry). key_lt f.key k ≡ true) l

get-Below : (k : Key) (l : Ledger) → Below k l → get k l ≡ none
unfolding get
get-Below k [] h = refl
get-Below k (f ∷ l) (lt, h) = rw (key_lt-same_key f.key k lt) (get-Below k l h)

map_insert-Below : (e : LedgerEntry) (l : Ledger) → Below e.key l → map_insert e l ≡ l ++ (e ∷ [])
unfolding map_insert
map_insert-Below e [] h = refl
map_insert-Below e (f ∷ l) (lt, h) =
    rw (key_lt-same_key f.key e.key lt, key_lt_asym f.key e.key lt)
      (ap (λ (m : Ledger). f ∷ m) (map_insert-Below e l h))

-- An entry behind all those of a ledger.
insert-Below : (e : LedgerEntry) (l : Ledger) → Below e.key l → insert e l ≡ l ++ (e ∷ [])
unfolding insert
insert-Below e l h = ground (arith, get-Below e.key l h, map_insert-Below e l h)

before_rest :
    (k : Key) (acc : Ledger) (e : LedgerEntry) (l : Ledger)
    → All (λ (f : LedgerEntry). key_lt k f.key ≡ true) (acc ++ (e ∷ l))
    → key_lt k e.key ≡ true
before_rest k [] e l (h, hs) = h
before_rest k (f ∷ acc) e l (h, hs) = before_rest k acc e l hs

front-Below :
    (acc : Ledger) (e : LedgerEntry) (l : Ledger) → IsLedger (acc ++ (e ∷ l)) → Below e.key acc
front-Below [] e l s = tt
front-Below (f ∷ acc) e l (above, s) = (before_rest f.key acc e l above, front-Below acc e l s)

collect_cons :
    (line : List ℕ) (rest : List (List ℕ)) (l : Ledger)
    → collect (line ∷ rest) l ≡ collect rest (insert_row (parse_line line) l)
unfolding collect
collect_cons line rest l = refl

collect-rows :
    (l acc : Ledger) → All IsRow l → IsLedger (acc ++ l) → collect (lines (rows l)) acc ≡ acc ++ l
unfolding rows
collect-rows [] acc h s = unfold collect lines in sym (append-nil acc)
collect-rows (e ∷ l) acc (h, hs) s =
    let moved = append_assoc acc (e ∷ []) l in
    ap (λ (ls : List (List ℕ)). collect ls acc) (lines-row e (rows l) h)
    ∙ collect_cons (row e) (lines (rows l)) acc
    ∙ ap (λ m. collect (lines (rows l)) (insert_row m acc)) (parse_line-row e h)
    ∙ ap (collect (lines (rows l))) (insert-Below e acc (front-Below acc e l s))
    ∙ collect-rows l (acc ++ (e ∷ [])) hs (rw moved s)
    ∙ moved

header_skipped : (rest : List (List ℕ)) → collect (ledger_header ∷ rest) [] ≡ collect rest []
unfolding collect parse_line
header_skipped rest = refl

-- A ledger that is written and read again is the same ledger, if in each of its entries the mailbox
-- and the time hold no tab and no newline, the row does not begin with `#`, the time does not
-- end in a carriage return and the numbers fit 32 bits.
pub parse-serialize : (l : Ledger) → IsLedger l → All IsRow l → parse (serialize l) ≡ l
unfolding parse serialize
parse-serialize l s h =
    ap (λ (ls : List (List ℕ)). collect ls []) (lines-append ledger_header (rows l) refl refl)
    ∙ header_skipped (lines (rows l))
    ∙ collect-rows l [] h s

collect-append :
    (xs ys : List (List ℕ)) (l : Ledger) → collect (xs ++ ys) l ≡ collect ys (collect xs l)
unfolding collect
collect-append [] ys l = refl
collect-append (x ∷ xs) ys l = collect-append xs ys (insert_row (parse_line x) l)

-- Appending the row of an entry to a file of whole lines, and reading the file again, is inserting the
-- entry in the ledger that was read before, if the mailbox and the time of the entry hold no tab and
-- no newline, the row does not begin with `#`, the time does not end in a carriage return and the
-- numbers fit 32 bits. The file is one of whole lines again.
pub parse-append :
    (e : LedgerEntry) (contents : List ℕ)
    → IsRow e
    → is_closed contents ≡ true
    → ((append whole e (some contents)).1 ≡ some (contents ++ (row e ++ (10 ∷ []))))
      × (is_closed (contents ++ (row e ++ (10 ∷ []))) ≡ true)
      × (parse (contents ++ (row e ++ (10 ∷ []))) ≡ insert e (parse contents))
unfolding parse append
parse-append e contents h closed = (
  refl,
  is_closed-append contents (row e),
  ap (λ (ls : List (List ℕ)). collect ls [])
        (lines-closed contents (row e ++ (10 ∷ [])) closed
          ∙ ap (λ (ls : List (List ℕ)). lines contents ++ ls) (lines-row e [] h))
      ∙ collect-append (lines contents) (row e ∷ lines []) []
      ∙ (unfold collect lines in rw (parse_line-row e h)),
)

hash_front : (xs ys : List ℕ) → starts_with_hash xs ≡ true → starts_with_hash (xs ++ ys) ≡ true
hash_front [] ys h = cc
hash_front (x ∷ xs) ys h = h

parse_line_hash : (line : List ℕ) → starts_with_hash line ≡ true → parse_line line ≡ none
unfolding parse_line
parse_line_hash line h = ground arith

hash_row :
    (e : LedgerEntry) → starts_with_hash e.key.mailbox ≡ true → starts_with_hash (row e) ≡ true
unfolding row
hash_row e h =
    hash_front e.key.mailbox
      (9 ∷ (show e.key.uidvalidity ++ (9 ∷ (show e.key.uid ++ (9 ∷ e.ingested_at))))) h

-- The row of a message of a mailbox whose name begins with `#` is appended without an error, and
-- the next read of the file skips it: the ledger is the one of before. The mailbox and the time hold no
-- newline and the time does not end in a carriage return.
pub append_hash :
    (e : LedgerEntry) (contents : List ℕ)
    → starts_with_hash e.key.mailbox ≡ true
    → has 10 e.key.mailbox ≡ false
    → has 10 e.ingested_at ≡ false
    → ends_in_cr e.ingested_at ≡ false
    → is_closed contents ≡ true
    → ((append whole e (some contents)).0 ≡ ok tt)
      × (parse (bytes_of (append whole e (some contents)).1) ≡ parse contents)
unfolding parse append
append_hash e contents h m t cr closed = (
  refl,
  ap (λ (ls : List (List ℕ)). collect ls [])
        (lines-closed contents (row e ++ (10 ∷ [])) closed
          ∙ ap (λ (ls : List (List ℕ)). lines contents ++ ls)
              (lines-append (row e) [] (row-has e m t) (row-cr e cr)))
      ∙ collect-append (lines contents) (row e ∷ lines []) []
      ∙ (unfold collect lines in rw (parse_line_hash (row e) (hash_row e h))),
)
