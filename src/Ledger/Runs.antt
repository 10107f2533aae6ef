-- ===== src/Ledger/Runs.antt =====
-- The ledger at concrete entries.
use pigeon_cli.Base.{ℕ, ◌≡◌, refl, true, some, List, [], ◌∷◌, ◌++◌, arith}
use pigeon_cli.Base.Tests.{if◌then◌else◌}
use pigeon_cli.Base.Lines.{whole, torn, is_closed}
use pigeon_cli.Base.Ascii.{codes}
use pigeon_cli.Base.Outcome.{ok}
use pigeon_cli.Base.Decimal.{parse_uint}
use pigeon_cli.Ledger.{
  LedgerEntry, Ledger, bytes_of, append, get, key_lt, bytes_lt, same_key, insert, parse, row,
  serialize,
}
use pigeon_cli.Ledger.Seed.{SeedMailbox, seed_from_listing, owners}
use pigeon_cli.Ledger.Seeded.{path_of, seed_found}
use pigeon_cli.Ledger.Map.{IsLedger, earlier, get-insert}
use pigeon_cli.Ledger.Row.{IsRow}
use pigeon_cli.Ledger.RoundTrip.{parse-serialize, parse-append, append_hash}

abbrev entry : List ℕ → ℕ → List ℕ → LedgerEntry
entry mailbox uid at = record {
  key = record { mailbox = mailbox; uidvalidity = 7; uid = uid };
  ingested_at = at;
}

abbrev first : LedgerEntry
first = entry (codes "INBOX") 41 (codes "2026-01-02T00:00:00Z")

abbrev again : LedgerEntry
again = entry (codes "INBOX") 41 (codes "2026-01-01T00:00:00Z")

abbrev second : LedgerEntry
second = entry (codes "INBOX") 42 (codes "2026-01-02T00:00:00Z")

abbrev both : Ledger
both = first ∷ second ∷ []

both-IsLedger : IsLedger both
unfolding key_lt bytes_lt
both-IsLedger = ((refl, tt), (tt, tt))

first-IsRow : IsRow first
unfolding row
first-IsRow = record {
  mailbox_tab = refl;
  mailbox_newline = refl;
  mailbox_hash = refl;
  time_tab = refl;
  time_newline = refl;
  time_cr = refl;
  generation = omega arith;
  number = omega arith;
}

second-IsRow : IsRow second
unfolding row
second-IsRow = record {
  mailbox_tab = refl;
  mailbox_newline = refl;
  mailbox_hash = refl;
  time_tab = refl;
  time_newline = refl;
  time_cr = refl;
  generation = omega arith;
  number = omega arith;
}

-- A torn row is dropped, and it takes the row that is appended behind it along.
torn_run : parse (bytes_of (append whole second (append (torn 9) first (some [])).1).1) ≡ []
unfolding append parse
torn_run = refl

parse-serialize_example : parse (serialize both) ≡ both
parse-serialize_example = parse-serialize both both-IsLedger (first-IsRow, (second-IsRow, tt))

parse-append_example :
    ((append whole first (some [])).1 ≡ some ([] ++ (row first ++ (10 ∷ []))))
    × (is_closed ([] ++ (row first ++ (10 ∷ []))) ≡ true)
    × (parse ([] ++ (row first ++ (10 ∷ []))) ≡ insert first (parse []))
parse-append_example = parse-append first [] first-IsRow refl

get-insert_example : get first.key (insert again both) ≡ (
    if same_key again.key first.key
    then some (earlier (get again.key both) again.ingested_at)
    else get first.key both)
get-insert_example = get-insert again first.key both

append_hash_example :
    ((append whole (entry (codes "#mh/x") 3 []) (some [])).0 ≡ ok tt)
    × (parse (bytes_of (append whole (entry (codes "#mh/x") 3 []) (some [])).1) ≡ parse [])
append_hash_example = append_hash (entry (codes "#mh/x") 3 []) [] refl refl refl refl refl

-- Two mailboxes that share a path, and one that has its own.
abbrev mailbox_at : List ℕ → List ℕ → SeedMailbox
mailbox_at name path = record { mailbox = name; relpath_key = path; uidvalidity = 7 }

abbrev mailboxes : List SeedMailbox
mailboxes =
    mailbox_at (codes "A b") (codes "a-b")
    ∷ mailbox_at (codes "A_b") (codes "a-b")
    ∷ mailbox_at (codes "INBOX") (codes "inbox")
    ∷ []

seed_run :
    seed_from_listing
      (codes "a-b/5.eml" ∷ codes "inbox/6.eml" ∷ codes "inbox/x.eml" ∷ [])
      mailboxes
      (codes "t")
    ≡ (entry (codes "INBOX") 6 (codes "t") ∷ [], codes "a-b" ∷ [])
unfolding seed_from_listing parse_uint
seed_run = refl

seed_found_example :
    get
      (record { mailbox = codes "INBOX"; uidvalidity = 7; uid = 6 })
      (seed_from_listing
        ((codes "a-b/5.eml" ∷ []) ++ (path_of (codes "inbox") 6 ∷ []))
        mailboxes
        (codes "t")).0
    ≡ some (codes "t")
unfolding owners
seed_found_example =
    seed_found (codes "a-b/5.eml" ∷ []) [] mailboxes (codes "t") (codes "inbox") 6
      (mailbox_at (codes "INBOX") (codes "inbox")) refl (omega arith)
