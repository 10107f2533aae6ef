-- ===== src/Ledger.antt =====
-- src/commands/job/email_import/ledger.rs: the record of the messages that were delivered.
-- The `BTreeMap` is its entries in the order of their keys; a text is its UTF-8 bytes.
pub mod Map
pub mod Row
pub mod RoundTrip
pub mod Seed
pub mod Seeded
pub mod Runs
use pigeon_cli.Base.{
  ℕ, ◌+◌, Bool, true, false, not, ◌&&◌, ◌||◌, Option, none, some, List, [], ◌∷◌, ◌++◌,
}
use pigeon_cli.Base.Tests.{ltb, leb, ◌==◌, if◌then◌else◌, u32_mod}
use pigeon_cli.Base.Lists.{length, take, all}
use pigeon_cli.Base.Text.{split_on, lines}
use pigeon_cli.Base.Ascii.{codes, bytes_eq}
use pigeon_cli.Base.Lines.{Write, not_opened, torn, whole}
use pigeon_cli.Base.Decimal.{show, parse_uint}
use pigeon_cli.Base.Outcome.{Result, ok, err}

pub record Key : Type 0 where
  pub mailbox : List ℕ
  pub uidvalidity : ℕ
  pub uid : ℕ

pub record LedgerEntry : Type 0 where
  pub key : Key
  pub ingested_at : List ℕ

abbrev pub Ledger : Type 0
Ledger = List LedgerEntry

-- The order of byte strings.
unfoldable pub bytes_lt : List ℕ → List ℕ → Bool
bytes_lt xs [] = false
bytes_lt [] (y ∷ ys) = true
bytes_lt (x ∷ xs) (y ∷ ys) = ltb x y || (x == y && bytes_lt xs ys)

-- The order of the keys: by mailbox, then the two numbers.
unfoldable pub key_lt : Key → Key → Bool
key_lt j k =
    bytes_lt j.mailbox k.mailbox
    || (bytes_eq j.mailbox k.mailbox
        && (ltb j.uidvalidity k.uidvalidity || (j.uidvalidity == k.uidvalidity && ltb j.uid k.uid)))

unfoldable pub same_key : Key → Key → Bool
same_key j k = bytes_eq j.mailbox k.mailbox && (j.uidvalidity == k.uidvalidity && j.uid == k.uid)

-- `BTreeMap::get` and `BTreeMap::insert`
unfoldable pub get : Key → Ledger → Option (List ℕ)
get k [] = none
get k (e ∷ l) = if same_key e.key k then some e.ingested_at else get k l

unfoldable pub map_insert : LedgerEntry → Ledger → Ledger
map_insert e [] = e ∷ []
map_insert e (f ∷ l) =
    let rest = map_insert e l in
    if same_key f.key e.key then e ∷ l else if key_lt e.key f.key then e ∷ f ∷ l else f ∷ rest

unfoldable pub insert : LedgerEntry → Ledger → Ledger
unfolding get map_insert bytes_lt
insert e l = elim (get e.key l) [
  | none ↦ map_insert e l
  | some existing ↦ if not (bytes_lt e.ingested_at existing) then l else map_insert e l
]

-- White space; that outside ASCII makes no difference, since no number is read from it.
abbrev pub is_white_space : ℕ → Bool
is_white_space c = c == b' ' || (leb 9 c && leb c 13)

abbrev pub starts_with_hash : List ℕ → Bool
starts_with_hash [] = false
starts_with_hash (c ∷ cs) = c == b'#'

unfoldable pub row_of : List (List ℕ) → Option LedgerEntry
unfolding parse_uint
row_of (mailbox ∷ uidvalidity ∷ uid ∷ ingested_at ∷ []) = elim (parse_uint u32_mod uidvalidity) [
  | none ↦ none
  | some v ↦ elim (parse_uint u32_mod uid) [
    | none ↦ none
    | some u ↦ some (record {
      key = record { mailbox = mailbox; uidvalidity = v; uid = u };
      ingested_at = ingested_at;
    })
  ]
]
row_of _ = none

unfoldable pub parse_line : List ℕ → Option LedgerEntry
unfolding split_on row_of
parse_line line =
    if all is_white_space line || starts_with_hash line then none else row_of (split_on 9 line)

abbrev pub insert_row : Option LedgerEntry → Ledger → Ledger
insert_row none l = l
insert_row (some e) l = insert e l

unfoldable pub collect : List (List ℕ) → Ledger → Ledger
unfolding parse_line insert
collect [] l = l
collect (line ∷ rest) l = collect rest (insert_row (parse_line line) l)

unfoldable pub parse : List ℕ → Ledger
unfolding collect lines
parse contents = collect (lines contents) []

abbrev pub ledger_header : List ℕ
ledger_header = codes "# mailbox\tuidvalidity\tuid\tingested_at"

-- A row, without the newline that every row ends in.
unfoldable pub row : LedgerEntry → List ℕ
unfolding show
row e =
    e.key.mailbox ++ (9 ∷ (show e.key.uidvalidity ++ (9 ∷ (show e.key.uid ++ (9 ∷ e.ingested_at)))))

unfoldable pub rows : Ledger → List ℕ
unfolding row
rows [] = []
rows (e ∷ l) = row e ++ (10 ∷ rows l)

unfoldable pub serialize : Ledger → List ℕ
unfolding rows
serialize l = ledger_header ++ (10 ∷ rows l)

-- The set of the UIDs, as a list.
unfoldable pub ingested_uids : List ℕ → ℕ → Ledger → List ℕ
ingested_uids mailbox uidvalidity [] = []
ingested_uids mailbox uidvalidity (e ∷ l) =
    let rest = ingested_uids mailbox uidvalidity l in
    if bytes_eq e.key.mailbox mailbox && e.key.uidvalidity == uidvalidity
    then e.key.uid ∷ rest
    else rest

abbrev pub bytes_of : Option (List ℕ) → List ℕ
bytes_of none = []
bytes_of (some contents) = contents

-- `LedgerSync::append`; the file is created on demand.
unfoldable pub append :
    Write → LedgerEntry → Option (List ℕ) → Result (Unit {0}) (Unit {0}) × Option (List ℕ)
unfolding row
append not_opened e file = (err tt, file)
append (torn n) e file = (err tt, some (bytes_of file ++ take n (row e ++ (10 ∷ []))))
append whole e file = (ok tt, some (bytes_of file ++ (row e ++ (10 ∷ []))))
