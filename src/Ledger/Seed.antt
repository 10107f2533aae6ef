-- ===== src/Ledger/Seed.antt =====
-- `seed_from_listing`: the first ledger of an identity, from a listing of what was delivered.
use pigeon_cli.Base.{ℕ, Option, none, some, List, [], ◌∷◌}
use pigeon_cli.Base.Tests.{ltb, if◌then◌else◌, u32_mod}
use pigeon_cli.Base.Lists.{length}
use pigeon_cli.Base.Text.{rsplit_once}
use pigeon_cli.Base.Strings.{strip_suffix}
use pigeon_cli.Base.Ascii.{codes, bytes_eq}
use pigeon_cli.Base.Decimal.{parse_uint}
use pigeon_cli.Ledger.{LedgerEntry, Ledger, bytes_lt, insert}

pub record SeedMailbox : Type 0 where
  pub mailbox : List ℕ
  pub relpath_key : List ℕ
  pub uidvalidity : ℕ

-- `by_relpath`: the mailboxes under one path, in their order.
unfoldable pub owners : List ℕ → List SeedMailbox → List SeedMailbox
owners dir [] = []
owners dir (m ∷ ms) =
    let rest = owners dir ms in if bytes_eq m.relpath_key dir then m ∷ rest else rest

-- A sorted list of distinct paths.
abbrev pub insert_path : List ℕ → List (List ℕ) → List (List ℕ)
insert_path p [] = p ∷ []
insert_path p (q ∷ qs) =
    let rest = insert_path p qs in
    if bytes_eq q p then q ∷ qs else if bytes_lt p q then p ∷ q ∷ qs else q ∷ rest

unfoldable pub ambiguous_from : List SeedMailbox → List SeedMailbox → List (List ℕ)
unfolding owners
ambiguous_from mailboxes [] = []
ambiguous_from mailboxes (m ∷ ms) =
    let rest = ambiguous_from mailboxes ms in
    if ltb 1 (length (owners m.relpath_key mailboxes)) then insert_path m.relpath_key rest else rest

abbrev pub uid_of_stem : Option (List ℕ) → Option ℕ
uid_of_stem none = none
uid_of_stem (some stem) = parse_uint u32_mod stem

abbrev pub dir_and_file : List ℕ → Option (List ℕ × List ℕ) → List ℕ × List ℕ
dir_and_file path none = ([], path)
dir_and_file path (some parts) = parts

abbrev pub row_of_owner : List ℕ → Option ℕ → List SeedMailbox → Option LedgerEntry
row_of_owner at (some uid) (owner ∷ []) = some (record {
  key = record { mailbox = owner.mailbox; uidvalidity = owner.uidvalidity; uid = uid };
  ingested_at = at;
})
row_of_owner at _ _ = none

-- The row of one listed path, if it names a message of exactly one mailbox.
unfoldable pub seed_row : List SeedMailbox → List ℕ → List ℕ → Option LedgerEntry
unfolding rsplit_once owners
seed_row mailboxes at path =
    let (dir, file) = dir_and_file path (rsplit_once b'/' path) in
    row_of_owner at (uid_of_stem (strip_suffix (codes ".eml") file)) (owners dir mailboxes)

abbrev pub insert_seed : Option LedgerEntry → Ledger → Ledger
insert_seed none l = l
insert_seed (some e) l = insert e l

unfoldable pub seed_rows : List SeedMailbox → List ℕ → List (List ℕ) → Ledger → Ledger
unfolding seed_row insert
seed_rows mailboxes at [] l = l
seed_rows mailboxes at (path ∷ paths) l =
    seed_rows mailboxes at paths (insert_seed (seed_row mailboxes at path) l)

unfoldable pub seed_from_listing :
    List (List ℕ) → List SeedMailbox → List ℕ → Ledger × List (List ℕ)
unfolding seed_rows ambiguous_from
seed_from_listing listing mailboxes at =
    (seed_rows mailboxes at listing [], ambiguous_from mailboxes mailboxes)
