-- ===== src/Ledger/Seeded.antt =====
-- What a seeded ledger holds.
use pigeon_cli.Base.{
  ℕ, ◌-◌, ◌<◌, ◌≡◌, refl, ap, ◌∙◌, inl, inr, true, false, not, Option, none, some, List, [], ◌∷◌,
  ◌++◌, arith,
}
use pigeon_cli.Base.Tests.{le→leb, leb, if◌then◌else◌, Bool-cases, u32_mod}
use pigeon_cli.Base.Lists.{take-append, drop-append, length-append, All, length}
use pigeon_cli.Base.Text.{has-append, has, rsplit_once, rsplit_once-append}
use pigeon_cli.Base.Strings.{strip_suffix}
use pigeon_cli.Base.Ascii.{bytes_eq_refl, codes}
use pigeon_cli.Base.Decimal.{show-digits, digits-has, show, parse_uint-show}
use pigeon_cli.Ledger.{
  key_lt, Key, LedgerEntry, Ledger, bytes_lt, same_key, get, map_insert, insert,
}
use pigeon_cli.Ledger.Map.{get-insert, bytes_lt_irrefl, same_key→eq, same_key_refl, earlier}
use pigeon_cli.Ledger.Seed.{
  SeedMailbox, owners, uid_of_stem, dir_and_file, row_of_owner, seed_row, insert_seed, seed_rows,
  seed_from_listing,
}

-- An entry of the one mailbox under its path.
abbrev pub IsOwned : List SeedMailbox → List ℕ → LedgerEntry → Type 0
IsOwned mailboxes at e =
    (o : SeedMailbox) × (dir : List ℕ) × (owners dir mailboxes ≡ o ∷ [])
    × (e.key.mailbox ≡ o.mailbox)
    × (e.key.uidvalidity ≡ o.uidvalidity)
    × (e.ingested_at ≡ at)

module _ {κ} (P : LedgerEntry → Type κ) where
  map_insert-All : (e : LedgerEntry) (l : Ledger) → P e → All P l → All P (map_insert e l)
  unfolding map_insert
  map_insert-All e [] p ps = (p, tt)
  map_insert-All e (f ∷ l) p (q, ps) = elim (Bool-cases (same_key f.key e.key)) [
    | inl same ↦ rw same (p, ps)
    | inr differ ↦ elim (Bool-cases (key_lt e.key f.key)) [
      | inl before ↦ rw (differ, before) (p, (q, ps))
      | inr after ↦ rw (differ, after) (q, map_insert-All e l p ps)
    ]
  ]

  insert-All : (e : LedgerEntry) (l : Ledger) → P e → All P l → All P (insert e l)
  unfolding insert
  insert-All e l p ps = go (get e.key l)
    where
      go :
          (found : Option (List ℕ))
          → All P (elim found [
            | none ↦ map_insert e l
            | some existing ↦ if not (bytes_lt e.ingested_at existing) then l else map_insert e l
          ])
      go none = map_insert-All e l p ps
      go (some existing) = elim (Bool-cases (bytes_lt e.ingested_at existing)) [
        | inl sooner ↦ rw sooner (map_insert-All e l p ps)
        | inr later ↦ rw later ps
      ]

row_of_owner-IsOwned :
    (mailboxes : List SeedMailbox) (at dir : List ℕ) (uid : Option ℕ) (os : List SeedMailbox)
    (l : Ledger)
    → owners dir mailboxes ≡ os
    → All (IsOwned mailboxes at) l
    → All (IsOwned mailboxes at) (insert_seed (row_of_owner at uid os) l)
row_of_owner-IsOwned mailboxes at dir none os l e h = h
row_of_owner-IsOwned mailboxes at dir (some uid) [] l e h = h
row_of_owner-IsOwned mailboxes at dir (some uid) (o ∷ []) l e h =
    insert-All (IsOwned mailboxes at) _ l (o, dir, e, refl, refl, refl) h
row_of_owner-IsOwned mailboxes at dir (some uid) (o ∷ p ∷ os) l e h = h

seed_rows-IsOwned :
    (mailboxes : List SeedMailbox) (at : List ℕ) (paths : List (List ℕ)) (l : Ledger)
    → All (IsOwned mailboxes at) l
    → All (IsOwned mailboxes at) (seed_rows mailboxes at paths l)
unfolding seed_rows seed_row
seed_rows-IsOwned mailboxes at [] l h = h
seed_rows-IsOwned mailboxes at (path ∷ paths) l h =
    let (dir, file) = dir_and_file path (rsplit_once b'/' path) in
    seed_rows-IsOwned mailboxes at paths (insert_seed (seed_row mailboxes at path) l) (
      row_of_owner-IsOwned mailboxes at dir (uid_of_stem (strip_suffix (codes ".eml") file))
        (owners dir mailboxes) l refl h)

-- Every row of a seeded ledger names the only mailbox under some path, with the generation of
-- that mailbox and the time of the seed.
seed-IsOwned :
    (listing : List (List ℕ)) (mailboxes : List SeedMailbox) (at : List ℕ)
    → All (IsOwned mailboxes at) (seed_from_listing listing mailboxes at).0
unfolding seed_from_listing
seed-IsOwned listing mailboxes at = seed_rows-IsOwned mailboxes at listing [] tt

earlier-IsOwned :
    (mailboxes : List SeedMailbox) (at : List ℕ) (k : Key) (l : Ledger)
    → All (IsOwned mailboxes at) l
    → earlier (get k l) at ≡ at
unfolding get
earlier-IsOwned mailboxes at k [] h = refl
earlier-IsOwned mailboxes at k (e ∷ l) ((o, dir, owned, m, v, t), h) =
    elim (Bool-cases (same_key e.key k)) [
      | inl same ↦ rw (same, t, bytes_lt_irrefl at) refl
      | inr differ ↦ rw differ (earlier-IsOwned mailboxes at k l h)
    ]

earlier_same : (at : List ℕ) → earlier (some at) at ≡ at
earlier_same at = rw (bytes_lt_irrefl at) refl

insert_stays :
    (e : LedgerEntry) (k : Key) (l : Ledger) (at : List ℕ)
    → e.ingested_at ≡ at
    → get k l ≡ some at
    → get k (insert e l) ≡ some at
insert_stays e k l at t h = elim (Bool-cases (same_key e.key k)) [
  | inr differ ↦ get-insert e k l ∙ rw differ h
  | inl same ↦
      let there : get e.key l ≡ some at = ap (λ q. get q l) (same_key→eq e.key k same) ∙ h in
      get-insert e k l ∙ rw (same, there, t) (ap some (earlier_same at))
]

insert_seed_stays :
    (at : List ℕ) (uid : Option ℕ) (os : List SeedMailbox) (k : Key) (l : Ledger)
    → get k l ≡ some at
    → get k (insert_seed (row_of_owner at uid os) l) ≡ some at
insert_seed_stays at none os k l h = h
insert_seed_stays at (some uid) [] k l h = h
insert_seed_stays at (some uid) (o ∷ []) k l h = insert_stays _ k l at refl h
insert_seed_stays at (some uid) (o ∷ p ∷ os) k l h = h

seed_rows_stays :
    (mailboxes : List SeedMailbox) (at : List ℕ) (paths : List (List ℕ)) (k : Key) (l : Ledger)
    → get k l ≡ some at
    → get k (seed_rows mailboxes at paths l) ≡ some at
unfolding seed_rows seed_row
seed_rows_stays mailboxes at [] k l h = h
seed_rows_stays mailboxes at (path ∷ paths) k l h =
    let (dir, file) = dir_and_file path (rsplit_once b'/' path) in
    seed_rows_stays mailboxes at paths k (insert_seed (seed_row mailboxes at path) l) (
      insert_seed_stays at (uid_of_stem (strip_suffix (codes ".eml") file)) (owners dir mailboxes) k
        l h)

seed_rows-append :
    (mailboxes : List SeedMailbox) (at : List ℕ) (before after : List (List ℕ)) (l : Ledger)
    → seed_rows mailboxes at (before ++ after) l
      ≡ seed_rows mailboxes at after (seed_rows mailboxes at before l)
unfolding seed_rows
seed_rows-append mailboxes at [] after l = refl
seed_rows-append mailboxes at (path ∷ before) after l =
    seed_rows-append mailboxes at before after (insert_seed (seed_row mailboxes at path) l)

strip_suffix-append : (stem suffix : List ℕ) → strip_suffix suffix (stem ++ suffix) ≡ some stem
strip_suffix-append stem suffix =
    let size : length (stem ++ suffix) - length suffix ≡ length stem =
      omega (arith, length-append stem suffix) in
    let long : leb (length suffix) (length (stem ++ suffix)) ≡ true =
      le→leb _ _ (omega (arith, length-append stem suffix)) in
    rw (long, size, drop-append stem suffix, take-append stem suffix, bytes_eq_refl suffix) refl

file_no_slash : (uid : ℕ) → has b'/' (show uid ++ codes ".eml") ≡ false
file_no_slash uid = ground (
  arith,
  has-append b'/' (show uid) (codes ".eml"),
  digits-has b'/' (show uid) refl (show-digits uid),
)

abbrev pub path_of : List ℕ → ℕ → List ℕ
path_of dir uid = dir ++ (b'/' ∷ (show uid ++ codes ".eml"))

seed_row-path_of :
    (mailboxes : List SeedMailbox) (at dir : List ℕ) (uid : ℕ)
    → uid < u32_mod
    → seed_row mailboxes at (path_of dir uid) ≡ row_of_owner at (some uid) (owners dir mailboxes)
unfolding seed_row
seed_row-path_of mailboxes at dir uid fits =
    rw
      (
        rsplit_once-append b'/' dir (show uid ++ codes ".eml") (file_no_slash uid),
        strip_suffix-append (show uid) (codes ".eml"),
        parse_uint-show u32_mod uid fits,
      )
      refl

-- A message that was delivered under the path of exactly one mailbox is in the seeded ledger, wherever
-- its object stands in the listing, if its UID fits 32 bits.
pub seed_found :
    (before after : List (List ℕ)) (mailboxes : List SeedMailbox) (at dir : List ℕ) (uid : ℕ)
    (owner : SeedMailbox)
    → owners dir mailboxes ≡ owner ∷ []
    → uid < u32_mod
    → get
        (record { mailbox = owner.mailbox; uidvalidity = owner.uidvalidity; uid = uid })
        (seed_from_listing (before ++ (path_of dir uid ∷ after)) mailboxes at).0
      ≡ some at
unfolding seed_from_listing seed_rows
seed_found before after mailboxes at dir uid owner only fits =
    let k : Key = record { mailbox = owner.mailbox; uidvalidity = owner.uidvalidity; uid = uid } in
    let e : LedgerEntry = record { key = k; ingested_at = at } in
    let l = seed_rows mailboxes at before [] in
    let row_is : seed_row mailboxes at (path_of dir uid) ≡ some e =
      seed_row-path_of mailboxes at dir uid fits ∙ ap (row_of_owner at (some uid)) only in
    let here_now : get k (insert e l) ≡ some at =
      get-insert e k l
      ∙ rw (same_key_refl k) (
          ap some
            (earlier-IsOwned mailboxes at k l (seed_rows-IsOwned mailboxes at before [] tt))) in
    ap (get k) (seed_rows-append mailboxes at before (path_of dir uid ∷ after) [])
    ∙ ap (λ m. get k (seed_rows mailboxes at after (insert_seed m l))) row_is
    ∙ seed_rows_stays mailboxes at after k (insert e l) here_now
