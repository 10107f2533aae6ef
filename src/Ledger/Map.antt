-- ===== src/Ledger/Map.antt =====
-- `Ledger::insert` as an operation on a finite map, and the order that it keeps.
use pigeon_cli.Base.{
  ℕ, ◌≡◌, refl, sym, ap, ◌∙◌, inl, inr, Bool, true, false, not, Option, none, some, List, [], ◌∷◌,
  arith,
}
use pigeon_cli.Base.Tests.{if◌then◌else◌, Bool-cases}
use pigeon_cli.Base.Lists.{All}
use pigeon_cli.Base.Text.{has}
use pigeon_cli.Base.Ascii.{bytes_eq, bytes_eq_refl, bytes_eq→eq}
use pigeon_cli.Ledger.{
  Key, LedgerEntry, Ledger, bytes_lt, key_lt, same_key, get, map_insert, insert, ingested_uids,
}

pub bytes_lt_irrefl : (xs : List ℕ) → bytes_lt xs xs ≡ false
unfolding bytes_lt
bytes_lt_irrefl [] = refl
bytes_lt_irrefl (x ∷ xs) = ground (arith, bytes_lt_irrefl xs)

pub bytes_lt_trans :
    (xs ys zs : List ℕ) → bytes_lt xs ys ≡ true → bytes_lt ys zs ≡ true → bytes_lt xs zs ≡ true
unfolding bytes_lt
bytes_lt_trans xs [] zs h k = cc
bytes_lt_trans xs (y ∷ ys) [] h k = cc
bytes_lt_trans [] (y ∷ ys) (z ∷ zs) h k = refl
bytes_lt_trans (x ∷ xs) (y ∷ ys) (z ∷ zs) h k = ground (arith, bytes_lt_trans xs ys zs)

pub bytes_lt_total :
    (xs ys : List ℕ) → bytes_lt xs ys ≡ false → bytes_eq xs ys ≡ false → bytes_lt ys xs ≡ true
unfolding bytes_lt
bytes_lt_total [] [] h k = cc
bytes_lt_total [] (y ∷ ys) h k = cc
bytes_lt_total (x ∷ xs) [] h k = refl
bytes_lt_total (x ∷ xs) (y ∷ ys) h k = ground (arith, bytes_lt_total xs ys)

pub same_key→eq : (j k : Key) → same_key j k ≡ true → j ≡ k
unfolding same_key
same_key→eq j k h = ground (arith, bytes_eq→eq j.mailbox k.mailbox)

pub same_key_refl : (k : Key) → same_key k k ≡ true
unfolding same_key
same_key_refl k = ground (arith, bytes_eq_refl k.mailbox)

pub same_key_sym : (j k : Key) → same_key j k ≡ false → same_key k j ≡ false
same_key_sym j k h = elim (Bool-cases (same_key k j)) [
  | inr other ↦ other
  | inl same ↦
      let e = same_key→eq k j same in ap (λ q. same_key q j) e ∙ sym (ap (λ q. same_key j q) e) ∙ h
]

same_key_right : (i j k : Key) → same_key i j ≡ true → same_key k j ≡ same_key k i
same_key_right i j k h = rw (same_key→eq i j h)

same_key-get : (j k : Key) (l : Ledger) → same_key j k ≡ true → get k l ≡ get j l
same_key-get j k l h = rw (same_key→eq j k h)

pub key_lt-same_key : (j k : Key) → key_lt j k ≡ true → same_key j k ≡ false
unfolding key_lt same_key
key_lt-same_key j k h = ground (arith, bytes_lt_irrefl j.mailbox, bytes_eq→eq j.mailbox k.mailbox)

pub key_lt_trans : (i j k : Key) → key_lt i j ≡ true → key_lt j k ≡ true → key_lt i k ≡ true
unfolding key_lt
key_lt_trans i j k h l = ground (
  arith,
  bytes_lt_trans i.mailbox j.mailbox k.mailbox,
  bytes_eq→eq i.mailbox j.mailbox,
  bytes_eq→eq j.mailbox k.mailbox,
  bytes_eq_refl i.mailbox,
)

key_lt_irrefl : (k : Key) → key_lt k k ≡ false
unfolding key_lt
key_lt_irrefl k = ground (arith, bytes_lt_irrefl k.mailbox)

pub key_lt_asym : (j k : Key) → key_lt j k ≡ true → key_lt k j ≡ false
key_lt_asym j k h = elim (Bool-cases (key_lt k j)) [
  | inr after ↦ after
  | inl back ↦ back ∙ sym (key_lt_trans k j k back h) ∙ key_lt_irrefl k
]

key_lt_total : (j k : Key) → key_lt j k ≡ false → same_key j k ≡ false → key_lt k j ≡ true
unfolding key_lt same_key
key_lt_total j k h l = ground (
  arith,
  bytes_lt_total j.mailbox k.mailbox,
  bytes_eq→eq j.mailbox k.mailbox,
  bytes_eq_refl j.mailbox,
)

-- What stands under a key after an insertion: the earlier of the two times.
abbrev pub earlier : Option (List ℕ) → List ℕ → List ℕ
earlier none at = at
earlier (some existing) at = if bytes_lt at existing then at else existing

get-map_insert :
    (e : LedgerEntry) (j : Key) (l : Ledger)
    → get j (map_insert e l) ≡ (if same_key e.key j then some e.ingested_at else get j l)
unfolding get map_insert
get-map_insert e j [] = refl
get-map_insert e j (f ∷ l) =
    ground (arith, same_key_right e.key j f.key, same_key→eq f.key e.key, get-map_insert e j l)

-- Inserting an entry leaves all other keys as they were, and under its own key there stands the earlier of
-- the time that was there and the new one.
pub get-insert :
    (e : LedgerEntry) (j : Key) (l : Ledger)
    → get j (insert e l)
      ≡ (if same_key e.key j then some (earlier (get e.key l) e.ingested_at) else get j l)
unfolding insert
get-insert e j l = go (get e.key l) refl
  where
    go :
        (found : Option (List ℕ))
        → get e.key l ≡ found
        → get j (elim found [
          | none ↦ map_insert e l
          | some existing ↦ if not (bytes_lt e.ingested_at existing) then l else map_insert e l
        ])
          ≡ (if same_key e.key j then some (earlier found e.ingested_at) else get j l)
    go none h = get-map_insert e j l
    go (some existing) h = ground (arith, get-map_insert e j l, same_key-get e.key j l)

-- The entries stand in the order of their keys, each key once.
abbrev pub IsLedger : Ledger → Type 0
IsLedger [] = Unit
IsLedger (e ∷ l) = All (λ (f : LedgerEntry). key_lt e.key f.key ≡ true) l × IsLedger l

key_lt-All :
    (j k : Key) (l : Ledger)
    → key_lt j k ≡ true
    → All (λ (f : LedgerEntry). key_lt k f.key ≡ true) l
    → All (λ (f : LedgerEntry). key_lt j f.key ≡ true) l
key_lt-All j k [] h hs = tt
key_lt-All j k (f ∷ l) h (g, hs) = (key_lt_trans j k f.key h g, key_lt-All j k l h hs)

map_insert-above :
    (j : Key) (e : LedgerEntry) (l : Ledger)
    → key_lt j e.key ≡ true
    → All (λ (f : LedgerEntry). key_lt j f.key ≡ true) l
    → All (λ (f : LedgerEntry). key_lt j f.key ≡ true) (map_insert e l)
unfolding map_insert
map_insert-above j e [] h hs = (h, tt)
map_insert-above j e (f ∷ l) h (g, hs) = elim (Bool-cases (same_key f.key e.key)) [
  | inl same ↦ rw same (h, hs)
  | inr differ ↦ elim (Bool-cases (key_lt e.key f.key)) [
    | inl before ↦ rw (differ, before) (h, (g, hs))
    | inr after ↦ rw (differ, after) (g, map_insert-above j e l h hs)
  ]
]

map_insert-IsLedger : (e : LedgerEntry) (l : Ledger) → IsLedger l → IsLedger (map_insert e l)
unfolding map_insert
map_insert-IsLedger e [] s = (tt, tt)
map_insert-IsLedger e (f ∷ l) (above, s) = elim (Bool-cases (same_key f.key e.key)) [
  | inl same ↦ rw same ((rw (same_key→eq f.key e.key same) at above), s)
  | inr differ ↦ elim (Bool-cases (key_lt e.key f.key)) [
    | inl before ↦ rw (differ, before) ((before, key_lt-All e.key f.key l before above), (above, s))
    | inr after ↦
        rw (differ, after)
          (
            map_insert-above f.key e l
                (key_lt_total e.key f.key after (same_key_sym f.key e.key differ)) above,
            map_insert-IsLedger e l s,
          )
  ]
]

-- An insertion keeps the entries in the order of their keys, each key once.
insert-IsLedger : (e : LedgerEntry) (l : Ledger) → IsLedger l → IsLedger (insert e l)
unfolding insert
insert-IsLedger e l s = go (get e.key l)
  where
    go :
        (found : Option (List ℕ))
        → IsLedger (elim found [
          | none ↦ map_insert e l
          | some existing ↦ if not (bytes_lt e.ingested_at existing) then l else map_insert e l
        ])
    go none = map_insert-IsLedger e l s
    go (some existing) = elim (Bool-cases (bytes_lt e.ingested_at existing)) [
      | inl sooner ↦ rw sooner (map_insert-IsLedger e l s)
      | inr later ↦ rw later s
    ]

abbrev pub is_some : Option (List ℕ) → Bool
is_some none = false
is_some (some at) = true

-- The UIDs that are returned for a mailbox and a generation are those of the entries under that
-- mailbox and that generation.
ingested_uids-get :
    (mailbox : List ℕ) (uidvalidity uid : ℕ) (l : Ledger)
    → has uid (ingested_uids mailbox uidvalidity l)
      ≡ is_some (get (record { mailbox = mailbox; uidvalidity = uidvalidity; uid = uid }) l)
unfolding ingested_uids get same_key
ingested_uids-get mailbox uidvalidity uid [] = refl
ingested_uids-get mailbox uidvalidity uid (e ∷ l) =
    ground (arith, ingested_uids-get mailbox uidvalidity uid l)
