-- ===== src/Dedup/Place/Dated.antt =====
-- A dated copy is kept in front of an undated one.
use pigeon_cli.Base.{ℕ, ◌≡◌, ◌⊎◌, false, List, [], ◌∷◌}
use pigeon_cli.Base.Lists.{All}
use pigeon_cli.Base.Assoc.{Assoc}
use pigeon_cli.Dedup.Place.{HashedFile, MergeRecord, in_front, Placing}
use pigeon_cli.Dedup.Place.Keys.{Location, key_at, IsUndated}
use pigeon_cli.Data.ContentIndex.{ContentIndexEntry, ContentIndex}
use pigeon_cli.Ledger.{bytes_lt}
use pigeon_cli.Base.Assoc

-- `in_front` never holds from a later key to an earlier one.
abbrev NotInFront : List ℕ → List ℕ → Type 0
NotInFront a b = in_front a b ≡ false

-- No file behind `key` comes strictly in front of it.
abbrev Behind : List ℕ → List HashedFile → Type 0
Behind key fs = All (λ (g : HashedFile). NotInFront g.original_key key) fs

abbrev IsSorted : List HashedFile → Type 0
IsSorted [] = Unit
IsSorted (f ∷ fs) = Behind f.original_key fs × IsSorted fs

-- Every entry of the index came from a file with none of the remaining ones strictly in front.
abbrev Entries : List HashedFile → Assoc ContentIndexEntry → Type 0
Entries fs m = All (λ (e : List ℕ × ContentIndexEntry). Behind e.1.original_key fs) m

-- A record whose kept copy is not one that the duplicate comes strictly in front of.
abbrev KeepsFirst : MergeRecord → Type 0
KeepsFirst r = NotInFront r.duplicate_key r.kept_original_key

-- The remaining files are behind everything in the index, and the records are as they should be.
abbrev IsOrderly : List HashedFile → Placing → Type 0
IsOrderly fs p = IsSorted fs × Entries fs p.store.index.entries × All KeepsFirst p.records

-- What `in_front` decides on two keys of files in folders and archives.
abbrev Kept : Location → Location → Type 0
Kept kept duplicate =
    ((¬ IsUndated kept) × IsUndated duplicate)
    ⊎ ((bytes_lt (key_at duplicate) (key_at kept) ≡ false)
        × ((IsUndated kept × IsUndated duplicate) ⊎ ((¬ IsUndated kept) × (¬ IsUndated duplicate))))
