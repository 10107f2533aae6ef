-- ===== src/Dedup/Worker/Pool/Family.antt =====
-- What the members of an archive have from the item that they come from.
use pigeon_cli.Base.{
  ℕ, ◌≡◌, refl, ap, inl, inr, Bool, true, false, not, ◌||◌, Option, none, some, List, [], ◌∷◌, ◌++◌,
  map,
}
use pigeon_cli.Base.Tests.{leb, if◌then◌else◌, Bool-cases}
use pigeon_cli.Dedup.Manifest.{extension_of}
use pigeon_cli.Dedup.Place.{HashedFile}
use pigeon_cli.Dedup.Worker.{
  QueueItem, FailureCategory, ItemOutcome, ExtractedMember, Expansion, Disk, ItemAnswers,
  max_zip_depth, is_zip_key, removed, path_of, member_item, expand_outcome, expand_item, hash_item,
  handle_path, process_item, members_of, in_download, in_archive, in_hash, zip_expanded, hashed,
  skipped_apple_double, failed_in, expanded, not_opened_for, panicked,
}
use pigeon_cli.Dedup.Worker.Pool.{Handled, processed}
use pigeon_cli.Data.FileName.{is_apple_double_basename}

-- What an item is known by: its bucket alias, its root key, and its own key.
abbrev pub Label : Type 0
Label = List ℕ × List ℕ × List ℕ

abbrev pub label : QueueItem → Label
label item = (item.bucket_alias, item.root_key, item.display_key)

-- The members that an expansion gives, labelled as members of `item`.
abbrev pub given : QueueItem → Expansion → List Label
given item (expanded members dropped) =
    map
      (λ (m : ExtractedMember).
        (item.bucket_alias, item.root_key, item.display_key ++ (b'!' ∷ m.name)))
      members
given item _ = []

abbrev pub was_expanded : ItemOutcome → Bool
was_expanded (zip_expanded display_key depth members dropped) = true
was_expanded _ = false

-- The members that the archives gave, each with the alias and the root of its archive.
abbrev pub offspring : Handled → List Label
offspring h = if was_expanded h.outcome then given h.item h.answers.expansion else []

label-members :
    (item : QueueItem) (ms : List ExtractedMember)
    → map label (map (member_item item) ms)
      ≡ map
          (λ (m : ExtractedMember).
            (item.bucket_alias, item.root_key, item.display_key ++ (b'!' ∷ m.name)))
          ms
label-members item [] = refl
label-members item (m ∷ ms) = ap (◌∷◌ (label (member_item item m))) (label-members item ms)

-- What holds of each outcome that an item can have holds of the one that it has.
module _ (P : ItemOutcome → Type 0) (a : ItemAnswers) (item : QueueItem) where
  pub record EachOutcome : Type 0 where
    pub skips : P (skipped_apple_double item.depth)
    pub fails : (category : FailureCategory) → P (failed_in category)
    pub expands : P (expand_outcome item a.expansion)
    pub hashes : (file : HashedFile) → P (hashed item.depth file)

  expand_item-P : EachOutcome → (path : List ℕ) (disk : Disk) → P (expand_item a item path disk).0
  unfolding expand_item
  expand_item-P h path disk =
      elim (Bool-cases (leb max_zip_depth item.depth || not a.has_space_to_expand)) [
        | inl refused ↦ rw refused (h.fails in_archive)
        | inr fine ↦ rw fine h.expands
      ]

  hash_item-P : EachOutcome → (path : List ℕ) (disk : Disk) → P (hash_item a item path disk).0
  unfolding hash_item
  hash_item-P h path disk = go a.digest
    where
      go :
          (digest : Option (List ℕ))
          → P
              (elim digest as (λ _. ItemOutcome × Disk) [
                | none ↦ (failed_in in_hash, removed path disk)
                | some content_hash ↦ (
                  hashed item.depth (record {
                    original_key = item.display_key;
                    bucket_alias = item.bucket_alias;
                    scratch_path = path;
                    extension = extension_of item.display_key;
                    content_hash = content_hash;
                  }),
                  disk,
                )
              ]).0
      go none = h.fails in_hash
      go (some content_hash) = h.hashes _

  handle_path-P : EachOutcome → (found : Option (List ℕ) × Disk) → P (handle_path a item found).0
  handle_path-P h (none, disk) = h.fails in_download
  handle_path-P h (some path, disk) = elim (Bool-cases (is_zip_key item.display_key)) [
    | inl archive ↦ rw archive (expand_item-P h path disk)
    | inr file ↦ rw file (hash_item-P h path disk)
  ]

  pub process_item-P :
      EachOutcome → (buckets : List (List ℕ)) (disk : Disk) → P (process_item buckets a item disk).0
  unfolding process_item
  process_item-P h buckets disk = elim (Bool-cases (is_apple_double_basename item.display_key)) [
    | inl skipped ↦ rw skipped h.skips
    | inr wanted ↦ rw wanted (handle_path-P h (path_of buckets a item disk))
  ]

expand_outcome-offspring :
    (item : QueueItem) (x : Expansion)
    → map label (members_of (expand_outcome item x))
      ≡ (if was_expanded (expand_outcome item x) then given item x else [])
expand_outcome-offspring item (expanded ms dropped) = label-members item ms
expand_outcome-offspring item (not_opened_for error) = refl
expand_outcome-offspring item panicked = refl

pub processed-offspring :
    (buckets : List (List ℕ)) (a : ItemAnswers) (item : QueueItem) (disk : Disk)
    → map label (members_of (processed buckets a item disk).outcome)
      ≡ offspring (processed buckets a item disk)
unfolding processed
processed-offspring buckets a item disk =
    process_item-P
      (λ o. map label (members_of o) ≡ (if was_expanded o then given item a.expansion else [])) a
      item
      (record {
        skips = refl;
        fails = λ category. refl;
        expands = expand_outcome-offspring item a.expansion;
        hashes = λ file. refl;
      })
      buckets disk
