-- ===== src/Attachments.antt =====
-- src/commands/job/email_scan/bodystructure.rs: counting the attachments of new messages.
-- `uid_fetch`, the request to the server, is a parameter: it fails, or returns a stream of structures
-- and errors. The texts of errors are not read by the code, and are kept as they come.
pub mod Total
mod Runs
use pigeon_cli.Base.{
  ℕ, zero, suc, ◌+◌, ◌*◌, ◌/◌, ◌%◌, String, Bool, true, false, ◌||◌, Option, none, some, List, [],
  ◌∷◌,
}
use pigeon_cli.Base.Tests.{leb, if◌then◌else◌, u64_mod}
use pigeon_cli.Base.Lists.{length, take, drop, any}
use pigeon_cli.Base.Outcome.{Result, ok, err, ◌>>=◌}
use pigeon_cli.Base.Ascii.{codes, eq_ignore_ascii_case}

-- What is read of a leaf part: its disposition type, and the parameters of its content type.
pub record Leaf : Type 0 where
  pub disposition : Option (List ℕ)
  pub params : Option (List (List ℕ × List ℕ))

-- The tree of `imap_proto`, less the fields that are not read.
mutual
  pub data BodyStructure : Type 0 where
    basic text message : Leaf → BodyStructure
    multipart : Bodies → BodyStructure

  pub data Bodies : Type 0 where
    nil : Bodies
    cons : BodyStructure → Bodies → Bodies

abbrev pub attachment_word : List ℕ
attachment_word = codes "attachment"

abbrev pub name_word : List ℕ
name_word = codes "name"

pub is_attachment : Leaf → Bool
is_attachment leaf =
    let has_attachment_disposition : Bool = elim leaf.disposition [
      | none ↦ false
      | some ty ↦ eq_ignore_ascii_case ty attachment_word
    ] in
    let has_content_type_name : Bool = elim leaf.params [
      | none ↦ false
      | some params ↦ any (λ p. eq_ignore_ascii_case p.0 name_word) params
    ] in
    has_attachment_disposition || has_content_type_name

-- `u64::from(bool)`
abbrev pub bit : Bool → ℕ
bit true = 1
bit false = 0

mutual
  pub count_attachments : BodyStructure → ℕ
  count_attachments (basic leaf) = bit (is_attachment leaf)
  count_attachments (text leaf) = bit (is_attachment leaf)
  count_attachments (message leaf) = bit (is_attachment leaf)
  count_attachments (multipart bodies) = sum_attachments bodies

  pub sum_attachments : Bodies → ℕ
  sum_attachments nil = 0
  sum_attachments (cons b bs) = (count_attachments b + sum_attachments bs) % u64_mod

abbrev pub attachment_count_cap : ℕ
attachment_count_cap = 5000

abbrev pub fetch_batch_size : ℕ
fetch_batch_size = 50

pub within_cap : ℕ → Bool
within_cap total_new = leb total_new attachment_count_cap

pub record AttachmentCount : Type 0 where
  pub attachments : ℕ
  pub unparsed : ℕ

pub data BisectOutcome : Type 0 where
  fetched : ℕ → BisectOutcome
  poisoned : BisectOutcome
  retry : List ℕ → List ℕ → BisectOutcome

pub bisect_step : List ℕ → Result String ℕ → BisectOutcome
bisect_step batch (ok attachments) = fetched attachments
bisect_step batch (err e) =
    if leb (length batch) 1
    then poisoned
    else let mid = length batch / 2 in retry (take mid batch) (drop mid batch)

-- `slice::chunks`, on fuel: the length of the slice is enough.
pub chunks_fuel : ℕ → ℕ → List ℕ → List (List ℕ)
chunks_fuel zero size xs = []
chunks_fuel (suc fuel) size [] = []
chunks_fuel (suc fuel) size (x ∷ xs) =
    take size (x ∷ xs) ∷ chunks_fuel fuel size (drop size (x ∷ xs))

pub chunks : ℕ → List ℕ → List (List ℕ)
unfolding chunks_fuel
chunks size xs = chunks_fuel (length xs) size xs

-- The loop of `fetch_batch` over the stream.
pub add_fetches : List (Result String (Option BodyStructure)) → ℕ → Result String ℕ
add_fetches [] attachments = ok attachments
add_fetches (err e ∷ fetches) attachments = err e
add_fetches (ok none ∷ fetches) attachments = add_fetches fetches attachments
add_fetches (ok (some structure) ∷ fetches) attachments =
    add_fetches fetches ((attachments + count_attachments structure) % u64_mod)

-- `work` is the stack with its top first; `none` means that the fuel ran out.
module _ (uid_fetch : List ℕ → Result String (List (Result String (Option BodyStructure)))) where
  pub fetch_batch : List ℕ → Result String ℕ
  fetch_batch uids = do fetches ← uid_fetch uids; add_fetches fetches 0

  pub work_loop : ℕ → List (List ℕ) → AttachmentCount → Option AttachmentCount
  work_loop fuel [] count = some count
  work_loop zero (batch ∷ work) count = none
  work_loop (suc fuel) (batch ∷ work) count = elim (bisect_step batch (fetch_batch batch)) [
    | fetched attachments ↦
        work_loop fuel work
          (record count { attachments = (count.attachments + attachments) % u64_mod })
    | poisoned ↦
        work_loop fuel work (record count { unparsed = (count.unparsed + length batch) % u64_mod })
    | retry left right ↦ work_loop fuel (left ∷ right ∷ work) count
  ]

  -- The first chunk lies on top: the source reverses the chunks and pops from the end.
  pub count_new_attachments : List ℕ → Option AttachmentCount
  count_new_attachments uids =
      work_loop (2 * length uids) (chunks fetch_batch_size uids)
        (record { attachments = 0; unparsed = 0 })
