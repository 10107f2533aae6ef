-- ===== src/Attachments/Runs.antt =====
-- Runs of the attachment count, and its theorem at a concrete server.
use pigeon_cli.Base.{ℕ, ◌%◌, ◌≡◌, refl, map, String, Bool, Option, none, some, List, [], ◌∷◌}
use pigeon_cli.Base.Tests.{◌==◌, if◌then◌else◌, u64_mod}
use pigeon_cli.Base.Lists.{any}
use pigeon_cli.Base.Ascii.{codes, eq_ignore_ascii_case}
use pigeon_cli.Base.Outcome.{Result, ok, err}
use pigeon_cli.Attachments.{
  BodyStructure, basic, multipart, nil, cons, count_attachments, count_new_attachments, fetch_batch,
  is_attachment,
}
use pigeon_cli.Attachments.Total.{IsServer, attachments_of, bad_of, count_new_attachments_total}

-- A plain text part and an attachment whose disposition is in capitals.
abbrev mixed : BodyStructure
mixed = multipart (
    cons (basic (record { disposition = none; params = none }))
      (cons (basic (record { disposition = some (codes "ATTACHMENT"); params = none })) nil))

mixed_count : count_attachments mixed ≡ 1
unfolding count_attachments is_attachment eq_ignore_ascii_case
mixed_count = refl

-- Message 7 does not parse.
abbrev is_seven : ℕ → Bool
is_seven u = u == 7

abbrev request : List ℕ → Result String (List (Result String (Option BodyStructure)))
request batch =
    if any is_seven batch then err "unparseable" else ok (map (λ u. ok (some mixed)) batch)

request-IsServer : IsServer (λ u. mixed) is_seven request
unfolding fetch_batch
request-IsServer = record { parses = λ batch h. rw h; fails = λ batch h. ("unparseable", rw h) }

count_new_attachments_total_example :
    count_new_attachments request (5 ∷ 7 ∷ 9 ∷ [])
    ≡ some (record {
      attachments =
          attachments_of (λ u. count_attachments mixed) is_seven (5 ∷ 7 ∷ 9 ∷ []) % u64_mod;
      unparsed = bad_of (λ u. count_attachments mixed) is_seven (5 ∷ 7 ∷ 9 ∷ []) % u64_mod;
    })
count_new_attachments_total_example =
    count_new_attachments_total (λ u. mixed) is_seven request-IsServer (5 ∷ 7 ∷ 9 ∷ [])
