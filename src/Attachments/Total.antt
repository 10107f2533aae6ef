-- ===== src/Attachments/Total.antt =====
-- What `count_new_attachments` counts.
use pigeon_cli.Base.{
  ap, map, ℕ, zero, suc, ◌+◌, ◌*◌, ◌/◌, ◌%◌, ◌-◌, ◌≤◌, ◌<◌, ◌≡◌, refl, max, String, Bool, true,
  false, Option, some, List, [], ◌∷◌, ◌++◌, arith, inl, inr, sym, ◌∙◌, ap, map,
}
use pigeon_cli.Base.Tests.{leb, if◌then◌else◌, u64_mod, Bool-cases}
use pigeon_cli.Base.Lists.{
  length, take, drop, any, length-take, length-drop, length-take-drop, take-append-drop,
}
use pigeon_cli.Base.Outcome.{Result, ok, err}
use pigeon_cli.Attachments.{
  BodyStructure, count_attachments, add_fetches, fetch_batch, AttachmentCount, bisect_step, chunks,
  chunks_fuel, work_loop, count_new_attachments, fetch_batch_size,
}

abbrev joined : (List ℕ → ℕ) → List (List ℕ) → ℕ
joined f [] = 0
joined f (b ∷ bs) = f b + joined f bs

-- The attachments of the messages that parse, and the number of those that do not.
module _ (weight : ℕ → ℕ) (bad : ℕ → Bool) where
  abbrev pub attachments_of : List ℕ → ℕ
  attachments_of [] = 0
  attachments_of (u ∷ us) = (if bad u then 0 else weight u) + attachments_of us

  abbrev pub bad_of : List ℕ → ℕ
  bad_of [] = 0
  bad_of (u ∷ us) = (if bad u then 1 else 0) + bad_of us

  attachments_of-append :
      (us vs : List ℕ) → attachments_of (us ++ vs) ≡ attachments_of us + attachments_of vs
  attachments_of-append [] vs = omega arith
  attachments_of-append (u ∷ us) vs = omega (arith, attachments_of-append us vs)

  bad_of-append : (us vs : List ℕ) → bad_of (us ++ vs) ≡ bad_of us + bad_of vs
  bad_of-append [] vs = omega arith
  bad_of-append (u ∷ us) vs = omega (arith, bad_of-append us vs)

-- What is assumed of the server: it returns the structure of each message in order, and a request
-- fails if one of its messages has a structure that does not parse.
pub record IsServer (structure : ℕ → BodyStructure) (bad : ℕ → Bool)
    (uid_fetch : List ℕ → Result String (List (Result String (Option BodyStructure))))
    : Type 0 where
  pub parses :
      (batch : List ℕ)
      → any bad batch ≡ false
      → uid_fetch batch ≡ ok (map (λ u. ok (some (structure u))) batch)
  pub fails :
      (batch : List ℕ) → any bad batch ≡ true → (e : String) × (fetch_batch uid_fetch batch ≡ err e)

-- The rounds of the loop that a batch of the stack may take.
abbrev pub step_weight : List ℕ → ℕ
step_weight b = max 1 (2 * length b - 1)

poisoned_batch :
    (weight : ℕ → ℕ) (bad : ℕ → Bool) (batch : List ℕ)
    → any bad batch ≡ true
    → leb (length batch) 1 ≡ true
    → (bad_of weight bad batch ≡ length batch) × (attachments_of weight bad batch ≡ 0)
poisoned_batch weight bad [] h small = cc
poisoned_batch weight bad (u ∷ []) h small = ground arith
poisoned_batch weight bad (u ∷ v ∷ us) h small = absurd (ground arith)

-- Both halves of a split batch, counted together, are the batch.
split_batch :
    (weight : ℕ → ℕ) (bad : ℕ → Bool) (mid : ℕ) (batch : List ℕ)
    → (attachments_of weight bad (take mid batch) + attachments_of weight bad (drop mid batch)
        ≡ attachments_of weight bad batch)
      × (bad_of weight bad (take mid batch) + bad_of weight bad (drop mid batch)
          ≡ bad_of weight bad batch)
split_batch weight bad mid batch = (
  sym (attachments_of-append weight bad (take mid batch) (drop mid batch))
      ∙ ap (attachments_of weight bad) (take-append-drop mid batch),
  sym (bad_of-append weight bad (take mid batch) (drop mid batch))
      ∙ ap (bad_of weight bad) (take-append-drop mid batch),
)

split_weight :
    (batch : List ℕ)
    → leb (length batch) 1 ≡ false
    → step_weight (take (length batch / 2) batch) + step_weight (drop (length batch / 2) batch)
      < step_weight batch
split_weight batch h = ground (
  arith,
  length-take (length batch / 2) batch (omega arith),
  length-drop (length batch / 2) batch,
)

module _ (structure : ℕ → BodyStructure) (bad : ℕ → Bool)
    {uid_fetch : List ℕ → Result String (List (Result String (Option BodyStructure)))}
    (server : IsServer structure bad uid_fetch) where
  abbrev weight : ℕ → ℕ
  weight u = count_attachments (structure u)

  add_fetches-map :
      (batch : List ℕ) (n : ℕ)
      → any bad batch ≡ false
      → add_fetches (map (λ u. ok (some (structure u))) batch) (n % u64_mod)
        ≡ ok ((n + attachments_of weight bad batch) % u64_mod)
  unfolding add_fetches
  add_fetches-map [] n h = ap ok (omega arith)
  add_fetches-map (u ∷ us) n h =
      let regroup : (n % u64_mod + weight u) % u64_mod ≡ (n + weight u) % u64_mod = omega arith in
      ap (add_fetches (map (λ u. ok (some (structure u))) us)) regroup
      ∙ add_fetches-map us (n + weight u) (ground arith)
      ∙ ap ok (ground arith)

  bad_of-zero : (batch : List ℕ) → any bad batch ≡ false → bad_of weight bad batch ≡ 0
  bad_of-zero [] h = refl
  bad_of-zero (u ∷ us) h = ground (arith, bad_of-zero us)

  fetch_batch-ok :
      (batch : List ℕ)
      → any bad batch ≡ false
      → fetch_batch uid_fetch batch ≡ ok (attachments_of weight bad batch % u64_mod)
  unfolding fetch_batch
  fetch_batch-ok batch h =
      rw (server.parses batch h) (add_fetches-map batch 0 h ∙ ap ok (omega arith))

  abbrev counted : ℕ → ℕ → AttachmentCount
  counted a p = record { attachments = a % u64_mod; unparsed = p % u64_mod }

  -- One round on a batch that parses, on a single message that does not, and on any other.
  round_ok :
      (fuel : ℕ) (batch : List ℕ) (work : List (List ℕ)) (a p : ℕ)
      → any bad batch ≡ false
      → work_loop uid_fetch (suc fuel) (batch ∷ work) (counted a p)
        ≡ work_loop uid_fetch fuel work
            (counted (a + attachments_of weight bad batch) (p + bad_of weight bad batch))
  unfolding work_loop bisect_step
  round_ok fuel batch work a p h = ground (arith, fetch_batch-ok batch h, bad_of-zero batch h)

  round_poisoned :
      (fuel : ℕ) (batch : List ℕ) (work : List (List ℕ)) (a p : ℕ)
      → any bad batch ≡ true
      → leb (length batch) 1 ≡ true
      → work_loop uid_fetch (suc fuel) (batch ∷ work) (counted a p)
        ≡ work_loop uid_fetch fuel work
            (counted (a + attachments_of weight bad batch) (p + bad_of weight bad batch))
  unfolding work_loop bisect_step
  round_poisoned fuel batch work a p h small =
      let (e, failed) = server.fails batch h in
      ground (arith, failed, poisoned_batch weight bad batch h small)

  round_split :
      (fuel : ℕ) (batch : List ℕ) (work : List (List ℕ)) (c : AttachmentCount)
      → any bad batch ≡ true
      → leb (length batch) 1 ≡ false
      → work_loop uid_fetch (suc fuel) (batch ∷ work) c
        ≡ work_loop uid_fetch fuel
            (take (length batch / 2) batch ∷ drop (length batch / 2) batch ∷ work)
            c
  unfolding work_loop bisect_step
  round_split fuel batch work c h big =
      let (e, failed) = server.fails batch h in ground (arith, failed)

  work_loop-total :
      (fuel : ℕ) (work : List (List ℕ)) (a p : ℕ)
      → joined step_weight work ≤ fuel
      → work_loop uid_fetch fuel work (counted a p)
        ≡ some (
            counted
              (a + joined (attachments_of weight bad) work)
              (p + joined (bad_of weight bad) work))
  work_loop-total fuel [] a p h = unfold work_loop in ground arith
  work_loop-total zero (batch ∷ work) a p h = absurd (omega arith)
  work_loop-total (suc fuel) (batch ∷ work) a p h =
      let rest =
        work_loop-total fuel work (a + attachments_of weight bad batch)
          (p + bad_of weight bad batch) in
      elim (Bool-cases (any bad batch)) [
        | inl broken ↦ elim (Bool-cases (leb (length batch) 1)) [
          | inl small ↦
              round_poisoned fuel batch work a p broken small ∙ onward (rest (omega arith))
          | inr big ↦
              round_split fuel batch work (counted a p) broken big
              ∙ work_loop-total fuel
                  (take (length batch / 2) batch ∷ drop (length batch / 2) batch ∷ work) a p
                  (omega (arith, split_weight batch big))
              ∙ ground (arith, split_batch weight bad (length batch / 2) batch)
        ]
        | inr sound ↦ round_ok fuel batch work a p sound ∙ onward (rest (omega arith))
      ]
    where
      onward :
          work_loop uid_fetch fuel work
              (counted (a + attachments_of weight bad batch) (p + bad_of weight bad batch))
            ≡ some (
                counted
                  (a + attachments_of weight bad batch + joined (attachments_of weight bad) work)
                  (p + bad_of weight bad batch + joined (bad_of weight bad) work))
          → work_loop uid_fetch fuel work
              (counted (a + attachments_of weight bad batch) (p + bad_of weight bad batch))
            ≡ some (
                counted
                  (a + joined (attachments_of weight bad) (batch ∷ work))
                  (p + joined (bad_of weight bad) (batch ∷ work)))
      onward ih = ground (arith, ih)

  chunks_fuel-joined :
      (fuel : ℕ) (uids : List ℕ)
      → length uids ≤ fuel
      → (joined (attachments_of weight bad) (chunks_fuel fuel fetch_batch_size uids)
          ≡ attachments_of weight bad uids)
        × (joined (bad_of weight bad) (chunks_fuel fuel fetch_batch_size uids)
            ≡ bad_of weight bad uids)
        × (joined step_weight (chunks_fuel fuel fetch_batch_size uids) ≤ 2 * length uids)
  unfolding chunks_fuel
  chunks_fuel-joined zero [] h = (refl, refl, omega arith)
  chunks_fuel-joined zero (u ∷ us) h = absurd (omega arith)
  chunks_fuel-joined (suc fuel) [] h = (refl, refl, omega arith)
  chunks_fuel-joined (suc fuel) (u ∷ us) h =
      let (weights, bads, rounds) =
        chunks_fuel-joined fuel (drop 49 us) (omega (arith, length-drop 49 us)) in
      let (weights', bads') = split_batch weight bad 49 us in
      (
        omega (arith, weights, weights'),
        omega (arith, bads, bads'),
        omega (arith, rounds, length-take-drop 49 us),
      )

  -- Against a server that answers a batch without an unparseable message with the structures of
  -- its messages, and fails any other batch, the loop ends within its fuel. It counts the attachments of the
  -- messages whose structure parses, and the messages whose structure does not: a message that does not
  -- parse costs no other message its count. Both counts are modulo 2 ^ 64.
  pub count_new_attachments_total :
      (uids : List ℕ)
      → count_new_attachments uid_fetch uids
        ≡ some (record {
          attachments = attachments_of (λ u. count_attachments (structure u)) bad uids % u64_mod;
          unparsed = bad_of (λ u. count_attachments (structure u)) bad uids % u64_mod;
        })
  unfolding count_new_attachments chunks
  count_new_attachments_total uids =
      let (weights, bads, rounds) = chunks_fuel-joined (length uids) uids (omega arith) in
      work_loop-total (2 * length uids) (chunks fetch_batch_size uids) 0 0 rounds
      ∙ ground (arith, weights, bads)
