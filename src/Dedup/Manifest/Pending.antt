-- ===== src/Dedup/Manifest/Pending.antt =====
-- What is gathered: nothing that is done, everything else, and a summary that adds up.
use pigeon_cli.Base.{
  ℕ, suc, ◌+◌, ◌≡◌, refl, sym, ap, subst, ◌∙◌, inl, inr, true, ◌||◌, Option, List, [], ◌∷◌, ◌++◌,
  map, append-nil, append_assoc, arith,
}
use pigeon_cli.Base.Tests.{if◌then◌else◌, Bool-cases}
use pigeon_cli.Base.Lists.{length, all, All, length-append}
use pigeon_cli.Base.Lines.{is_closed}
use pigeon_cli.Base.Ascii.{bytes_eq_refl}
use pigeon_cli.Base.Outcome.{Result, ok, err}
use pigeon_cli.Data.ContentIndex.{bytes_of}
use pigeon_cli.Dedup.Manifest.{
  extension_of, DeduplicateTask, TypeSummary, DeduplicatePlan, Place, same_place, holds,
  is_checkpointed, Listed, tally, task_of, with_task, classify, Listing, gather_buckets, empty_plan,
  gather_pending,
}
use pigeon_cli.Dedup.Manifest.Checkpoint.{
  IsPlace, append_all, read_of, places_of, load_checkpoint-read_of, load_checkpoint-append_all,
}

abbrev pub place_of_task : DeduplicateTask → Place
place_of_task t = (t.bucket_alias, t.key)

abbrev pub counted : List TypeSummary → ℕ
counted [] = 0
counted (t ∷ ts) = t.count + counted ts

-- What of a listing is still to be done.
unfoldable pub pending : List Place → List ℕ → List Listed → List DeduplicateTask
pending done bucket_alias [] = []
pending done bucket_alias (e ∷ es) =
    let rest = pending done bucket_alias es in
    if is_checkpointed done bucket_alias e.path then rest else task_of bucket_alias e ∷ rest

unfoldable pub pending_all : List Place → List Listing → List DeduplicateTask
unfolding pending
pending_all done [] = []
pending_all done ((bucket_alias, err e) ∷ rest) = []
pending_all done ((bucket_alias, ok entries) ∷ rest) =
    pending done bucket_alias entries ++ pending_all done rest

counted-tally :
    (ext : List ℕ) (size : ℕ) (ts : List TypeSummary)
    → counted (tally ext size ts) ≡ suc (counted ts)
unfolding tally
counted-tally ext size [] = refl
counted-tally ext size (t ∷ ts) = ground (arith, counted-tally ext size ts)

-- What a plan has gained.
record Gains (plan : DeduplicatePlan) (more : List DeduplicateTask) (plan' : DeduplicatePlan)
    : Type 0 where
  tasks : plan'.tasks ≡ plan.tasks ++ more
  count : counted plan'.type_summary ≡ counted plan.type_summary + length more

classify-pending :
    (done : List Place) (bucket_alias : List ℕ) (es : List Listed) (plan : DeduplicatePlan)
    → Gains plan (pending done bucket_alias es) (classify done bucket_alias es plan)
unfolding classify pending
classify-pending done bucket_alias [] plan = record {
  tasks = sym (append-nil plan.tasks);
  count = omega arith;
}
classify-pending done bucket_alias (e ∷ es) plan =
    elim (Bool-cases (is_checkpointed done bucket_alias e.path)) [
      | inl old ↦ rw old (classify-pending done bucket_alias es plan)
      | inr fresh ↦
          let behind = classify-pending done bucket_alias es (with_task bucket_alias e plan) in
          rw fresh (record {
            tasks =
                behind.tasks
                ∙ append_assoc plan.tasks (task_of bucket_alias e ∷ [])
                    (pending done bucket_alias es);
            count =
                ground (
                  arith,
                  behind.count,
                  counted-tally (extension_of e.path) e.size plan.type_summary,
                );
          })
    ]

ok-injective {ℓ κ} :
    {E : Type ℓ} {A : Type κ} {x y : A} → ◌≡◌ {A = Result E A} (ok x) (ok y) → x ≡ y
ok-injective {x = x} h = ap (λ r. elim r [ ok a ↦ a | err e ↦ x ]) h

gather_buckets-pending :
    (done : List Place) (ls : List Listing) (plan plan' : DeduplicatePlan)
    → gather_buckets done ls plan ≡ ok plan'
    → Gains plan (pending_all done ls) plan'
unfolding gather_buckets pending_all
gather_buckets-pending done [] plan plan' h =
    let same : plan ≡ plan' = ok-injective h in
    subst (Gains plan []) same (record { tasks = sym (append-nil plan.tasks); count = omega arith })
gather_buckets-pending done ((bucket_alias, err e) ∷ ls) plan plan' h = cc
gather_buckets-pending done ((bucket_alias, ok es) ∷ ls) plan plan' h =
    let behind = gather_buckets-pending done ls (classify done bucket_alias es plan) plan' h in
    let here = classify-pending done bucket_alias es plan in
    record {
      tasks =
          behind.tasks
          ∙ ap (λ l. l ++ pending_all done ls) here.tasks
          ∙ append_assoc plan.tasks (pending done bucket_alias es) (pending_all done ls);
      count = ground (
        arith,
        behind.count,
        here.count,
        length-append (pending done bucket_alias es) (pending_all done ls),
      );
    }

pub same_place_refl : (p : Place) → same_place p p ≡ true
same_place_refl (a, k) = rw (bytes_eq_refl a, bytes_eq_refl k) refl

holds-append : (p : Place) (xs ys : List Place) → holds p (xs ++ ys) ≡ (holds p xs || holds p ys)
holds-append p [] ys = refl
holds-append p (x ∷ xs) ys = ground (arith, holds-append p xs ys)

checkpointed_append :
    (done more : List Place) (bucket_alias key : List ℕ)
    → is_checkpointed done bucket_alias key ≡ true
    → is_checkpointed (done ++ more) bucket_alias key ≡ true
unfolding is_checkpointed
checkpointed_append done more bucket_alias key h =
    rw (holds-append (bucket_alias, key) done more, holds-append ([], key) done more) (ground arith)

abbrev Marked : List Place → DeduplicateTask → Type 0
Marked done t = is_checkpointed done t.bucket_alias t.key ≡ true

checkpointed_self :
    (done more : List Place) (t : DeduplicateTask) → Marked (done ++ (place_of_task t ∷ more)) t
unfolding is_checkpointed
checkpointed_self done more t =
    rw
      (
        holds-append (place_of_task t) done (place_of_task t ∷ more),
        same_place_refl (place_of_task t),
      )
      (ground arith)

Marked-append :
    (done : List Place) (ts : List DeduplicateTask) → All (Marked (done ++ map place_of_task ts)) ts
Marked-append done [] = tt
Marked-append done (t ∷ ts) = (
  checkpointed_self done (map place_of_task ts) t,
  subst (λ l. All (Marked l) ts) (append_assoc done (place_of_task t ∷ []) (map place_of_task ts))
      (Marked-append (done ++ (place_of_task t ∷ [])) ts),
)

All-parts {ℓ κ} :
    {A : Type ℓ} (P : A → Type κ) (xs ys : List A) → All P (xs ++ ys) → All P xs × All P ys
All-parts P [] ys h = (tt, h)
All-parts P (x ∷ xs) ys (h, hs) = let (front, back) = All-parts P xs ys hs in ((h, front), back)

module _ (done more : List Place) where
  -- Where all that was pending is marked as well, nothing is.
  classify-nothing :
      (bucket_alias : List ℕ) (es : List Listed) (plan : DeduplicatePlan)
      → All (Marked (done ++ more)) (pending done bucket_alias es)
      → classify (done ++ more) bucket_alias es plan ≡ plan
  unfolding classify pending
  classify-nothing bucket_alias [] plan h = refl
  classify-nothing bucket_alias (e ∷ es) plan h =
      elim (Bool-cases (is_checkpointed done bucket_alias e.path)) [
        | inl old ↦
            rw (checkpointed_append done more bucket_alias e.path old)
              (classify-nothing bucket_alias es plan (rw old at h))
        | inr fresh ↦
            let h' : All (Marked (done ++ more))
                (task_of bucket_alias e ∷ pending done bucket_alias es) =
              rw fresh at h in
            rw h'.0 (classify-nothing bucket_alias es plan h'.1)
      ]

  gather_buckets-nothing :
      (ls : List Listing) (plan plan' start : DeduplicatePlan)
      → gather_buckets done ls start ≡ ok plan'
      → All (Marked (done ++ more)) (pending_all done ls)
      → gather_buckets (done ++ more) ls plan ≡ ok plan
  unfolding gather_buckets pending_all
  gather_buckets-nothing [] plan plan' start h all = refl
  gather_buckets-nothing ((bucket_alias, err e) ∷ ls) plan plan' start h all = cc
  gather_buckets-nothing ((bucket_alias, ok es) ∷ ls) plan plan' start h all =
      let (here, behind) = All-parts _ (pending done bucket_alias es) (pending_all done ls) all in
      rw (classify-nothing bucket_alias es plan here)
        (gather_buckets-nothing ls plan plan' (classify done bucket_alias es start) h behind)

module _ (ls : List Listing) (file : Option (List ℕ)) (plan : DeduplicatePlan) where
  gathered :
      gather_pending ls (read_of file) ≡ ok plan
      → gather_buckets (places_of file) ls empty_plan ≡ ok plan
  unfolding gather_pending
  gathered h = rw (load_checkpoint-read_of file) at h

  -- What is gathered when every bucket can be listed: the listed objects that are not checkpointed,
  -- in the order of the listings, and a summary whose counts add up to their number.
  pub gather_pending-pending_all :
      gather_pending ls (read_of file) ≡ ok plan
      → (plan.tasks ≡ pending_all (places_of file) ls)
        × (counted plan.type_summary ≡ length plan.tasks)
  gather_pending-pending_all h =
      let gains = gather_buckets-pending (places_of file) ls empty_plan plan (gathered h) in
      (gains.tasks, gains.count ∙ rw gains.tasks (omega arith))

  -- When all that was gathered has been checkpointed, on a file that held whole lines and with
  -- places whose lines can be read back, gathering again from the same listings gives an empty plan.
  pub gather_pending-append_all :
      gather_pending ls (read_of file) ≡ ok plan
      → is_closed (bytes_of file) ≡ true
      → All IsPlace (map place_of_task plan.tasks)
      → gather_pending ls (read_of (append_all (map place_of_task plan.tasks) file)) ≡ ok empty_plan
  unfolding gather_pending
  gather_pending-append_all h closed places =
      let gains = gather_buckets-pending (places_of file) ls empty_plan plan (gathered h) in
      rw (load_checkpoint-append_all (map place_of_task plan.tasks) file closed places, gains.tasks)
        (gather_buckets-nothing (places_of file)
          (map place_of_task (pending_all (places_of file) ls)) ls empty_plan plan empty_plan
          (gathered h) (Marked-append (places_of file) (pending_all (places_of file) ls)))
