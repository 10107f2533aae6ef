-- ===== src/Dedup/Archive/Capped.antt =====
-- What is kept of an archive stays within its budget, and no member is lost uncounted.
use pigeon_cli.Base.{
  ℕ, ◌+◌, ◌*◌, ◌≤◌, ◌≡◌, refl, sym, ap, subst, ◌∙◌, ◌⊎◌, inl, inr, true, false, ◌&&◌, Option, none,
  some, List, [], ◌∷◌, ◌++◌, arith,
}
use pigeon_cli.Base.Tests.{ltb, if◌then◌else◌, Bool-cases}
use pigeon_cli.Base.Lists.{length, length-append}
use pigeon_cli.Base.Outcome.{Result, ok, err}
use pigeon_cli.Dedup.Worker.{ExtractedMember, Disk}
use pigeon_cli.Dedup.Archive.{
  extraction_ratio_limit, Chunk, copy_capped, ZipEntry, Extraction, member_name, is_passed_over,
  keep_member, extract_each, ZipFile, budget_of, start, expand_to_dir, chunk, unread,
}

abbrev pub sizes : List ExtractedMember → ℕ
sizes [] = 0
sizes (m ∷ ms) = m.size + sizes ms

sizes-append : (ms ns : List ExtractedMember) → sizes (ms ++ ns) ≡ sizes ms + sizes ns
sizes-append [] ns = omega arith
sizes-append (m ∷ ms) ns = ground (arith, sizes-append ms ns)

-- The names of the entries that are neither directories nor skipped.
unfoldable pub wanted : List (Option ZipEntry) → List (List ℕ)
wanted [] = []
wanted (none ∷ entries) = wanted entries
wanted (some e ∷ entries) =
    let rest = wanted entries in if is_passed_over e then rest else e.name ∷ rest

-- A copy that ends well has added its bytes to the total, and nothing, or no more than the budget.
copy_capped_whole :
    (budget : ℕ) (chunks : List Chunk) (written running_total size : ℕ)
    → (copy_capped budget chunks written running_total).0 ≡ some size
    → ((copy_capped budget chunks written running_total).1 + written ≡ running_total + size)
      × (((copy_capped budget chunks written running_total).1 ≡ running_total)
          ⊎ ((copy_capped budget chunks written running_total).1 ≤ budget))
unfolding copy_capped
copy_capped_whole budget [] written running_total size e =
    let same : written ≡ size = ap (λ (o : Option ℕ). elim o [ some n ↦ n | none ↦ 0 ]) e in
    (omega arith, inl refl)
copy_capped_whole budget (unread ∷ chunks) written running_total size e = cc
copy_capped_whole budget (chunk n false ∷ chunks) written running_total size e = cc
copy_capped_whole budget (chunk n true ∷ chunks) written running_total size e =
    elim (Bool-cases (ltb budget (running_total + n))) [
      | inl over ↦ absurd (nothing over (rw over at e))
      | inr fits ↦
          let (sum, why) =
            copy_capped_whole budget chunks (written + n) (running_total + n) size (rw fits at e) in
          rw fits
            (omega arith, elim why [ inl same ↦ inr (ground arith) | inr within ↦ inr within ])
    ]
  where
    nothing : ltb budget (running_total + n) ≡ true → ◌≡◌ {A = Option ℕ} none (some size) → ⊥
    nothing over h = cc

-- What holds of an extraction within a budget, with so many entries counted.
record IsCapped (budget count : ℕ) (x : Extraction) : Type 0 where
  within : sizes x.members ≤ budget
  added : sizes x.members ≤ x.running_total
  counted : length x.members + x.dropped ≡ count

copy_capped_grows :
    (budget : ℕ) (chunks : List Chunk) (written running_total : ℕ)
    → running_total ≤ (copy_capped budget chunks written running_total).1
unfolding copy_capped
copy_capped_grows budget [] written running_total = omega arith
copy_capped_grows budget (unread ∷ chunks) written running_total = omega arith
copy_capped_grows budget (chunk n stored ∷ chunks) written running_total =
    ground (arith, copy_capped_grows budget chunks (written + n) (running_total + n))

-- How a copy may end.
abbrev Copied : ℕ → ℕ → Option ℕ × ℕ → Type 0
Copied budget before (none, running_total) = before ≤ running_total
Copied budget before (some size, running_total) =
    (running_total ≡ before + size) × ((running_total ≡ before) ⊎ (running_total ≤ budget))

copy_capped-Copied :
    (budget : ℕ) (chunks : List Chunk) (before : ℕ) (outcome : Option ℕ × ℕ)
    → copy_capped budget chunks 0 before ≡ outcome
    → Copied budget before outcome
copy_capped-Copied budget chunks before (none, running_total) e =
    rw (ap (λ (o : Option ℕ × ℕ). o.1) e) at (copy_capped_grows budget chunks 0 before)
copy_capped-Copied budget chunks before (some size, running_total) e =
    let (sum, why) =
      copy_capped_whole budget chunks 0 before size (ap (λ (o : Option ℕ × ℕ). o.0) e) in
    let total = ap (λ (o : Option ℕ × ℕ). o.1) e in
    (
      ground (arith, sum, total),
      elim why [ inl same ↦ inl (sym total ∙ same) | inr within ↦ inr (rw total at within) ],
    )

keep_member-IsCapped :
    (budget count : ℕ) (e : ZipEntry) (path : List ℕ) (outcome : Option ℕ × ℕ) (x : Extraction)
    → Copied budget x.running_total outcome
    → IsCapped budget count x
    → IsCapped budget (count + 1) (keep_member e path outcome x)
keep_member-IsCapped budget count e path (none, running_total) x c h = record {
  within = h.within;
  added = omega arith;
  counted = omega arith;
}
keep_member-IsCapped budget count e path (some size, running_total) x (sum, why) h =
    let member : ExtractedMember = record { name = e.name; path = path; size = size } in
    let more = sizes-append x.members (member ∷ []) in
    let longer = length-append x.members (member ∷ []) in
    record {
      within = elim why [
        | inl same ↦ ground (arith, more, h.within, same, sum)
        | inr fits ↦ ground (arith, more, h.added)
      ];
      added = ground (arith, more, h.added);
      counted = ground (arith, longer, h.counted);
    }

-- The extraction after the loop: within the budget, and all wanted entries counted if there was no error.
abbrev Ends : ℕ → ℕ → Result (Unit {0}) (Unit {0}) × Extraction → Type 0
Ends budget count (outcome, x) =
    (sizes x.members ≤ budget) × (outcome ≡ ok tt → length x.members + x.dropped ≡ count)

extract_each-Ends :
    (budget count : ℕ) (entries : List (Option ZipEntry)) (x : Extraction)
    → IsCapped budget count x
    → Ends budget (count + length (wanted entries)) (extract_each budget entries x)
unfolding extract_each wanted
extract_each-Ends budget count [] x h = (h.within, λ e. ground (arith, h.counted))
extract_each-Ends budget count (none ∷ entries) x h = (h.within, λ e. cc)
extract_each-Ends budget count (some e ∷ entries) x h = elim (Bool-cases (is_passed_over e)) [
  | inl passed ↦ rw passed (extract_each-Ends budget count entries x h)
  | inr wished ↦ elim (Bool-cases e.created) [
    | inr not_created ↦ rw (wished, not_created) (h.within, λ q. cc)
    | inl created ↦
        let path = member_name x.disk.counter in
        let outcome = copy_capped budget e.chunks 0 x.running_total in
        let next =
          keep_member-IsCapped budget count e path outcome x
            (copy_capped-Copied budget e.chunks x.running_total outcome refl) h in
        let ends =
          extract_each-Ends budget (count + 1) entries (keep_member e path outcome x) next in
        rw (wished, created)
          (subst (λ n. Ends budget n (extract_each budget entries (keep_member e path outcome x)))
            (omega arith) ends)
  ]
]

abbrev pub entries_of : ZipFile → List (Option ZipEntry)
entries_of z = elim z.entries [ none ↦ [] | some entries ↦ entries ]

start-IsCapped : (budget : ℕ) (disk : Disk) → IsCapped budget 0 (start disk)
start-IsCapped budget disk = record { within = omega arith; added = omega arith; counted = refl }

Ends-start : (budget count : ℕ) (disk : Disk) → Ends budget count (err tt, start disk)
Ends-start budget count disk = (omega arith, λ e. cc)

expand_to_dir-Ends :
    (z : ZipFile) (disk : Disk)
    → Ends (budget_of z.compressed_size) (length (wanted (entries_of z))) (expand_to_dir z disk)
unfolding expand_to_dir
expand_to_dir-Ends z disk = elim (Bool-cases (z.made_folder && z.opened)) [
  | inr off ↦
      rw off (Ends-start (budget_of z.compressed_size) (length (wanted (entries_of z))) disk)
  | inl on ↦ rw on (of_entries z.entries)
]
  where
    of_entries :
        (entries : Option (List (Option ZipEntry)))
        → Ends
            (budget_of z.compressed_size)
            (length (wanted (elim entries [ none ↦ [] | some es ↦ es ])))
            (elim entries [
              | none ↦ (err tt, start disk)
              | some es ↦ extract_each (budget_of z.compressed_size) es (start disk)
            ])
    of_entries none = Ends-start (budget_of z.compressed_size) _ disk
    of_entries (some es) =
        subst
          (λ n.
            Ends (budget_of z.compressed_size) n
              (extract_each (budget_of z.compressed_size) es (start disk)))
          (omega arith)
          (extract_each-Ends (budget_of z.compressed_size) 0 es (start disk)
            (start-IsCapped (budget_of z.compressed_size) disk))

when_ok :
    {A : Type 0} (outcome : Result (Unit {0}) (Unit {0}))
    → (outcome ≡ ok tt → A)
    → (outcome ≡ err tt) ⊎ A
when_ok (ok tt) f = inr (f refl)
when_ok (err tt) f = inl refl

-- Whatever is read and written: the members that are kept are together no larger than a hundred times
-- the archive, also when the extraction ends in an error; and it ends in an error, or each entry
-- that is neither a directory nor skipped is either kept or counted as dropped.
pub expand_to_dir-capped :
    (z : ZipFile) (disk : Disk)
    → (sizes (expand_to_dir z disk).1.members ≤ z.compressed_size * extraction_ratio_limit)
      × (((expand_to_dir z disk).0 ≡ err tt)
          ⊎ (length (expand_to_dir z disk).1.members + (expand_to_dir z disk).1.dropped
              ≡ length (wanted (entries_of z))))
expand_to_dir-capped z disk =
    let (within, counted) = expand_to_dir-Ends z disk in
    (omega arith, when_ok (expand_to_dir z disk).0 counted)
