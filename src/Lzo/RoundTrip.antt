-- ===== src/Lzo/RoundTrip.antt =====
-- What the decompressor makes of stored bytes and of matches.
use pigeon_cli.Base.{
  ℕ, zero, suc, ◌+◌, ◌-◌, ◌≤◌, ◌<◌, ◌≡◌, refl, sym, ◌∙◌, ap, true, false, Option, none, some, List,
  [], ◌∷◌, ◌++◌, arith,
}
use pigeon_cli.Base.Tests.{ltb, if◌then◌else◌}
use pigeon_cli.Base.Lists.{
  length, get_elem?, get_elem?-lt, get_elem?-append_left, get_elem?-append_self, length-append,
  take-append, drop-append,
}
use pigeon_cli.Base.Outcome.{ok, err}
use pigeon_cli.Lzo.{panicked, room, literals, copy, back_reference, loop, decompress}

abbrev end_of_stream : List ℕ
end_of_stream = 17 ∷ 0 ∷ 0 ∷ []

abbrev pub stored : List ℕ → List ℕ
stored bytes = (17 + length bytes) ∷ (bytes ++ end_of_stream)

loop_ends :
    (fuel max_len state : ℕ) (out : List ℕ)
    → loop (suc fuel) max_len state (record { rest = end_of_stream; out = out }) ≡ ok out
unfolding loop
loop_ends fuel max_len state out = refl

literals-append :
    (max_len : ℕ) (bytes rest : List ℕ)
    → length bytes ≤ max_len
    → literals max_len (length bytes) (record { rest = bytes ++ rest; out = [] })
      ≡ ok (record { rest = rest; out = bytes })
unfolding literals room
literals-append max_len bytes rest fits =
    let enough : ltb (length (bytes ++ rest)) (length bytes) ≡ false =
      not_lt _ _ (omega (arith, length-append bytes rest)) in
    let within : ltb max_len (0 + length bytes) ≡ false = not_lt _ _ (omega (arith, fits)) in
    rw (enough, within, drop-append bytes rest, take-append bytes rest) refl
  where
    not_lt : (a b : ℕ) → b ≤ a → ltb a b ≡ false
    not_lt a b h = ground arith

long_run : (n : ℕ) → 1 ≤ n → ltb 17 (17 + n) ≡ true
long_run n h = ground arith

-- From one byte to 238, stored behind their count and before the end of the stream, come out as they
-- are if the limit admits them.
decompress-stored :
    (max_len : ℕ) (bytes : List ℕ)
    → 1 ≤ length bytes
    → length bytes ≤ 238
    → length bytes ≤ max_len
    → decompress max_len (stored bytes) ≡ ok bytes
unfolding decompress
decompress-stored max_len bytes filled small fits =
    let long : ltb 17 (17 + length bytes) ≡ true = long_run (length bytes) filled in
    let same : 17 + length bytes - 17 ≡ length bytes = omega arith in
    rw (long, same, literals-append max_len bytes end_of_stream fits)
      (loop_ends (length (bytes ++ end_of_stream)) max_len
        (if ltb (length bytes) 4 then length bytes else 4) bytes)

-- What a copy leaves: the output of before, and behind it bytes equal to those that it started from.
abbrev Repeats : ℕ → ℕ → List ℕ → List ℕ → Type 0
Repeats n start out o =
    ((i : ℕ) → i < length out → get_elem? o i ≡ get_elem? out i)
    × ((i : ℕ) → i < n → get_elem? o (length out + i) ≡ get_elem? o (start + i))

old_bytes :
    (out : List ℕ) (value : ℕ) (o : List ℕ)
    → ((i : ℕ)
        → i < length (out ++ (value ∷ []))
        → get_elem? o i ≡ get_elem? (out ++ (value ∷ [])) i)
    → (i : ℕ) → i < length out
    → get_elem? o i ≡ get_elem? out i
old_bytes out value o old i lt =
    old i (omega (arith, length-append out (value ∷ [])))
    ∙ get_elem?-append_left out (value ∷ []) i lt

repeated :
    (n start value : ℕ) (out o : List ℕ)
    → get_elem? out start ≡ some value
    → ((i : ℕ)
        → i < length (out ++ (value ∷ []))
        → get_elem? o i ≡ get_elem? (out ++ (value ∷ [])) i)
    → ((i : ℕ)
        → i < n
        → get_elem? o (length (out ++ (value ∷ [])) + i) ≡ get_elem? o (suc start + i))
    → (i : ℕ) → i < suc n
    → get_elem? o (length out + i) ≡ get_elem? o (start + i)
repeated n start value out o h old new zero lt =
    let size = length-append out (value ∷ []) in
    ap (get_elem? o) (omega arith)
    ∙ old (length out) (omega (arith, size))
    ∙ get_elem?-append_self out value
    ∙ sym h
    ∙ sym (old_bytes out value o old start (get_elem?-lt out start value h))
    ∙ ap (get_elem? o) (omega arith)
repeated n start value out o h old new (suc i) lt =
    let size = length-append out (value ∷ []) in
    ap (get_elem? o) (omega (arith, size)) ∙ new i (omega arith) ∙ ap (get_elem? o) (omega arith)

copy-Repeats : (n start : ℕ) (out o : List ℕ) → copy n start out ≡ ok o → Repeats n start out o
unfolding copy
copy-Repeats zero start out o e = (λ i h. cc, λ i h. elim h [ ])
copy-Repeats (suc n) start out o e =
    go (get_elem? out start) refl e (λ value. copy-Repeats n (suc start) (out ++ (value ∷ [])) o)
  where
    go :
        (m : Option ℕ)
        → get_elem? out start ≡ m
        → (elim m [ none ↦ err panicked | some value ↦ copy n (suc start) (out ++ (value ∷ [])) ])
          ≡ ok o
        → ((value : ℕ)
            → copy n (suc start) (out ++ (value ∷ [])) ≡ ok o
            → Repeats n (suc start) (out ++ (value ∷ [])) o)
        → Repeats (suc n) start out o
    go none h q onward = cc
    go (some value) h q onward =
        let (old, new) = onward value q in
        (old_bytes out value o old, repeated n start value out o h old new)

length-copy : (n start : ℕ) (out o : List ℕ) → copy n start out ≡ ok o → length o ≡ length out + n
unfolding copy
length-copy zero start out o e = ground arith
length-copy (suc n) start out o e =
    go (get_elem? out start) e (λ value. length-copy n (suc start) (out ++ (value ∷ [])) o)
  where
    go :
        (m : Option ℕ)
        → (elim m [ none ↦ err panicked | some value ↦ copy n (suc start) (out ++ (value ∷ [])) ])
          ≡ ok o
        → ((value : ℕ)
            → copy n (suc start) (out ++ (value ∷ [])) ≡ ok o
            → length o ≡ length (out ++ (value ∷ [])) + n)
        → length o ≡ length out + suc n
    go none q onward = cc
    go (some value) q onward =
        let h = onward value q in omega (arith, h, length-append out (value ∷ []))

-- A back reference keeps the output of before and appends exactly `n` bytes, each equal to the byte
-- `distance` places in front of it, also where the match overlaps its own output.
pub back_reference-repeats :
    (max_len distance n : ℕ) (out o : List ℕ)
    → back_reference max_len distance n out ≡ ok o
    → (length o ≡ length out + n)
      × ((i : ℕ) → i < length out → get_elem? o i ≡ get_elem? out i)
      × ((i : ℕ) → i < n → get_elem? o (length out + i) ≡ get_elem? o (length out - distance + i))
unfolding back_reference room
back_reference-repeats max_len distance n out o e =
    let copied : copy n (length out - distance) out ≡ ok o = ground arith in
    let (old, new) = copy-Repeats n (length out - distance) out o copied in
    (length-copy n (length out - distance) out o copied, old, new)
