-- ===== src/Lzo/Safety.antt =====
-- No input makes the decompressor panic, loop or write more than it may.
use pigeon_cli.Base.{
  inr, inl, ℕ, zero, suc, ◌+◌, ◌-◌, ◌≤◌, ◌<◌, ◌≡◌, ◌≢◌, refl, false, Option, none, some, List, [],
  ◌∷◌, ◌++◌, arith,
}
use pigeon_cli.Base.Tests.{ltb, Bool-cases}
use pigeon_cli.Base.Lists.{
  length, take, get_elem?, get_elem?-some, length-append, length-take, length-drop,
}
use pigeon_cli.Base.Outcome.{Result, ok, err}
use pigeon_cli.Lzo.{
  LzoError, panicked, out_of_fuel, Decoder, room, literals, copy, back_reference, Instruction,
  run_of, match_, finish, decode, Turn, finished, going, apply, turn, loop, decompress,
}
use pigeon_cli.Lzo.Operands.{
  expected, Within, Within-bind, Within-if, Within-map, IsInstruction, decode-Within,
}

not_over : (a b : ℕ) → ltb a b ≡ false → b ≤ a
not_over a b h = ground arith

literals-Within :
    (max_len n : ℕ) (d : Decoder)
    → length d.out ≤ max_len
    → Within
        (λ (q : Decoder). (length q.rest ≤ length d.rest) × (length q.out ≤ max_len))
        (literals max_len n d)
unfolding literals room
literals-Within max_len n d fits = elim (Bool-cases (ltb (length d.rest) n)) [
  | inl past ↦ rw past refl
  | inr enough ↦ elim (Bool-cases (ltb max_len (length d.out + n))) [
    | inl over ↦ rw (enough, over) refl
    | inr within ↦
        rw (enough, within)
          (
            omega (arith, length-drop n d.rest),
            omega (
              arith,
              length-append d.out (take n d.rest),
              length-take n d.rest (ground arith),
              not_over max_len (length d.out + n) within,
            ),
          )
  ]
]

Within-some :
    (P : List ℕ → Type 0) (m : Option ℕ) (k : ℕ → Result LzoError (List ℕ)) (a : ℕ)
    → m ≡ some a
    → Within P (k a)
    → Within P (elim m [ none ↦ err panicked | some value ↦ k value ])
Within-some P m k a e h = rw e h

-- The copy reads what is there, and writes as many bytes as it is asked for.
copy-Within :
    (n start : ℕ) (out : List ℕ)
    → start < length out
    → Within (λ (o : List ℕ). length o ≡ length out + n) (copy n start out)
unfolding copy
copy-Within zero start out h = omega arith
copy-Within (suc n) start out h =
    let (value, found) = get_elem?-some out start h in
    let longer = length-append out (value ∷ []) in
    Within-some (λ (o : List ℕ). length o ≡ length out + suc n) (get_elem? out start)
      (λ v. copy n (suc start) (out ++ (v ∷ []))) value found
      (Within-map (λ (o : List ℕ). length o ≡ length (out ++ (value ∷ [])) + n)
        (λ (o : List ℕ). length o ≡ length out + suc n) (copy n (suc start) (out ++ (value ∷ [])))
        (λ o e. omega (arith, longer, e))
        (copy-Within n (suc start) (out ++ (value ∷ [])) (omega (arith, longer))))

back_reference-Within :
    (max_len distance n : ℕ) (out : List ℕ)
    → 1 ≤ distance
    → length out ≤ max_len
    → Within (λ (o : List ℕ). length o ≤ max_len) (back_reference max_len distance n out)
unfolding back_reference room
back_reference-Within max_len distance n out far fits =
    elim (Bool-cases (ltb (length out) distance)) [
      | inl before ↦ rw before refl
      | inr inside ↦ elim (Bool-cases (ltb max_len (length out + n))) [
        | inl over ↦ rw (inside, over) refl
        | inr within ↦
            rw (inside, within)
              (Within-map (λ (o : List ℕ). length o ≡ length out + n)
                (λ (o : List ℕ). length o ≤ max_len) (copy n (length out - distance) out)
                (λ o e. omega (arith, e, not_over max_len (length out + n) within))
                (copy-Within n (length out - distance) out
                  (omega (arith, not_over (length out) distance inside))))
      ]
    ]

-- A turn leaves less of the input, and an output that fits.
abbrev Goes : ℕ → ℕ → Turn → Type 0
Goes max_len n (finished out) = length out ≤ max_len
Goes max_len n (going state d) = (length d.rest < n) × (length d.out ≤ max_len)

apply-Within :
    (max_len size : ℕ) (out r : List ℕ) (i : Instruction)
    → IsInstruction i
    → length r < size
    → length out ≤ max_len
    → Within (Goes max_len size) (apply max_len out r i)
unfolding apply
apply-Within max_len size out r (run_of n) fine less fits =
    Within-bind (λ (q : Decoder). (length q.rest ≤ length r) × (length q.out ≤ max_len))
      (Goes max_len size) (literals max_len n (record { rest = r; out = out }))
      (λ d. ok (going 4 d)) (literals-Within max_len n (record { rest = r; out = out }) fits)
      (λ d h. (omega (arith, h.0), h.1))
apply-Within max_len size out r (match_ distance n next) far less fits =
    Within-bind (λ (o : List ℕ). length o ≤ max_len) (Goes max_len size)
      (back_reference max_len distance n out) _
      (back_reference-Within max_len distance n out far fits)
      (λ o bound.
        Within-bind (λ (q : Decoder). (length q.rest ≤ length r) × (length q.out ≤ max_len))
          (Goes max_len size) (literals max_len next (record { rest = r; out = o }))
          (λ d. ok (going next d))
          (literals-Within max_len next (record { rest = r; out = o }) bound)
          (λ d h. (omega (arith, h.0), h.1)))
apply-Within max_len size out r finish fine less fits = fits

turn-Within :
    (max_len state : ℕ) (d : Decoder)
    → length d.out ≤ max_len
    → Within (Goes max_len (length d.rest)) (turn max_len state d)
unfolding turn
turn-Within max_len state d fits =
    Within-bind (λ (p : Instruction × List ℕ). IsInstruction p.0 × (length p.1 < length d.rest))
      (Goes max_len (length d.rest)) (decode state d.rest) (λ p. apply max_len d.out p.1 p.0)
      (decode-Within state d.rest)
      (λ p h. apply-Within max_len (length d.rest) d.out p.1 p.0 h.0 h.1 fits)

loop-Within :
    (fuel max_len state : ℕ) (d : Decoder)
    → length d.rest < fuel
    → length d.out ≤ max_len
    → Within (λ (o : List ℕ). length o ≤ max_len) (loop fuel max_len state d)
unfolding loop
loop-Within zero max_len state d h fits = absurd (omega arith)
loop-Within (suc fuel) max_len state d h fits =
    go (turn max_len state d) (turn-Within max_len state d fits)
      (λ state' d' less bound. loop-Within fuel max_len state' d' (omega arith) bound)
  where
    go :
        (t : Result LzoError Turn)
        → Within (Goes max_len (length d.rest)) t
        → ((state' : ℕ) (d' : Decoder)
            → length d'.rest < length d.rest
            → length d'.out ≤ max_len
            → Within (λ (o : List ℕ). length o ≤ max_len) (loop fuel max_len state' d'))
        → Within
            (λ (o : List ℕ). length o ≤ max_len)
            (elim t [
              | err e ↦ err e
              | ok (finished out) ↦ ok out
              | ok (going state' d') ↦ loop fuel max_len state' d'
            ])
    go (err e) w onward = w
    go (ok (finished out)) w onward = w
    go (ok (going state' d')) (less, bound) onward = onward state' d' less bound

decompress-Within :
    (max_len : ℕ) (src : List ℕ)
    → Within (λ (o : List ℕ). length o ≤ max_len) (decompress max_len src)
unfolding decompress
decompress-Within max_len [] = refl
decompress-Within max_len (first ∷ src) =
    Within-if (λ (o : List ℕ). length o ≤ max_len) (ltb 17 first) _ _
      (Within-bind (λ (q : Decoder). (length q.rest ≤ length src) × (length q.out ≤ max_len))
        (λ (o : List ℕ). length o ≤ max_len)
        (literals max_len (first - 17) (record { rest = src; out = [] })) _
        (literals-Within max_len (first - 17) (record { rest = src; out = [] }) (omega arith))
        (λ d h. loop-Within (suc (length src)) max_len _ d (omega (arith, h.0)) h.1))
      (loop-Within (suc (suc (length src))) max_len 0 (record { rest = first ∷ src; out = [] })
        (omega arith) (omega arith))

no_error {ℓ} :
    {A : Type ℓ} (P : A → Type 0) (m : Result LzoError A) (e : LzoError)
    → expected e ≡ false
    → Within P m
    → m ≢ err e
no_error P (ok a) e h w q = cc
no_error P (err f) e h w q = cc

-- On any input and for any limit the decompressor returns an output of at most `max_len` bytes or one
-- of the errors of the source: it never reads outside its output, and its loop ends.
pub decompress_safe :
    (max_len : ℕ) (src : List ℕ)
    → ((out : List ℕ) → decompress max_len src ≡ ok out → length out ≤ max_len)
      × (decompress max_len src ≢ err panicked)
      × (decompress max_len src ≢ err out_of_fuel)
decompress_safe max_len src =
    let w = decompress-Within max_len src in
    (
      λ out e. (rw e at w),
      no_error (λ (o : List ℕ). length o ≤ max_len) (decompress max_len src) panicked refl w,
      no_error (λ (o : List ℕ). length o ≤ max_len) (decompress max_len src) out_of_fuel refl w,
    )
