-- ===== src/Lzo/Runs.antt =====
-- Streams that the decompressor takes and refuses.
use pigeon_cli.Base.{ℕ, ◌+◌, ◌-◌, ◌≤◌, ◌<◌, ◌≡◌, ◌≢◌, refl, List, [], ◌∷◌, ◌++◌}
use pigeon_cli.Base.Ascii.{codes}
use pigeon_cli.Base.Outcome.{ok, err}
use pigeon_cli.Base.Lists.{length, get_elem?}
use pigeon_cli.Lzo.{decompress, back_reference, before_start, exceeds, panicked, out_of_fuel}
use pigeon_cli.Lzo.Safety.{decompress_safe}
use pigeon_cli.Lzo.RoundTrip.{back_reference-repeats}

-- "abcd", then a match of length 8 at the distance 4.
abbrev overlapping : List ℕ
overlapping = 21 ∷ (codes "abcd" ++ (236 ∷ 0 ∷ 17 ∷ 0 ∷ 0 ∷ []))

overlapping_run : decompress 64 overlapping ≡ ok (codes "abcdabcdabcd")
unfolding decompress
overlapping_run = refl

limit_run : decompress 6 overlapping ≡ err exceeds
unfolding decompress
limit_run = refl

too_far_run : decompress 64 (21 ∷ (codes "abcd" ++ (252 ∷ 0 ∷ 17 ∷ 0 ∷ 0 ∷ []))) ≡ err before_start
unfolding decompress
too_far_run = refl

decompress_safe_example :
    ((out : List ℕ) → decompress 6 overlapping ≡ ok out → length out ≤ 6)
    × (decompress 6 overlapping ≢ err panicked)
    × (decompress 6 overlapping ≢ err out_of_fuel)
decompress_safe_example = decompress_safe 6 overlapping

copied_run : back_reference 64 2 5 (codes "ab") ≡ ok (codes "abababa")
unfolding back_reference
copied_run = refl

back_reference-repeats_example :
    (length (codes "abababa") ≡ 2 + 5)
    × ((i : ℕ) → i < 2 → get_elem? (codes "abababa") i ≡ get_elem? (codes "ab") i)
    × ((i : ℕ)
        → i < 5
        → get_elem? (codes "abababa") (2 + i) ≡ get_elem? (codes "abababa") (2 - 2 + i))
back_reference-repeats_example =
    back_reference-repeats 64 2 5 (codes "ab") (codes "abababa") copied_run
