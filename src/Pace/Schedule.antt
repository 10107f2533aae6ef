-- ===== src/Pace/Schedule.antt =====
-- What the schedule of `acquire` calls promises.
use pigeon_cli.Base.{
  ℕ, ◌+◌, ◌*◌, ◌/◌, ◌%◌, ◌≤◌, ◌<◌, ◌≡◌, ◌↔◌, refl, max, none, some, List, [], ◌∷◌, arith, ◌⊎◌,
}
use pigeon_cli.Base.Tests.{u32_mod}
use pigeon_cli.Pace.{reserve, minute, interval_for, Pacer, acquire, Call, Window, acquire_all}

-- The messages that a call reserves.
abbrev pub slots : Call → ℕ
slots c = max c.count 1 % u32_mod

abbrev pub total_slots : List Call → ℕ
total_slots [] = 0
total_slots (c ∷ cs) = slots c + total_slots cs

-- The windows follow one another from the instant `from` on: none begins before the one in front
-- of it has closed, and none before its own call.
abbrev pub IsStaggered : ℕ → ℕ → List Call → List Window → Type 0
IsStaggered interval from [] ws = Unit
IsStaggered interval from (c ∷ cs) [] = ⊥
IsStaggered interval from (c ∷ cs) (w ∷ ws) =
    (from ≤ w.opens)
    × (c.now ≤ w.opens)
    × ((w.opens ≡ from) ⊎ (w.opens ≡ c.now))
    × (w.closes ≡ w.opens + interval * slots c)
    × IsStaggered interval w.closes cs ws

-- For any calls in any order, at any instants: the windows do not overlap, each is as long as
-- its messages need at the pacer's interval, and each opens at its call or when the window in front
-- closes, whichever is later, so idle time is not paid back.
pub acquire_all-IsStaggered :
    (cs : List Call) (p : Pacer) → IsStaggered p.interval p.next_allowed cs (acquire_all cs p).0
unfolding acquire_all acquire reserve
acquire_all-IsStaggered [] p = tt
acquire_all-IsStaggered (c ∷ cs) p = (
  ground arith,
  ground arith,
  ground arith,
  refl,
  acquire_all-IsStaggered cs (acquire c.now c.count p).1,
)

-- After any calls the next window opens no earlier than the whole number of messages reserved
-- so far allows at one message an interval, and the interval is the one of before.
pub acquire_all_rate :
    (cs : List Call) (p : Pacer)
    → (p.next_allowed + p.interval * total_slots cs ≤ (acquire_all cs p).1.next_allowed)
      × ((acquire_all cs p).1.interval ≡ p.interval)
unfolding acquire_all acquire reserve
acquire_all_rate [] p = (omega arith, refl)
acquire_all_rate (c ∷ cs) p =
    let (far, same) = acquire_all_rate cs (acquire c.now c.count p).1 in (grind (arith, far), same)

-- For a rate below 2 ^ 32 the interval divides a minute by the rate, a rate of zero counting
-- as one, and it is never zero.
interval_for_bounds :
    (rate : ℕ)
    → rate < u32_mod
    → (i : ℕ) × (interval_for rate ≡ some i)
      × (0 < i)
      × (i * max rate 1 ≤ minute)
      × (minute < (i + 1) * max rate 1)
unfolding interval_for
interval_for_bounds rate h =
    (minute / max rate 1, ground arith, ground arith, grind arith, grind arith)

-- The conversion panics exactly at the rates that are non-zero multiples of 2 ^ 32.
pub interval_for_panics :
    (rate : ℕ) → (interval_for rate ≡ none) ↔ ((0 < rate) × (rate % u32_mod ≡ 0))
unfolding interval_for
interval_for_panics rate = (λ h. ground arith, λ h. ground arith)
