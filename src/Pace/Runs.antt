-- ===== src/Pace/Runs.antt =====
-- Runs of the pacer, and its theorems at concrete inputs.
use pigeon_cli.Base.{ℕ, ◌+◌, ◌*◌, ◌≤◌, ◌<◌, ◌≡◌, ◌↔◌, refl, none, some, [], ◌∷◌, List}
use pigeon_cli.Pace.{interval_for, Pacer, new, acquire, reserve, Call, acquire_all}
use pigeon_cli.Pace.Schedule.{
  IsStaggered, total_slots, acquire_all-IsStaggered, acquire_all_rate, interval_for_panics,
}

-- Half a second between messages.
abbrev half_second : Pacer
half_second = record { next_allowed = 0; interval = 500_000_000 }

abbrev burst : List Call
burst = record { now = 0; count = 4 } ∷ record { now = 0; count = 0 } ∷ []

new_120 : new 7 120 ≡ some (record { next_allowed = 7; interval = 500_000_000 })
unfolding new interval_for
new_120 = refl

acquire_second : (acquire_all burst half_second).1.next_allowed ≡ 2_500_000_000
unfolding acquire_all acquire reserve
acquire_second = refl

acquire_all-IsStaggered_example : IsStaggered 500_000_000 0 burst (acquire_all burst half_second).0
acquire_all-IsStaggered_example = acquire_all-IsStaggered burst half_second

acquire_all_rate_example :
    (0 + 500_000_000 * total_slots burst ≤ (acquire_all burst half_second).1.next_allowed)
    × ((acquire_all burst half_second).1.interval ≡ 500_000_000)
acquire_all_rate_example = acquire_all_rate burst half_second

interval_for_panics_example :
    (interval_for 4294967296 ≡ none) ↔ ((0 < 4294967296) × (◌≡◌ {A = ℕ} 0 0))
interval_for_panics_example = interval_for_panics 4294967296
