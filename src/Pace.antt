-- ===== src/Pace.antt =====
-- src/commands/job/email_import/pace.rs: the throughput governor of `email import`.
-- Instants and durations are whole numbers of nanoseconds. `none` is a panic.
pub mod Schedule
mod Runs
use pigeon_cli.Base.{ℕ, ◌+◌, ◌*◌, ◌/◌, ◌%◌, max, Option, none, some, List, [], ◌∷◌}
use pigeon_cli.Base.Tests.{ltb, ◌==◌, if◌then◌else◌, u32_mod}

-- `reserve`: the instant to wait for, and the new `next_allowed`.
pub reserve : ℕ → ℕ → ℕ → ℕ → ℕ × ℕ
reserve next_allowed now count interval =
    let start = if ltb now next_allowed then next_allowed else now in
    (start, start + interval * count)

abbrev pub minute : ℕ
minute = 60 * 1_000_000_000

-- `usize as u32` keeps the low 32 bits, and `Duration / 0` panics.
pub interval_for : ℕ → Option ℕ
interval_for messages_per_minute =
    let divisor = max messages_per_minute 1 % u32_mod in
    if divisor == 0 then none else some (minute / divisor)

pub record Pacer : Type 0 where
  pub next_allowed : ℕ
  pub interval : ℕ

pub new : ℕ → ℕ → Option Pacer
new now messages_per_minute = elim (interval_for messages_per_minute) [
  | none ↦ none
  | some interval ↦ some (record { next_allowed = now; interval = interval })
]

-- The locked part of `acquire` at the instant `now`: the instant that the caller sleeps until, and
-- the pacer that the lock is released with.
pub acquire : ℕ → ℕ → Pacer → ℕ × Pacer
acquire now count p =
    let (wait_until, updated) = reserve p.next_allowed now (max count 1 % u32_mod) p.interval in
    (wait_until, record p { next_allowed = updated })

-- One call of `acquire`: the instant at which it holds the lock, and its count.
pub record Call : Type 0 where
  pub now : ℕ
  pub count : ℕ

-- The window of a call: from its wake-up to the end of what it reserved.
pub record Window : Type 0 where
  pub opens : ℕ
  pub closes : ℕ

-- Any number of calls in the order in which they take the lock, whoever makes them.
pub acquire_all : List Call → Pacer → List Window × Pacer
acquire_all [] p = ([], p)
acquire_all (c ∷ cs) p =
    let (opens, p') = acquire c.now c.count p in
    let (windows, last) = acquire_all cs p' in
    (record { opens = opens; closes = p'.next_allowed } ∷ windows, last)
