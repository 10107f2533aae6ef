-- ===== src/Gate/Safety.antt =====
-- What the gate promises in every reachable state.
use pigeon_cli.Base.{ℕ, zero, suc, ◌+◌, ◌*◌, ◌%◌, ◌≤◌, ◌<◌, min, ◌≡◌, Bool, true, false, arith}
use pigeon_cli.Base.Tests.{u32_mod, u64_mod}
use pigeon_cli.Gate.{
  Gate, Phase, next_round, System, start, sent, Move, Reach, in_round, woken, elect, close,
  count_on, count_out, resume, latch, pick, here, next,
}
use pigeon_cli.Gate.Invariant.{sent-Sent, Reach-Inv}
use native.Mathlib.Numerals.{add-one}
use native.Mathlib.Nat.{mul-le-mul_left, le_trans}

-- At most one task at a time is in a recovery round, whatever the channel stores.
pub one_prober :
    {stores : ℕ → Bool} {max_rounds backoff : ℕ} {s : System}
    → Reach stores (start max_rounds backoff) s
    → (i j : ℕ) → in_round (s.phase i) ≡ true
    → in_round (s.phase j) ≡ true
    → i ≡ j
one_prober {stores} r = (Reach-Inv stores r).unique

-- A task that reads an open gate at its next look.
abbrev pub OnItsWay : (ℕ → Bool) → System → ℕ → Type 0
OnItsWay stores s j = (t : System) × Reach stores s t × (t.phase j ≡ woken)

-- The settings of a gate never change, and its history only grows.
pub record Later (g h : Gate) : Type 0 where
  pub same_max : h.max_rounds ≡ g.max_rounds
  pub same_backoff : h.backoff ≡ g.backoff
  pub grown : g.elections ≤ h.elections

Move-Later :
    {stores : ℕ → Bool} {i : ℕ} {g g' : Gate} {p p' : Phase} → Move stores i g p g' p' → Later g g'
Move-Later {stores} {g = g} close = ground (arith, sent-Sent stores false g)
Move-Later {stores} {g = g} resume = ground (arith, sent-Sent stores true g)
Move-Later {stores} {g = g} latch = ground (arith, sent-Sent stores true g)
Move-Later (count_on h) = ground arith
Move-Later (count_out h) = ground arith
Move-Later (elect h) = ground arith
Move-Later _ = ground arith

Reach-Later : {stores : ℕ → Bool} {s t : System} → Reach stores s t → Later s.gate t.gate
Reach-Later here = ground arith
Reach-Later (next r (pick i m)) = ground (arith, Reach-Later r, Move-Later m)

-- 1 + 2 + ... + n
abbrev pub triangle : ℕ → ℕ
triangle zero = 0
triangle (suc n) = triangle n + suc n

triangle_mono : (a b : ℕ) → a ≤ b → triangle a ≤ triangle b
triangle_mono zero b h = omega arith
triangle_mono (suc a) zero h = absurd (omega arith)
triangle_mono (suc a) (suc b) h = omega (arith, triangle_mono a b (omega arith))

triangle_next : (b n : ℕ) → b * triangle n + b * (n + 1) ≡ b * triangle (n + 1)
triangle_next b n = rw add-one (omega arith)

abbrev IsPaced : Gate → Type 0
IsPaced g = g.paused ≤ g.backoff * triangle (min g.rounds g.max_rounds)

sent-IsPaced :
    (stores : ℕ → Bool) (value : Bool) (g : Gate) → IsPaced g → IsPaced (sent stores value g)
sent-IsPaced stores value g paced =
    let h = sent-Sent stores value g in
    rw (h.same_paused, h.same_backoff, h.same_rounds, h.same_max) paced

Move-IsPaced :
    {stores : ℕ → Bool} {i : ℕ} {g g' : Gate} {p p' : Phase}
    → Move stores i g p g' p'
    → g'.elections < u64_mod
    → g.rounds ≡ g.elections % u64_mod
    → IsPaced g
    → IsPaced g'
Move-IsPaced {g = g} (count_on h) few e paced =
    let up : next_round g ≡ g.rounds + 1 = omega (arith, e) in
    let low : min g.rounds g.max_rounds ≡ g.rounds = omega arith in
    let low' : min (next_round g) g.max_rounds ≡ g.rounds + 1 = omega arith in
    let before : g.paused ≤ g.backoff * triangle g.rounds = rw low at paced in
    let slept : g.backoff * (next_round g % u32_mod) ≤ g.backoff * (g.rounds + 1) =
      mul-le-mul_left g.backoff (omega arith) in
    rw low' (omega (arith, before, slept, triangle_next g.backoff g.rounds))
Move-IsPaced {g = g} (count_out h) few e paced =
    let grows : triangle (min g.rounds g.max_rounds) ≤ triangle (min (next_round g) g.max_rounds) =
      triangle_mono _ _ (omega (arith, e)) in
    le_trans paced (mul-le-mul_left g.backoff grows)
Move-IsPaced {stores} {g = g} close few e paced = sent-IsPaced stores false g paced
Move-IsPaced {stores} {g = g} resume few e paced = sent-IsPaced stores true g paced
Move-IsPaced {stores} {g = g} latch few e paced = sent-IsPaced stores true g paced
Move-IsPaced (elect h) few e paced = paced
Move-IsPaced _ few e paced = paced

Reach-IsPaced :
    {stores : ℕ → Bool} {max_rounds backoff : ℕ} {s : System}
    → Reach stores (start max_rounds backoff) s
    → s.gate.elections < u64_mod
    → IsPaced s.gate
Reach-IsPaced here few = omega arith
Reach-IsPaced (next r (pick i m)) few =
    Move-IsPaced m few (Reach-Inv _ r).tally (Reach-IsPaced r (omega (arith, Move-Later m)))

-- The probers of a run sleep, altogether, at most `backoff` times 1 + 2 + ... + `max_rounds`, as long as
-- fewer than 2 ^ 64 elections were held.
pub paused_bound :
    {stores : ℕ → Bool} {max_rounds backoff : ℕ} {s : System}
    → Reach stores (start max_rounds backoff) s
    → s.gate.elections < u64_mod
    → s.gate.paused ≤ backoff * triangle max_rounds
paused_bound {s} r few =
    let later = Reach-Later r in
    let paced = Reach-IsPaced r few in
    le_trans (rw later.same_backoff at paced)
      (mul-le-mul_left _ (triangle_mono _ _ (omega (arith, later))))
