-- ===== src/Gate/Invariant.antt =====
-- What every interleaving keeps.
use pigeon_cli.Base.{ℕ, ◌%◌, ◌≤◌, ◌≡◌, refl, Bool, true, false, List, [], ◌∷◌, arith}
use pigeon_cli.Base.Tests.{◌==◌, u64_mod}
use pigeon_cli.Base.Lists.{any}
use pigeon_cli.Gate.{
  close, resume, latch, here, next, unsubscribe, start, pick, Reach, System, Gate, new, Phase, idle,
  Move, Step, elect, count_on, count_out, release, in_round, update, unsubscribed, sent, listens,
  seen_version,
}

-- Whether a task holds a receiver.
abbrev pub is_receiver : ℕ → List ℕ → Bool
is_receiver i js = any (λ j. j == i) js

pub record Inv (g : Gate) (phase : ℕ → Phase) : Type 0 where
  pub held : (i : ℕ) → in_round (phase i) ≡ true → g.locked ≡ true
  pub unique : (i j : ℕ) → in_round (phase i) ≡ true → in_round (phase j) ≡ true → i ≡ j
  pub subscribed : (i : ℕ) → listens (phase i) ≡ true → is_receiver i g.receivers ≡ true
  pub seen : (i : ℕ) → seen_version (phase i) ≤ g.version
  pub tally : g.rounds ≡ g.elections % u64_mod

pub Inv-new : (max_rounds backoff : ℕ) → Inv (new max_rounds backoff) (λ _. idle)
Inv-new max_rounds backoff = record {
  held = λ i h. cc;
  unique = λ i j h k. cc;
  subscribed = λ i h. cc;
  seen = λ i. omega arith;
  tally = refl;
}

unsubscribed-other :
    (i j : ℕ) (js : List ℕ)
    → (i == j) ≡ false
    → is_receiver j js ≡ true
    → is_receiver j (unsubscribed i js) ≡ true
unsubscribed-other i j [] off h = cc
unsubscribed-other i j (k ∷ js) off h = ground (arith, unsubscribed-other i j js off)

module _ (stores : ℕ → Bool) where
  -- A `send` changes the value and its version, and nothing else.
  pub record Sent (g h : Gate) : Type 0 where
    pub same_lock : h.locked ≡ g.locked
    pub same_receivers : h.receivers ≡ g.receivers
    pub newer : g.version ≤ h.version
    pub same_rounds : h.rounds ≡ g.rounds
    pub same_elections : h.elections ≡ g.elections
    pub same_paused : h.paused ≡ g.paused
    pub same_max : h.max_rounds ≡ g.max_rounds
    pub same_backoff : h.backoff ≡ g.backoff

  pub sent-Sent : (value : Bool) (g : Gate) → Sent g (sent stores value g)
  sent-Sent value g = ground arith

  module _ {g : Gate} {phase : ℕ → Phase} (inv : Inv g phase) (i : ℕ) where
    Move-held :
        {p p' : Phase} {g' : Gate}
        → phase i ≡ p
        → Move stores i g p g' p'
        → (j : ℕ) → in_round (update phase i p' j) ≡ true
        → g'.locked ≡ true
    Move-held e (elect h) j = grind (arith, inv.held)
    Move-held e release j = λ h. grind (arith, inv.held, inv.unique i j)
    Move-held e close j = ground (arith, inv.held j, inv.held i, sent-Sent false g)
    Move-held e resume j = ground (arith, inv.held j, inv.held i, sent-Sent true g)
    Move-held e latch j = ground (arith, inv.held j, inv.held i, sent-Sent true g)
    Move-held e _ j = grind (arith, inv.held)

    Move-unique :
        {p p' : Phase} {g' : Gate}
        → phase i ≡ p
        → Move stores i g p g' p'
        → (j k : ℕ) → in_round (update phase i p' j) ≡ true
        → in_round (update phase i p' k) ≡ true
        → j ≡ k
    Move-unique e (elect h) j k hj hk = ground (arith, inv.held j, inv.held k)
    Move-unique e _ j k hj hk = ground (arith, inv.unique j k, inv.unique i k, inv.unique j i)

    Move-subscribed :
        {p p' : Phase} {g' : Gate}
        → phase i ≡ p
        → Move stores i g p g' p'
        → (j : ℕ) → listens (update phase i p' j) ≡ true
        → is_receiver j g'.receivers ≡ true
    Move-subscribed e close j h = ground (arith, inv.subscribed j, sent-Sent false g)
    Move-subscribed e resume j h = ground (arith, inv.subscribed j, sent-Sent true g)
    Move-subscribed e latch j h = ground (arith, inv.subscribed j, sent-Sent true g)
    Move-subscribed e unsubscribe j h =
        ground (arith, inv.subscribed j, unsubscribed-other i j g.receivers)
    Move-subscribed e _ j h = ground (arith, inv.subscribed j, inv.subscribed i)

    Move-seen :
        {p p' : Phase} {g' : Gate}
        → phase i ≡ p
        → Move stores i g p g' p'
        → (j : ℕ) → seen_version (update phase i p' j) ≤ g'.version
    Move-seen e close j = ground (arith, inv.seen j, sent-Sent false g)
    Move-seen e resume j = ground (arith, inv.seen j, sent-Sent true g)
    Move-seen e latch j = ground (arith, inv.seen j, sent-Sent true g)
    Move-seen e _ j = ground (arith, inv.seen j)

    Move-tally :
        {p p' : Phase} {g' : Gate} → Move stores i g p g' p' → g'.rounds ≡ g'.elections % u64_mod
    Move-tally (count_on h) = omega (arith, inv.tally)
    Move-tally (count_out h) = omega (arith, inv.tally)
    Move-tally close = ground (arith, inv.tally, sent-Sent false g)
    Move-tally resume = ground (arith, inv.tally, sent-Sent true g)
    Move-tally latch = ground (arith, inv.tally, sent-Sent true g)
    Move-tally (elect h) = inv.tally
    Move-tally _ = inv.tally

  pub Step-Inv : {s t : System} → Step stores s t → Inv s.gate s.phase → Inv t.gate t.phase
  Step-Inv (pick i m) inv = record {
    held = Move-held inv i refl m;
    unique = Move-unique inv i refl m;
    subscribed = Move-subscribed inv i refl m;
    seen = Move-seen inv i refl m;
    tally = Move-tally inv i m;
  }

  -- Every interleaving from a fresh gate keeps the invariant.
  pub Reach-Inv :
      {max_rounds backoff : ℕ} {s : System}
      → Reach stores (start max_rounds backoff) s
      → Inv s.gate s.phase
  Reach-Inv {max_rounds} {backoff} here = Inv-new max_rounds backoff
  Reach-Inv (next r st) = Step-Inv st (Reach-Inv r)
