-- ===== src/Gate/Runs.antt =====
-- Reachable states of the gate: one in which a task waits for a reopening, and two that the channel
-- brings about when it has no receiver.
-- The first has no round allowed and two tasks: task 0 wins the election, task 1 subscribes, task 0
-- closes the gate, task 1 parks, and task 0 finds the budget spent.
use pigeon_cli.Base.{ℕ, zero, suc, ◌*◌, ◌≤◌, ◌≡◌, refl, Bool, true, false, [], ◌∷◌, arith}
use pigeon_cli.Gate.{
  Gate, new, Phase, update, System, start, Move, Reach, retry, idle, elected, closed, sleeping,
  giving, refused, watching, woken, parked, reopened, leaving, done, elect, refuse, close, count_on,
  count_out, resume, release, subscribe, look_open, look_shut, changed, decide_on, unsubscribe,
  again, pick, here, next,
}
use pigeon_cli.Gate.Safety.{one_prober, triangle, paused_bound}

abbrev documented : ℕ → Bool
documented zero = false
documented (suc n) = true

abbrev shut_by_0 : Gate
shut_by_0 = record (new 0 5) { open_ = false; version = 1; receivers = 1 ∷ []; locked = true }

abbrev giving_up : System
giving_up = record {
  gate = record shut_by_0 { rounds = 1; elections = 1 };
  phase =
      update
        (update
          (update (update (update (update (λ _. idle) 0 elected) 1 refused) 1 watching) 0 closed) 1
          (parked 1))
        0 giving;
}

giving_up_reached : Reach documented (start 0 5) giving_up
giving_up_reached =
    next
      (next
        (next
          (next (next (next here (pick 0 (elect refl))) (pick 1 (refuse refl))) (pick 1 subscribe))
          (pick 0 close))
        (pick 1 (look_shut refl)))
      (pick 0 (count_out (omega arith)))

abbrev reopened_by_0 : Gate
reopened_by_0 = record giving_up.gate { open_ = true; version = 2 }

one_prober_example : ◌≡◌ {A = ℕ} 0 0
one_prober_example = one_prober giving_up_reached 0 0 refl refl

paused_bound_example : 0 ≤ 5 * triangle 0
paused_bound_example = paused_bound giving_up_reached (omega arith)

-- A task that is alone closes nothing: the gate stays open while it sleeps through its round.
abbrev unshut : System
unshut = record {
  gate = record (new 3 5) { locked = true; rounds = 1; elections = 1; paused = 5 };
  phase = update (update (update (λ _. idle) 0 elected) 0 closed) 0 sleeping;
}

unshut_reached : Reach documented (start 3 5) unshut
unshut_reached =
    next (next (next here (pick 0 (elect refl))) (pick 0 close)) (pick 0 (count_on (omega arith)))

-- Task 1 holds a receiver while task 0 closes the gate, and has dropped it when task 0 reopens: the
-- gate stays shut. Task 1 fails again before task 0 lets go of the lock, parks, and no one is left
-- who would reopen the gate.
abbrev left_shut : Gate
left_shut = record (new 3 5) {
  open_ = false;
  version = 1;
  receivers = 1 ∷ [];
  rounds = 1;
  elections = 1;
  paused = 5;
}

abbrev returned : ℕ → Phase
returned =
    update
      (update
        (update
          (update
            (update
              (update (update (update (update (λ _. idle) 0 elected) 1 refused) 1 watching) 1 woken)
              1 (leaving retry))
            0 closed)
          1 (done retry))
        0 sleeping)
      0 (reopened retry)

abbrev stuck : System
stuck = record {
  gate = left_shut;
  phase =
      update (update (update (update (update returned 1 idle) 1 refused) 1 watching) 1 (parked 1)) 0
        (done retry);
}

abbrev reopened_in_vain : System
reopened_in_vain = record {
  gate = record left_shut { receivers = []; locked = true };
  phase = returned;
}

reopened_in_vain_reached : Reach documented (start 3 5) reopened_in_vain
reopened_in_vain_reached =
    next
      (next
        (next
          (next
            (next
              (next
                (next (next (next here (pick 0 (elect refl))) (pick 1 (refuse refl)))
                  (pick 1 subscribe))
                (pick 1 (look_open refl)))
              (pick 1 (decide_on (omega arith))))
            (pick 0 close))
          (pick 1 unsubscribe))
        (pick 0 (count_on (omega arith))))
      (pick 0 resume)

stuck_reached : Reach documented reopened_in_vain stuck
stuck_reached =
    next
      (next (next (next (next here (pick 1 again)) (pick 1 (refuse refl))) (pick 1 subscribe))
        (pick 1 (look_shut refl)))
      (pick 0 release)

stuck_parked : {g : Gate} {p : Phase} → Move documented 1 stuck.gate (stuck.phase 1) g p → ⊥
stuck_parked (changed differs) = differs refl
