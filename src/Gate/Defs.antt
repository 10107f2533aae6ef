-- ===== src/Gate/Defs.antt =====
-- The shared state of a `RecoveryGate` and the steps of the tasks that use it.
use pigeon_cli.Base.{ℕ, ◌+◌, ◌*◌, ◌%◌, ◌≤◌, ◌<◌, ◌≡◌, ◌≢◌, Bool, true, false, List, [], ◌∷◌}
use pigeon_cli.Base.Lists.{length}
use pigeon_cli.Base.Tests.{◌==◌, if◌then◌else◌, u32_mod, u64_mod}

pub data Decision : Type 0 where
  retry give_up : Decision

-- `open_`, `version` and `receivers` are the watch channel: its value, how often one was stored, and the
-- tasks that hold a receiver of it. `locked` is the election mutex. `elections` and `paused` record the past and are read by no step:
-- how often `rounds` was incremented, and how long the probers slept altogether.
pub record Gate : Type 0 where
  pub open_ : Bool
  pub version : ℕ
  pub receivers : List ℕ
  pub locked : Bool
  pub rounds : ℕ
  pub max_rounds : ℕ
  pub backoff : ℕ
  pub elections : ℕ
  pub paused : ℕ

abbrev pub new : ℕ → ℕ → Gate
new max_rounds backoff = record {
  open_ = true;
  version = 0;
  receivers = [];
  locked = false;
  rounds = 0;
  max_rounds = max_rounds;
  backoff = backoff;
  elections = 0;
  paused = 0;
}

-- Where a task stands in `wait_for_recovery`; `idle` is before a call, `done` after its return. A task
-- that did not win is `refused`, then it subscribes and is `watching`, `parked` with the version in
-- which it saw a shut gate, `woken` by an open one, and `leaving` until it drops its receiver.
pub data Phase : Type 0 where
  idle elected closed sleeping giving refused watching woken : Phase
  parked : ℕ → Phase
  reopened leaving done : Decision → Phase

-- What `fetch_add(1) + 1` stores: an `AtomicUsize` wraps.
abbrev pub next_round : Gate → ℕ
next_round g = (g.rounds + 1) % u64_mod

-- The gate as the increment leaves it.
abbrev pub counted : Gate → Gate
counted g = record g { rounds = next_round g; elections = g.elections + 1 }

abbrev pub unsubscribed : ℕ → List ℕ → List ℕ
unsubscribed i [] = []
unsubscribed i (j ∷ js) = if i == j then unsubscribed i js else j ∷ unsubscribed i js

abbrev pub update : (ℕ → Phase) → ℕ → Phase → ℕ → Phase
update f i p j = if i == j then p else f j

pub record System : Type 0 where
  pub gate : Gate
  pub phase : ℕ → Phase

abbrev pub start : ℕ → ℕ → System
start max_rounds backoff = record { gate = new max_rounds backoff; phase = λ _. idle }

-- `stores n` is whether `watch::Sender::send` stores its value while there are `n` receivers. What
-- tokio documents is that it does so unless there are none.
module _ (stores : ℕ → Bool) where
  -- `send`, the error of which is ignored.
  abbrev pub sent : Bool → Gate → Gate
  sent value g =
      if stores (length g.receivers) then record g { open_ = value; version = g.version + 1 } else g

  -- One step of task `i`.
  pub data Move (i : ℕ) (g : Gate) : Phase → Gate → Phase → Type 0 where
    elect : g.locked ≡ false → Move i g idle (record g { locked = true }) elected
    refuse : g.locked ≡ true → Move i g idle g refused
    close : Move i g elected (sent false g) closed
    count_on :
        next_round g ≤ g.max_rounds
        → Move i g closed
            (record g {
              rounds = next_round g;
              elections = g.elections + 1;
              paused = g.paused + g.backoff * (next_round g % u32_mod);
            })
            sleeping
    count_out : g.max_rounds < next_round g → Move i g closed (counted g) giving
    resume : Move i g sleeping (sent true g) (reopened retry)
    latch : Move i g giving (sent true g) (reopened give_up)
    release : {d : Decision} → Move i g (reopened d) (record g { locked = false }) (done d)
    subscribe : Move i g refused (record g { receivers = i ∷ g.receivers }) watching
    look_open : g.open_ ≡ true → Move i g watching g woken
    look_shut : g.open_ ≡ false → Move i g watching g (parked g.version)
    changed : {v : ℕ} → v ≢ g.version → Move i g (parked v) g watching
    decide_out : g.max_rounds < g.rounds → Move i g woken g (leaving give_up)
    decide_on : g.rounds ≤ g.max_rounds → Move i g woken g (leaving retry)
    unsubscribe :
        {d : Decision}
        → Move i g (leaving d) (record g { receivers = unsubscribed i g.receivers }) (done d)
    again : {d : Decision} → Move i g (done d) g idle

  pub data Step (s : System) : System → Type 0 where
    pick :
        {g : Gate} {p : Phase} (i : ℕ)
        → Move i s.gate (s.phase i) g p
        → Step s (record { gate = g; phase = update s.phase i p })

  pub data Reach (s : System) : System → Type 0 where
    here : Reach s s
    next : {t u : System} → Reach s t → Step t u → Reach s u

-- The phases of the task that won the election.
abbrev pub in_round : Phase → Bool
in_round elected = true
in_round closed = true
in_round sleeping = true
in_round giving = true
in_round (reopened d) = true
in_round _ = false

-- The phases of a task that holds a receiver.
abbrev pub listens : Phase → Bool
listens watching = true
listens woken = true
listens (parked v) = true
listens (leaving d) = true
listens _ = false

-- The version in which a parked task saw the gate.
abbrev pub seen_version : Phase → ℕ
seen_version (parked v) = v
seen_version _ = 0
