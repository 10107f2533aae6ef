-- ===== src/Gate.antt =====
-- src/commands/job/email_import/gate.rs: recovery from an outage, shared by concurrent tasks.
-- `wait_for_recovery` is cut at its accesses to shared state; `Move` is one such step of one task,
-- and `Step` lets any task make its next move, so every interleaving is a run. The watch channel is
-- tokio's: whether a `send` stores its value is a parameter, by the number of receivers.
mod Defs
pub mod Invariant
pub mod Safety
pub mod Signatures
mod Runs
pub use Defs.{Decision, retry, give_up, Gate, new, next_round, counted}
pub use Defs.{
  Phase, idle, elected, closed, sleeping, giving, reopened, refused, watching, parked, woken,
  leaving, done,
}
pub use Defs.{
  Move, elect, refuse, close, count_on, count_out, resume, latch, release, subscribe, look_open,
  look_shut, changed, decide_out, decide_on, unsubscribe, again,
}
pub use Defs.{in_round, listens, seen_version, System, start, Step, pick, Reach, here, next}
pub use Defs.{update, unsubscribed, sent}
