-- ===== src/Scheduler.antt =====
-- internal/scheduler/scheduler.go: the loop that promotes due jobs at every tick.
pub mod Promoting
use mini_sidekiq.Prelude.{
  ℕ, zero, suc, String, List, [], ◌∷◌, Option, none, some, Bool, true, false,
}
use mini_sidekiq.Exec.{Error, Result, ok, err}
use mini_sidekiq.Broker.Interface.{Broker}

-- The fields of `Scheduler`, but for the broker and the logger.
pub record Scheduler : Type 0 where
  pub queues : List String
  pub interval : ℕ

unfoldable pub new_scheduler : List String → ℕ → Scheduler
new_scheduler queues interval = record { queues = queues; interval = interval }

-- What the loop waits for: a tick, with its time and whether the context is done once the broker has
-- replied, or the end of the context.
pub data Event : Type 0 where
  tick : ℕ → Bool → Event
  done : Event

-- What the logger is told.
pub data Note : Type 0 where
  promoted_due_jobs : ℕ → Note
  promote_due_jobs_failed : Error → Note

-- What a tick adds to the log after the reply, and whether the loop goes on.
abbrev pub report : Bool → ℕ × Option Error → List Note → Bool × List Note
report closed (n, some e) log = elim closed [
  | true ↦ (false, log)
  | false ↦ (true, promote_due_jobs_failed e ∷ log)
]
report closed (n, none) log = elim n [
  | zero ↦ (true, log)
  | suc m ↦ (true, promoted_due_jobs (suc m) ∷ log)
]

-- A broker that fails before it can count returns 0.
abbrev pub counted : Result (ℕ × Option Error) → ℕ × Option Error
counted (ok x) = x
counted (err e) = (0, some e)

module _ (b : Broker) (queues : List String) where
  -- `Run`, for the events given; the latest note comes first.
  unfoldable pub run : List Event → List Note → b.State → List Note × b.State
  run [] log s = (log, s)
  run (done ∷ events) log s = (log, s)
  run (tick now closed ∷ events) log s =
      let (result, s') = b.promote_due_jobs now queues s in
      let (on, log') = report closed (counted result) log in
      elim on [ true ↦ run events log' s' | false ↦ (log', s') ]
