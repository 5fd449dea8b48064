-- ===== src/Dispatcher.antt =====
-- internal/dispatcher/dispatcher.go: the weighted poll schedule and the loop that feeds the pool.
pub mod Polling
use mini_sidekiq.Prelude.{
  ℕ, zero, suc, ◌+◌, ◌%◌, String, List, [], ◌∷◌, ◌++◌, length, replicate, get_elem?, Option, none,
  some, Bool, true, false, ℤ, pos, negsuc,
}
use mini_sidekiq.Exec.{Exec, Error, Result, ok, err}
use mini_sidekiq.Job.{Job}
use mini_sidekiq.Broker.Interface.{Broker}

pub record QueueConfig : Type 0 where
  pub name : String
  pub weight : ℤ

-- The inner loop of `buildPollSchedule`: no turn for a weight that is not positive.
abbrev pub turns : QueueConfig → List String
turns q = elim q.weight [ pos n ↦ replicate n q.name | negsuc n ↦ [] ]

unfoldable pub build_poll_schedule : List QueueConfig → List String
build_poll_schedule [] = []
build_poll_schedule (q ∷ queues) = turns q ++ build_poll_schedule queues

-- The fields of `Dispatcher`, but for the broker, the pool and the logger.
pub record Dispatcher : Type 0 where
  pub schedule : List String
  pub poll_interval : ℕ

unfoldable pub new_dispatcher : List QueueConfig → ℕ → Dispatcher
new_dispatcher queues poll_interval = record {
  schedule = build_poll_schedule queues;
  poll_interval = poll_interval;
}

-- What the loop meets in one turn: the time; whether the context is done at the top of the loop,
-- and when the broker has replied; and whether the pool takes the job, which it does unless the
-- context is cancelled first.
pub record Turn : Type 0 where
  pub now : ℕ
  pub done_before : Bool
  pub done_after : Bool
  pub accepted : Bool

-- What the loop has done: the queues it polled, the jobs the pool took and the errors it logged, the
-- latest first; and how often it slept.
pub record Progress : Type 0 where
  pub polled : List String
  pub submitted : List Job
  pub logged : List (String × Error)
  pub slept : ℕ

abbrev pub started : Progress
started = record { polled = []; submitted = []; logged = []; slept = 0 }

-- Whether the loop goes round again.
pub data Next : Type 0 where
  again stop : Next

abbrev pub polling : String → Progress → Progress
polling queue p = record p { polled = queue ∷ p.polled }

abbrev pub sleep : Progress → Progress
sleep p = record p { slept = p.slept + 1 }

-- The rest of a turn, after `Dequeue`.
abbrev pub answer : Turn → String → Result (Option Job) → Progress → Next × Progress
answer turn queue (err e) p = elim turn.done_after [
  | true ↦ (stop, p)
  | false ↦ (again, sleep (record p { logged = (queue, e) ∷ p.logged }))
]
answer turn queue (ok none) p = (again, sleep p)
answer turn queue (ok (some job)) p = elim turn.accepted [
  | true ↦ (again, record p { submitted = job ∷ p.submitted })
  | false ↦ (stop, p)
]

-- `schedule[idx%len(schedule)]`
abbrev pub queue_at : List String → ℕ → Option String
queue_at [] idx = none
queue_at (q ∷ qs) idx = get_elem? (q ∷ qs) (idx % suc (length qs))

module _ (b : Broker) where
  -- One turn of the loop, at a queue of the schedule.
  unfoldable pub turn_at : Turn → String → Progress → b.State → (Next × Progress) × b.State
  turn_at turn queue p s =
      let (result, s') = b.dequeue turn.now (queue ∷ []) s in
      (answer turn queue result (polling queue p), s')

  -- `Run`, from the turn `idx` on, for as many turns as are given. With an empty schedule it stops
  -- at once.
  unfoldable pub run : List String → ℕ → List Turn → Progress → b.State → Progress × b.State
  run schedule idx [] p s = (p, s)
  run schedule idx (turn ∷ turns) p s = elim (queue_at schedule idx) [
    | none ↦ (p, s)
    | some queue ↦ elim turn.done_before [
      | true ↦ (p, s)
      | false ↦
          let ((next, p'), s') = turn_at turn queue p s in
          elim next [ stop ↦ (p', s') | again ↦ run schedule (idx + 1) turns p' s' ]
    ]
  ]
