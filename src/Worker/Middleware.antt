-- ===== src/Worker/Middleware.antt =====
-- internal/middleware: handlers, the wrappers around them, and how `Chain` composes these.
use mini_sidekiq.Prelude.{
  ℕ, zero, suc, ◌+◌, ◌-◌, String, List, [], ◌∷◌, ◌++◌, ◌<>◌, length, get_elem?, Option, none, some,
  if◌then◌else◌, leb,
}
use mini_sidekiq.Exec.{Error}
use mini_sidekiq.Job.{Job}

-- How a call ends: with `err.Error()` if it returns an error, or by a panic, whose value and stack
-- are texts.
pub data Outcome : Type 0 where
  returned : Option String → Outcome
  panicked : String → String → Outcome

-- What the logger is told.
pub data LogLine : Type 0 where
  job_started : String → String → String → ℕ → LogLine
  job_finished : String → String → ℕ → Option String → LogLine
  sending_email : String → String → LogLine
  failing_on_purpose : String → ℕ → LogLine
  acknowledge_failed requeue_failed dead_letter_failed : String → Error → LogLine

-- The process that runs the handlers: the clock, the log, the two collectors of metrics.go, and
-- `env`, all that the handlers use besides. The clock never goes back.
pub record Process (Env : Type 0) : Type 0 where
  pub env : Env
  pub clock : ℕ
  pub log : List LogLine
  pub jobs_processed : List (String × String)
  pub job_duration : List (String × ℕ)

pub record Context : Type 0 where
  pub deadline : Option ℕ

-- `context.WithTimeout`
abbrev pub with_timeout : ℕ → ℕ → Context → Context
with_timeout now d ctx = record {
  deadline = elim ctx.deadline [
    | none ↦ some (now + d)
    | some t ↦ some (if leb t (now + d) then t else now + d)
  ];
}

-- A handler gets a pointer to the job, so that the job comes back as the handler leaves it.
abbrev pub Handler : Type 0 → Type 0
Handler Env = Context → Job → Process Env → Outcome × Job × Process Env

abbrev pub Middleware : Type 0 → Type 0
Middleware Env = Handler Env → Handler Env

-- The text of a recovered panic: `fmt.Errorf("panic: %v\n%s", r, debug.Stack())`.
abbrev pub panic_text : String → String → String
panic_text value stack = "panic: " <> value <> "\n" <> stack

abbrev pub recovered : Outcome → Option String
recovered (returned e) = e
recovered (panicked v s) = some (panic_text v s)

abbrev pub outcome_label : Option String → String
outcome_label none = "success"
outcome_label (some e) = "failure"

module _ {Env : Type 0} where
  abbrev apply_at : Option (Middleware Env) → Handler Env → Handler Env
  apply_at none h = h
  apply_at (some m) h = m h

  -- The loop of `Chain`, from index `i - 1` down to 0.
  abbrev pub wrap : List (Middleware Env) → ℕ → Handler Env → Handler Env
  wrap mws zero h = h
  wrap mws (suc i) h = wrap mws i (apply_at (get_elem? mws i) h)

  unfoldable pub chain : Handler Env → List (Middleware Env) → Handler Env
  chain base mws = wrap mws (length mws) base

  abbrev pub write_log : LogLine → Process Env → Process Env
  write_log line p = record p { log = p.log ++ (line ∷ []) }

  unfoldable pub logging_middleware : Middleware Env
  logging_middleware next ctx job p =
      let started = job_started job.id job.type job.queue (job.attempts + 1) in
      let (outcome, j, q) = next ctx job (write_log started p) in
      elim outcome [
        | panicked v s ↦ (panicked v s, j, q)
        | returned e ↦ (returned e, j, write_log (job_finished j.id j.type (q.clock - p.clock) e) q)
      ]

  unfoldable pub recovery_middleware : Middleware Env
  recovery_middleware next ctx job p =
      let (outcome, j, q) = next ctx job p in (returned (recovered outcome), j, q)

  unfoldable pub timeout_middleware : ℕ → Middleware Env
  timeout_middleware d next ctx job p = next (with_timeout p.clock d ctx) job p

  unfoldable pub metrics_middleware : Middleware Env
  metrics_middleware next ctx job p =
      let (outcome, j, q) = next ctx job p in
      elim outcome [
        | panicked v s ↦ (panicked v s, j, q)
        | returned e ↦ (
          returned e,
          j,
          record q {
            job_duration = q.job_duration ++ ((j.type, q.clock - p.clock) ∷ []);
            jobs_processed = q.jobs_processed ++ ((j.type, outcome_label e) ∷ []);
          },
        )
      ]
