-- ===== src/Worker/Pool.antt =====
-- internal/worker/registry.go and pool.go: how a worker runs one job and records its outcome.
use mini_sidekiq.Prelude.{
  ℕ, ◌+◌, String, List, [], ◌∷◌, ◌++◌, Option, none, some, if◌then◌else◌, leb, ◌==◌, ◌<>◌,
}
use mini_sidekiq.Exec.{Exec, Error, ok, err}
use mini_sidekiq.Job.{Job, retry, dead}
use mini_sidekiq.Broker.Interface.{Broker}
use mini_sidekiq.Worker.Middleware.{
  Context, Handler, Middleware, LogLine, Process, acknowledge_failed, requeue_failed,
  dead_letter_failed, recovered, chain, logging_middleware, write_log,
}
use mini_sidekiq.Worker.Retry.{next_delay}

-- The map from job types to handlers.
abbrev pub Registry : Type 0 → Type 0
Registry Env = String → Option (Handler Env)

module _ {Env : Type 0} where
  abbrev pub new_registry : Registry Env
  new_registry job_type = none

  unfoldable pub register : String → Handler Env → Registry Env → Registry Env
  register job_type h registry t = if job_type == t then some h else registry t

  -- `Registry.Get`
  unfoldable pub get : String → Registry Env → Option (Handler Env)
  get job_type registry = registry job_type

  -- `runHandler`: a panic becomes an error.
  unfoldable pub run_handler :
      Context → Handler Env → Job → Process Env → Option String × Job × Process Env
  run_handler ctx handler job p =
      let (outcome, j, q) = handler ctx job p in (recovered outcome, j, q)

-- The fields of `Pool` that the run of a job reads.
pub record Pool (Env : Type 0) : Type 0 where
  pub registry : Registry Env
  pub middleware : List (Middleware Env)

module _ {Env : Type 0} where
  unfoldable pub new_pool : Registry Env → Pool Env
  new_pool registry = record { registry = registry; middleware = logging_middleware ∷ [] }

  -- `Pool.Use`
  unfoldable pub use_middleware : List (Middleware Env) → Pool Env → Pool Env
  use_middleware mws pool = record pool { middleware = pool.middleware ++ mws }

abbrev pub Worker : Type 0 → Type 0 → Type 0
Worker Env State = Process Env → State → Process Env × State

abbrev pub unregistered : (String → String) → Job → Job
unregistered quoted job = record job {
  last_error = "no handler registered for job type " <> quoted job.type;
  status = dead;
}

module _ {Env : Type 0} (b : Broker) where
  -- A bookkeeping call has a context of its own; its error is only logged.
  abbrev pub bookkeep : Exec b.State (Unit {0}) → (Error → LogLine) → Worker Env b.State
  bookkeep call line p s =
      let (result, s') = call s in
      elim result [ ok u ↦ (p, s') | err e ↦ (write_log (line e) p, s') ]

  unfoldable pub acknowledge : Job → Worker Env b.State
  acknowledge job = bookkeep (b.acknowledge job) (acknowledge_failed job.id)

  unfoldable pub dead_letter : Job → Worker Env b.State
  dead_letter job = bookkeep (b.move_to_dead_letter job) (dead_letter_failed job.id)

  -- `draw` is what `rand.Intn` returns in `NextDelay`.
  unfoldable pub fail : ℕ → Job → Worker Env b.State
  fail draw job p s =
      let failed = record job { attempts = job.attempts + 1 } in
      if leb failed.max_attempts failed.attempts
      then dead_letter (record failed { status = dead }) p s
      else bookkeep
          (b.requeue p.clock (record failed { status = retry }) (next_delay failed.attempts draw))
          (requeue_failed job.id) p s

  -- What a worker does with the result of the handler.
  abbrev pub settle : ℕ → Option String × Job × Process Env → b.State → Process Env × b.State
  settle draw (none, job, p) s = acknowledge job p s
  settle draw (some e, job, p) s = fail draw (record job { last_error = e }) p s

  -- `quoted` is the verb %q of fmt.
  unfoldable pub process : (String → String) → Pool Env → ℕ → Context → Job → Worker Env b.State
  process quoted pool draw ctx job p s = elim (get job.type pool.registry) [
    | none ↦ dead_letter (unregistered quoted job) p s
    | some handler ↦ settle draw (run_handler ctx (chain handler pool.middleware) job p) s
  ]
