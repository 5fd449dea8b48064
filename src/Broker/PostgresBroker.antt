-- ===== src/Broker/PostgresBroker.antt =====
-- internal/broker/postgres.go: the methods of the broker. Each `send` is one round trip.
pub mod Outcome
pub mod Enqueue
pub mod Dequeue
pub mod Exclusive
pub mod Settling
pub mod Reviving
pub mod RoundTrip
pub mod Page
pub mod Counts
pub mod Depth
use mini_sidekiq.Prelude.{
  ℕ, ◌+◌, String, Bool, true, false, ◌&&◌, List, [], ◌∷◌, map, Option, none, some, ◌==◌,
  if◌then◌else◌, leb, ltb,
}
use mini_sidekiq.Exec.{
  Exec, Error, Result, ok, err, pure, raise, or_raise, unique_violation, invalid_json, not_dead,
  ◌>>=◌, ◌>>◌,
}
use mini_sidekiq.Job.{Job, JobStatus, pending, active, retry, dead, completed, other}
use mini_sidekiq.Broker.Network.{World, send, attempt}
use mini_sidekiq.Broker.Stats.{QueueStats, StatsMap, no_queues, put_stats}
use mini_sidekiq.Broker.Interface.{Broker, AdminBroker}
use mini_sidekiq.Broker.Postgres.Table.{Row, Table}
use mini_sidekiq.Broker.Postgres.Statements.{
  insert_row, update_row, update_row_if, delete_row, select_row, claim_row, select_rows,
  select_stats,
}
use mini_sidekiq.Broker.Postgres.Server.{PostgresServer, Database, run_sql}

-- An empty UniqueKey is NULL.
abbrev pub nullable : String → Option String
nullable s = if s == "" then none else some s

abbrev pub from_nullable : Option String → String
from_nullable none = ""
from_nullable (some s) = s

-- The conversion of a status to and from its text.
abbrev pub status_text : JobStatus → String
status_text pending = "pending"
status_text active = "active"
status_text retry = "retry"
status_text dead = "dead"
status_text completed = "completed"
status_text (other s) = s

abbrev pub has_status : JobStatus → Row → Bool
has_status status a = status_text a.status == status_text status

-- enqueued_at has no column.
unfoldable pub scan_job : Row → Job
scan_job a = record {
  id = a.id;
  queue = a.queue;
  type = a.type;
  payload = a.payload;
  priority = a.priority;
  created_at = a.created_at;
  enqueued_at = 0;
  process_at = a.process_at;
  attempts = a.attempts;
  max_attempts = a.max_attempts;
  last_error = a.last_error;
  unique_key = from_nullable a.unique_key;
  status = a.status;
}

abbrev pub PostgresClient : Type 0 → Type 0
PostgresClient A = Exec (World Database) A

-- A duplicate counts as success.
abbrev pub unless_duplicate : Error → PostgresClient (Unit {0})
unless_duplicate unique_violation = pure tt
unless_duplicate e = raise e

abbrev pub completed_row : ℕ → Row → Row
completed_row now a = record a { status = completed; updated_at = now }

abbrev pub requeued_row : ℕ → Job → ℕ → Row → Row
requeued_row now job process_at a = record a {
  status = retry;
  attempts = job.attempts;
  last_error = job.last_error;
  process_at = process_at;
  updated_at = now;
}

abbrev pub dead_row : ℕ → Job → Row → Row
dead_row now job a = record a {
  status = dead;
  attempts = job.attempts;
  last_error = job.last_error;
  updated_at = now;
}

abbrev pub revived_row : ℕ → Row → Row
revived_row now a = record a {
  status = pending;
  attempts = 0;
  last_error = "";
  process_at = now;
  updated_at = now;
}

-- The loop over the rows of the answer.
abbrev pub collect_stats : List QueueStats → StatsMap → StatsMap
collect_stats [] stats = stats
collect_stats (s ∷ l) stats = collect_stats l (put_stats s stats)

module _ (pg : PostgresServer) where
  open pg use {jsonb, timestamp, tie}

  -- The VALUES of the INSERT.
  abbrev pub row_with : Job → String → Row
  row_with job payload = record {
    id = job.id;
    queue = job.queue;
    type = job.type;
    payload = payload;
    priority = job.priority;
    status = job.status;
    attempts = job.attempts;
    max_attempts = job.max_attempts;
    last_error = job.last_error;
    unique_key = nullable job.unique_key;
    process_at = timestamp job.process_at;
    created_at = timestamp job.created_at;
    updated_at = timestamp job.created_at;
  }

  unfoldable pub insert_job : Job → Exec Table (Unit {0})
  insert_job job = do
    payload ← or_raise (jsonb job.payload) invalid_json
    insert_row (row_with job payload)

  unfoldable pub enqueue : Job → PostgresClient (Unit {0})
  enqueue job = do
    inserted ← attempt (send (run_sql (λ now locked. insert_job job)))
    elim inserted [ ok u ↦ pure tt | err e ↦ unless_duplicate e ]

  unfoldable pub dequeue : List String → PostgresClient (Option Job)
  dequeue [] = pure none
  dequeue (queue ∷ queues) = do
    claimed ← send (run_sql (λ now locked. claim_row tie locked queue now))
    elim claimed [ none ↦ dequeue queues | some a ↦ pure (some (scan_job a)) ]

  unfoldable pub acknowledge : Job → PostgresClient (Unit {0})
  acknowledge job = do send (run_sql (λ now locked. update_row job.id (completed_row now))); pure tt

  -- `now` is the client's clock.
  unfoldable pub requeue : ℕ → Job → ℕ → PostgresClient (Unit {0})
  requeue now job delay = do
    let process_at = timestamp (now + delay)
    send (run_sql (λ at locked. update_row job.id (requeued_row at job process_at)))
    pure tt

  unfoldable pub move_to_dead_letter : Job → PostgresClient (Unit {0})
  move_to_dead_letter job = do
    send (run_sql (λ now locked. update_row job.id (dead_row now job)))
    pure tt

  unfoldable pub get_jobs_by_status : JobStatus → ℕ → PostgresClient (List Job)
  get_jobs_by_status status limit = do
    rows ← send (run_sql (λ now locked. select_rows tie (has_status status) limit))
    pure (map scan_job rows)

  unfoldable pub get_queue_stats : PostgresClient StatsMap
  get_queue_stats = do
    groups ← send (run_sql (λ now locked. select_stats now))
    pure (collect_stats groups no_queues)

  unfoldable pub promote_due_jobs : PostgresClient (ℕ × Option Error)
  promote_due_jobs = pure (0, none)

  unfoldable pub get_job : String → PostgresClient (Option Job)
  get_job id = do
    found ← send (run_sql (λ now locked. select_row id))
    elim found [ none ↦ pure none | some a ↦ pure (some (scan_job a)) ]

  unfoldable pub retry_dead_job : String → PostgresClient (Unit {0})
  retry_dead_job id = do
    affected ← send (run_sql (λ now locked. update_row_if id (has_status dead) (revived_row now)))
    elim affected [ none ↦ raise not_dead | some a ↦ pure tt ]

  unfoldable pub delete_job : String → PostgresClient (Unit {0})
  delete_job id = send (run_sql (λ now locked. delete_row id))

  -- The server has its own clock.
  abbrev pub postgres_broker : Broker
  postgres_broker = record {
    State = World Database;
    enqueue = λ now job. enqueue job;
    dequeue = λ now queues. dequeue queues;
    acknowledge = acknowledge;
    requeue = requeue;
    move_to_dead_letter = move_to_dead_letter;
    promote_due_jobs = λ now queues. promote_due_jobs;
  }

  abbrev pub postgres_admin : AdminBroker
  postgres_admin = record {
    calls = postgres_broker;
    get_jobs_by_status = get_jobs_by_status;
    get_queue_stats = get_queue_stats;
    get_job = get_job;
    retry_dead_job = λ now id. retry_dead_job id;
    delete_job = delete_job;
  }
