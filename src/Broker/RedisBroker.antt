-- ===== src/Broker/RedisBroker.antt =====
-- internal/broker/redis.go: the methods that enqueue, hand out, settle and promote jobs. Each `send`
-- is one round trip; between two of them the server may serve others.
pub mod Atomic
pub mod Ending
pub mod Dequeue
pub mod Promote
pub mod Calm
pub mod Line
pub mod Fifo
use mini_sidekiq.Prelude.{
  ℕ, String, List, [], ◌∷◌, Option, none, some, ◌+◌, ◌*◌, ◌/◌, ◌^◌, ◌==◌, map, if◌then◌else◌,
}
use mini_sidekiq.Exec.{
  Exec, Error, Result, ok, err, pure, raise, or_raise, redis_nil, marshal, unmarshal, not_found,
  not_dead, ◌>>=◌, ◌>>◌,
}
use mini_sidekiq.Job.{Job, pending, dead}
use mini_sidekiq.Redis.{Redis, call_get, call_del, call_lrem_all, call_zrem, call_zrangebyscore}
use mini_sidekiq.Broker.Codec.{Codec}
use mini_sidekiq.Broker.Network.{World, send, attempt, pipeline}
use mini_sidekiq.Broker.Keys.{job_key, queue_key, retry_key, dead_key, active_key, scheduled_key}
use mini_sidekiq.Broker.Scripts.{
  rpop_zadd, set_branch_lpush_zadd, retry_dead, set_zadd_zrem, set_lpush_zrem, promote_job,
}

-- `time.Second`, and `Time.Unix`.
abbrev pub second : ℕ
second = 10 ^ 9

abbrev pub unix : ℕ → ℕ
unix t = t / second

-- What RetryDeadJob changes in a job.
abbrev pub reset : ℕ → Job → Job
reset now job = record job { status = pending; attempts = 0; last_error = ""; process_at = now }

module _ (c : Codec) (r : Redis c.Data) where
  open r use {Db}

  abbrev pub Client : Type 0 → Type 0
  Client A = Exec (World Db) A

  unfoldable pub enqueue : ℕ → Job → Client (Unit {0})
  enqueue now job = do
    job_data ← or_raise (c.marshal job) marshal
    send (
        set_branch_lpush_zadd c r (job_key job.id) (queue_key job.queue) scheduled_key job_data
          (unix job.process_at) (unix now) job.id)

  -- The loop of `Dequeue`; the empty id stands for none.
  unfoldable pub pop_first : ℕ → List String → Client String
  pop_first now [] = pure ""
  pop_first now (queue ∷ queues) = do
    popped ← send (rpop_zadd c r (queue_key queue) active_key (unix (now + 30 * second)))
    elim popped [ none ↦ pop_first now queues | some id ↦ pure id ]

  -- A missing record is the error `redis.Nil`.
  unfoldable pub fetch : String → Client Job
  fetch id = do
    found ← send (call_get r (job_key id))
    job_data ← or_raise found redis_nil
    or_raise (c.unmarshal job_data) unmarshal

  -- What follows the loop.
  unfoldable pub hand_out : String → Client (Option Job)
  hand_out id = if id == "" then pure none else do job ← fetch id; pure (some job)

  unfoldable pub dequeue : ℕ → List String → Client (Option Job)
  dequeue now queues = do id ← pop_first now queues; hand_out id

  unfoldable pub acknowledge : Job → Client (Unit {0})
  acknowledge job = do send (call_zrem r active_key job.id); send (call_del r (job_key job.id))

  unfoldable pub requeue : ℕ → Job → ℕ → Client (Unit {0})
  requeue now job delay = do
    job_data ← or_raise (c.marshal job) marshal
    send (
        set_zadd_zrem c r (job_key job.id) (retry_key job.queue) active_key job_data
          (unix (now + delay)) job.id)

  unfoldable pub move_to_dead_letter : Job → Client (Unit {0})
  move_to_dead_letter j = do
    let job = record j { status = dead }
    job_data ← or_raise (c.marshal job) marshal
    send (set_lpush_zrem c r (job_key job.id) (dead_key job.queue) active_key job_data job.id)

  -- `PromoteDueJobs` returns its count beside an error.
  unfoldable pub promote_ids : String → List String → ℕ → Client (ℕ × Option Error)
  promote_ids source [] promoted = pure (promoted, none)
  promote_ids source (id ∷ ids) promoted = do
    result ← attempt (send (promote_job c r source (job_key id) id))
    elim result [
      | err e ↦ pure (promoted, some e)
      | ok moved ↦ promote_ids source ids (if moved then promoted + 1 else promoted)
    ]

  unfoldable pub promote_sources : ℕ → List String → ℕ → Client (ℕ × Option Error)
  promote_sources now [] promoted = pure (promoted, none)
  promote_sources now (source ∷ sources) promoted = do
    found ← attempt (send (call_zrangebyscore r source now))
    elim found [
      | err e ↦ pure (promoted, some e)
      | ok ids ↦ (do
        (n, failed) ← promote_ids source ids promoted
        elim failed [ none ↦ promote_sources now sources n | some e ↦ pure (n, some e) ])
    ]

  unfoldable pub promote_due_jobs : ℕ → List String → Client (ℕ × Option Error)
  promote_due_jobs now queues = promote_sources (unix now) (scheduled_key ∷ map retry_key queues) 0

  unfoldable pub get_job : String → Client (Option Job)
  get_job id = do
    found ← send (call_get r (job_key id))
    elim found [
      | none ↦ pure none
      | some job_data ↦ (do job ← or_raise (c.unmarshal job_data) unmarshal; pure (some job))
    ]

  unfoldable pub retry_dead_job : ℕ → String → Client (Unit {0})
  retry_dead_job now id = do
    found ← get_job id
    old ← or_raise found not_found
    let job = reset now old
    new_data ← or_raise (c.marshal job) marshal
    moved ←
        send (retry_dead c r (dead_key job.queue) (job_key id) (queue_key job.queue) id new_data)
    if moved then pure tt else raise not_dead

  -- A plain pipeline: no transaction, so the server may serve others between its commands, and a
  -- fault may cut it short.
  unfoldable pub delete_pipeline : String → String → Client (Unit {0})
  delete_pipeline queue id = pipeline (
      call_lrem_all r (queue_key queue) id
      ∷ (call_zrem r (retry_key queue) id >> pure tt)
      ∷ call_lrem_all r (dead_key queue) id
      ∷ (call_zrem r active_key id >> pure tt)
      ∷ (call_zrem r scheduled_key id >> pure tt)
      ∷ call_del r (job_key id)
      ∷ [])

  unfoldable pub delete_job : String → Client (Unit {0})
  delete_job id = do
    found ← get_job id
    elim found [ none ↦ pure tt | some job ↦ delete_pipeline job.queue id ]
