-- ===== src/Broker/Interface.antt =====
-- internal/broker/broker.go: the interface, in two records, and the Redis broker as its
-- implementation. `Broker` has the methods that the worker pool, the dispatcher, the scheduler and the
-- client call; `AdminBroker` has them and the others, which the dashboard calls. Close is left out.
use mini_sidekiq.Prelude.{ℕ, String, List, Option}
use mini_sidekiq.Exec.{Exec, Error}
use mini_sidekiq.Job.{Job, JobStatus}
use mini_sidekiq.Redis.{Redis}
use mini_sidekiq.Broker.Codec.{Codec}
use mini_sidekiq.Broker.Network.{World}
use mini_sidekiq.Broker.RedisBroker.{
  enqueue, dequeue, acknowledge, requeue, move_to_dead_letter, promote_due_jobs, get_job,
  retry_dead_job, delete_job,
}
use mini_sidekiq.Broker.Stats.{StatsMap}
use mini_sidekiq.Broker.Listing.{get_jobs_by_status}
use mini_sidekiq.Broker.Counting.{get_queue_stats}

-- A number in front is the time of the call; the delay of `requeue` is not negative.
pub record Broker : Type 1 where
  pub State : Type 0
  pub enqueue : ℕ → Job → Exec State (Unit {0})
  pub dequeue : ℕ → List String → Exec State (Option Job)
  pub acknowledge : Job → Exec State (Unit {0})
  pub requeue : ℕ → Job → ℕ → Exec State (Unit {0})
  pub move_to_dead_letter : Job → Exec State (Unit {0})
  pub promote_due_jobs : ℕ → List String → Exec State (ℕ × Option Error)

abbrev pub redis_broker : (c : Codec) → Redis c.Data → Broker
redis_broker c r = record {
  State = World r.Db;
  enqueue = enqueue c r;
  dequeue = dequeue c r;
  acknowledge = acknowledge c r;
  requeue = requeue c r;
  move_to_dead_letter = move_to_dead_letter c r;
  promote_due_jobs = promote_due_jobs c r;
}

pub record AdminBroker : Type 1 where
  pub calls : Broker
  pub get_jobs_by_status : JobStatus → ℕ → Exec calls.State (List Job)
  pub get_queue_stats : Exec calls.State StatsMap
  pub get_job : String → Exec calls.State (Option Job)
  pub retry_dead_job : ℕ → String → Exec calls.State (Unit {0})
  pub delete_job : String → Exec calls.State (Unit {0})

-- `scan` is the iteration of SCAN.
abbrev pub redis_admin :
    (c : Codec) (r : Redis c.Data) → (String → Exec r.Db (List String)) → AdminBroker
redis_admin c r scan = record {
  calls = redis_broker c r;
  get_jobs_by_status = get_jobs_by_status c r scan;
  get_queue_stats = get_queue_stats c r scan;
  get_job = get_job c r;
  retry_dead_job = retry_dead_job c r;
  delete_job = delete_job c r;
}
