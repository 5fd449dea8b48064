-- ===== src/System.antt =====
-- The dispatcher, the worker pool, the scheduler and the clients together, over the Redis broker: the
-- calls of Dispatcher.Run, Pool.process, Scheduler.Run and Client.Enqueue, in any order.
pub mod Holding
pub mod Keeping
pub mod Custody
pub mod Delivery
use mini_sidekiq.Prelude.{ℕ, String, ◌≡◌, ◌≢◌, List, [], ◌∷◌, ◌++◌, Option, some}
use mini_sidekiq.Exec.{Result, ok}
use mini_sidekiq.Job.{Job}
use mini_sidekiq.Redis.{Redis}
use mini_sidekiq.Redis.Values.{missing}
use mini_sidekiq.Broker.Codec.{Codec}
use mini_sidekiq.Broker.Network.{World, Fault}
use mini_sidekiq.Broker.Keys.{job_key}
use mini_sidekiq.Broker.RedisBroker.{enqueue, dequeue, promote_due_jobs}
use mini_sidekiq.Broker.Interface.{redis_broker}
use mini_sidekiq.Worker.Middleware.{Context, Process}
use mini_sidekiq.Worker.Pool.{Pool, process}
use mini_sidekiq.Worker.Settling.{decision, Encodable}

-- `held` are the jobs that Dequeue has returned and that no worker has finished with: in the hand of a
-- dispatcher, in the buffer of a pool, or in the hand of a worker.
pub record System (Db : Type 0) : Type 0 where
  pub world : World Db
  pub held : List Job

abbrev pub hand_over : Result (Option Job) → List Job → List Job
hand_over (ok (some job)) held = job ∷ held
hand_over _ held = held

module _ (c : Codec) (r : Redis c.Data) {Env : Type 0} (quoted : String → String)
    (pool : Pool Env) where
  open r use {Db, value}

  pub data Acts : System Db → System Db → Type 0 where
    -- A client enqueues a job under a new id.
    enqueues :
        (s : System Db) (now : ℕ) (job : Job) (d : c.Data)
        → value s.world.db (job_key job.id) ≡ missing
        → job.id ≢ ""
        → c.marshal job ≡ some d
        → Acts s (record s { world = (enqueue c r now job s.world).1 })
    -- A dispatcher asks for a job, and holds the one that it is handed, if any.
    polls :
        (s : System Db) (now : ℕ) (queues : List String)
        → Acts s (record {
          world = (dequeue c r now queues s.world).1;
          held = hand_over (dequeue c r now queues s.world).0 s.held;
        })
    -- Submit gives up, or the process ends.
    drops :
        (s : System Db) (before after : List Job) (job : Job)
        → s.held ≡ before ++ (job ∷ after)
        → Acts s (record s { held = before ++ after })
    -- A worker runs a job; the handler leaves its id as it is, and a record that can be encoded.
    works :
        (s : System Db) (before after : List Job) (job : Job) (draw : ℕ) (ctx : Context)
        (p : Process Env)
        → s.held ≡ before ++ (job ∷ after)
        → (decision pool ctx job p).1.id ≡ job.id
        → Encodable c (decision pool ctx job p).1
        → Acts s (record {
          world = (process (redis_broker c r) quoted pool draw ctx job p s.world).1;
          held = before ++ after;
        })
    promotes :
        (s : System Db) (now : ℕ) (queues : List String)
        → Acts s (record s { world = (promote_due_jobs c r now queues s.world).1 })
    -- What the network will do.
    faults_come :
        (s : System Db) (faults : List Fault)
        → Acts s (record s { world = record s.world { faults = faults } })

  pub data Reaches : System Db → Type 0 where
    begins :
        (db : Db) (faults : List Fault)
        → ((k : String) → value db k ≡ missing)
        → Reaches (record { world = record { db = db; faults = faults }; held = [] })
    goes : {s t : System Db} → Reaches s → Acts s t → Reaches t
