-- ===== src/Client.antt =====
-- pkg/client: enqueuing jobs, and how a server is put together.
pub mod Enqueuing
pub mod Wiring
pub mod Running
pub mod Ending
use mini_sidekiq.Prelude.{
  ℕ, zero, suc, ◌+◌, ◌*◌, ◌^◌, String, List, [], ◌∷◌, map, Option, none, some, ℤ, pos, negsuc, ◌==◌,
  if◌then◌else◌, eqb,
}
use mini_sidekiq.Exec.{Exec, or_raise, pure, marshal, ◌>>=◌, ◌>>◌}
use mini_sidekiq.Job.{Job, new_job}
use mini_sidekiq.Broker.Interface.{Broker}
use mini_sidekiq.Broker.RedisBroker.{second}
use mini_sidekiq.Dispatcher.{QueueConfig, Dispatcher, new_dispatcher}
use mini_sidekiq.Scheduler.{Scheduler, new_scheduler}
use mini_sidekiq.Worker.Pool.{Pool, new_pool, new_registry, register, use_middleware}
use mini_sidekiq.Worker.Middleware.{Handler, Middleware}

-- The field `delay` is named `In` in the source.
pub record EnqueueOptions : Type 0 where
  pub queue : String
  pub delay : ℤ
  pub max_attempts : ℤ

-- What a call reads from outside: the results of `json.Marshal` and `uuid.New`, the two times in
-- `NewJob`, the one that the delay is added to, and the one at which the broker is called.
pub record Inputs : Type 0 where
  pub payload : Option String
  pub uuid : String
  pub created : ℕ
  pub process : ℕ
  pub delayed_from : ℕ
  pub sent : ℕ

abbrev pub queue_of : List EnqueueOptions → String
queue_of [] = "default"
queue_of (o ∷ opts) = if o.queue == "" then "default" else o.queue

abbrev pub delay_job : ℕ → ℤ → Job → Job
delay_job now (pos zero) job = job
delay_job now (pos (suc d)) job = record job { process_at = now + suc d }
delay_job now (negsuc d) job = job

abbrev pub limit_job : ℤ → Job → Job
limit_job (pos zero) job = job
limit_job (pos (suc n)) job = record job { max_attempts = suc n }
limit_job (negsuc n) job = job

-- Only the first option counts.
abbrev pub with_options : ℕ → List EnqueueOptions → Job → Job
with_options now [] job = job
with_options now (o ∷ opts) job = limit_job o.max_attempts (delay_job now o.delay job)

unfoldable pub enqueue : (b : Broker) → Inputs → String → List EnqueueOptions → Exec b.State Job
enqueue b x job_type opts = do
  built ← or_raise (new_job x.payload x.uuid x.created x.process (queue_of opts) job_type) marshal
  let job = with_options x.delayed_from opts built
  b.enqueue x.sent job
  pure job

-- server.go. The cadences are durations in nanoseconds.
pub record ServerConfig : Type 0 where
  pub concurrency : ℕ
  pub queues : List (String × ℤ)
  pub buffer_size : ℕ
  pub poll_interval : ℕ
  pub scheduler_interval : ℕ

abbrev pub default_poll_interval : ℕ
default_poll_interval = 250 * 10 ^ 6

abbrev pub default_scheduler_interval : ℕ
default_scheduler_interval = 5 * second

abbrev or_default : ℕ → ℕ → ℕ
or_default n d = if eqb n 0 then d else n

-- The pool with its numbers of workers and of places, and the two loops.
pub record Server (Env : Type 0) : Type 0 where
  pub pool : Pool Env
  pub workers : ℕ
  pub buffer_size : ℕ
  pub dispatcher : Dispatcher
  pub scheduler : Scheduler

abbrev pub queue_config : String × ℤ → QueueConfig
queue_config (name, weight) = record { name = name; weight = weight }

abbrev pub queue_name : String × ℤ → String
queue_name (name, weight) = name

-- `cfg.queues` is in the order in which the map is visited.
unfoldable pub new_server : {Env : Type 0} → ServerConfig → Server Env
new_server cfg = record {
  pool = new_pool new_registry;
  workers = cfg.concurrency;
  buffer_size = or_default cfg.buffer_size (cfg.concurrency * 2);
  dispatcher =
      new_dispatcher (map queue_config cfg.queues)
        (or_default cfg.poll_interval default_poll_interval);
  scheduler =
      new_scheduler (map queue_name cfg.queues)
        (or_default cfg.scheduler_interval default_scheduler_interval);
}

-- `Server.Register` and `Server.Use`
unfoldable pub server_register : {Env : Type 0} → String → Handler Env → Server Env → Server Env
server_register job_type h server = record server {
  pool = record server.pool { registry = register job_type h server.pool.registry };
}

unfoldable pub server_use : {Env : Type 0} → List (Middleware Env) → Server Env → Server Env
server_use mws server = record server { pool = use_middleware mws server.pool }
