-- ===== src/System/Custody.antt =====
-- Who holds a job, over all steps of the system.
use mini_sidekiq.Job.{Job}
use mini_sidekiq.Redis.{Redis}
use mini_sidekiq.Broker.Codec.{Codec}
use mini_sidekiq.Worker.Pool.{Pool}
use mini_sidekiq.System.{System}
