-- ===== src/Tests/Loops.antt =====
-- The theorems on the dispatcher, the scheduler and the client, at concrete inputs.
use mini_sidekiq.Prelude.{◌+◌, ◌≡◌, refl, List, [], ◌∷◌, some, true, false, pos, ◌<◌, count, arith}
use mini_sidekiq.Broker.Interface.{redis_broker}
use mini_sidekiq.Broker.RedisBroker.{unix}
use mini_sidekiq.Broker.Tracking.{put}
use mini_sidekiq.Broker.Tracking.Deliver.{entry}
use mini_sidekiq.Dispatcher.{QueueConfig, Turn, run, started}
use mini_sidekiq.Dispatcher.Polling.{run-fair}
use mini_sidekiq.Scheduler.{tick, done}
use mini_sidekiq.Scheduler as Scheduler
use mini_sidekiq.Scheduler.Promoting.{Promoting, run-Promoting}
use mini_sidekiq.Client.{EnqueueOptions, Inputs, enqueue, ServerConfig, Server, new_server}
use mini_sidekiq.Client.Wiring.{new_server-covers, wanted_polls}
use mini_sidekiq.Job.{Job}
use mini_sidekiq.Client.Enqueuing.{IsWanted, Enqueues, enqueue-Enqueues}
use mini_sidekiq.Tests.Fixtures.{
  plain, server, idle, nowhere, empty-Tracks, running_db, running, running-Tracks, world_of,
}

abbrev weights : List QueueConfig
weights =
    record { name = "critical"; weight = pos 2 } ∷ record { name = "low"; weight = pos 1 } ∷ []

abbrev calm : Turn
calm = record { now = 5; done_before = false; done_after = false; accepted = true }

run-fair_example :
    count "low"
      (run
        (redis_broker plain server)
        ("critical" ∷ "critical" ∷ "low" ∷ [])
        1
        (calm ∷ calm ∷ calm ∷ [])
        started
        idle).0.polled
    ≡ 1 + 0
run-fair_example =
    run-fair (redis_broker plain server) "low" ("critical" ∷ "critical" ∷ "low" ∷ []) (omega arith)
      (calm ∷ calm ∷ calm ∷ []) 1 started idle
      ((refl, refl, refl), ((refl, refl, refl), ((refl, refl, refl), tt))) refl

run-Promoting_example : Promoting plain server ("critical" ∷ []) running [] (
    Scheduler.run
      (redis_broker plain server)
      ("critical" ∷ [])
      (tick 5 false ∷ tick 6 false ∷ done ∷ [])
      []
      (world_of running_db))
run-Promoting_example =
    run-Promoting plain server ("critical" ∷ []) running []
      (tick 5 false ∷ tick 6 false ∷ done ∷ []) (world_of running_db) running-Tracks

abbrev inputs : Inputs
inputs = record {
  payload = some "{}";
  uuid = "b2";
  created = 1000;
  process = 1001;
  delayed_from = 1002;
  sent = 1003;
}

abbrev later : EnqueueOptions
later = record { queue = ""; delay = pos 60000000000; max_attempts = pos 5 }

enqueue-Enqueues_example :
    (job : Job) × IsWanted inputs "{}" "SendEmail" (later ∷ []) job
    × Enqueues plain server nowhere
        (put job.id (entry (unix job.process_at) (unix 1003) job) nowhere)
        job
        (enqueue (redis_broker plain server) inputs "SendEmail" (later ∷ []) idle)
enqueue-Enqueues_example =
    enqueue-Enqueues plain server idle nowhere inputs "{}" "SendEmail" (later ∷ []) empty-Tracks
      refl refl (λ job wanted. (job, refl))

abbrev configured : ServerConfig
configured = record {
  concurrency = 2;
  queues = ("critical", pos 3) ∷ ("low", pos 1) ∷ [];
  buffer_size = 0;
  poll_interval = 0;
  scheduler_interval = 0;
}

abbrev built : Server (Unit {0})
built = new_server configured

new_server-covers_example :
    (count "critical" built.dispatcher.schedule
      ≡ wanted_polls "critical" (("critical", pos 3) ∷ ("low", pos 1) ∷ []))
    × (0 < count "critical" built.dispatcher.schedule → 0 < count "critical" built.scheduler.queues)
new_server-covers_example = new_server-covers (Unit {0}) configured "critical"
