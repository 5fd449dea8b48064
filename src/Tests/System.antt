-- ===== src/Tests/System.antt =====
-- The theorems on the order in a queue and on the whole system, at one job.
use mini_sidekiq.Prelude.{some, none, true, false, String, ◌≡◌, refl, List, [], ◌∷◌}
use mini_sidekiq.Broker.Keys.{in_queue, in_active}
use mini_sidekiq.Broker.Network.{calm, delivered, lost_reply}
use mini_sidekiq.Broker.RedisBroker.Line.{Holds, Fits}
use mini_sidekiq.Broker.RedisBroker.Fifo.{Op, puts, gets, run_queue, run_redis, run_redis-run_queue}
use mini_sidekiq.Exec.{ok}
use mini_sidekiq.Job.{Job}
use mini_sidekiq.Broker.Tracking.{Tracks, put}
use mini_sidekiq.Broker.Interface.{redis_broker}
use mini_sidekiq.Client.{Inputs, enqueue}
use mini_sidekiq.Client.Enqueuing.{intended}
use mini_sidekiq.Dispatcher.{Turn, started, again, turn_at}
use mini_sidekiq.Commands.{send_email_handler}
use mini_sidekiq.Worker.Middleware.{Context, Process, chain, logging_middleware}
use mini_sidekiq.Worker.Settling.{after, decision}
use mini_sidekiq.System.Delivery.{enqueue-delivered}
use mini_sidekiq.Worker.Pool.{Pool, new_pool, new_registry, register, get, run_handler, process}
use mini_sidekiq.System.{System}
use mini_sidekiq.Tests.Fixtures.{plain, server, mail, nowhere, empty-Tracks}

abbrev ops : List Op
ops = puts 3000 mail ∷ gets 4000 ∷ gets 5000 ∷ []

empty-Holds : Holds plain server "critical" [] []
empty-Holds = record { line = refl; records = tt; running = tt }

mail-Fits : Fits plain server "critical" 3000 mail []
mail-Fits = (refl, refl, λ e. cc e, tt, (mail, refl))

run_redis-run_queue_example : run_redis plain server "critical" ops (calm []) ≡ run_queue [] ops
run_redis-run_queue_example =
    run_redis-run_queue plain server "critical" ops [] [] empty-Holds (mail-Fits, tt)

abbrev no_handlers : Pool (Unit {0})
no_handlers = new_pool new_registry

abbrev same_text : String → String
same_text s = s

abbrev blank : System server.Db
blank = record { world = record { db = []; faults = delivered ∷ lost_reply ∷ [] }; held = [] }

abbrev inputs : Inputs
inputs = record {
  payload = some "{}";
  uuid = "b2";
  created = 1000;
  process = 1001;
  delayed_from = 1002;
  sent = 1003;
}

abbrev sent_mail : Job
sent_mail = intended inputs "{}" "SendEmail" []

abbrev mailer : Pool (Unit {0})
mailer = new_pool (register "SendEmail" send_email_handler new_registry)

abbrev next_turn : Turn
next_turn = record { now = 2000; done_before = false; done_after = false; accepted = true }

abbrev unbounded : Context
unbounded = record { deadline = none }

abbrev resting : Process (Unit {0})
resting = record { env = tt; clock = 5000; log = []; jobs_processed = []; job_duration = [] }

default_empty : Holds plain server "default" [] []
default_empty = record { line = refl; records = tt; running = tt }

sent_mail-Fits : Fits plain server "default" 1003 sent_mail []
sent_mail-Fits = (refl, refl, λ e. cc e, tt, (sent_mail, refl))

enqueue-delivered_example :
    let (v, j, p') = decision mailer unbounded sent_mail resting in
    let (queued, world₁) = enqueue (redis_broker plain server) inputs "SendEmail" [] (calm []) in
    let (fetched, world₂) =
      turn_at (redis_broker plain server) next_turn "default" started world₁ in
    let (p'', world₃) =
      process (redis_broker plain server) same_text mailer 7 unbounded sent_mail resting world₂ in
    (queued ≡ ok sent_mail)
    × (fetched.0 ≡ again)
    × (fetched.1.submitted ≡ sent_mail ∷ [])
    × (p'' ≡ p')
    × Tracks plain server world₃.db
        (after v j (put "b2" in_active (put "b2" (in_queue "default") nowhere)))
unfolding new_pool register get run_handler chain logging_middleware send_email_handler
enqueue-delivered_example =
    enqueue-delivered plain server same_text mailer "default" inputs "{}" "SendEmail" [] next_turn 7
      unbounded resting [] nowhere empty-Tracks default_empty refl refl sent_mail-Fits refl refl
      refl (λ n e s. (_, refl))
