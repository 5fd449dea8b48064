-- ===== src/Tests/Worker.antt =====
-- The theorems on the worker pool, at a handler that fails.
use mini_sidekiq.Prelude.{
  ◌<>◌, ◌+◌, ◌*◌, ◌^◌, ◌≤◌, ◌<◌, String, ◌≡◌, refl, [], ◌∷◌, none, some, arith, true, false, length,
}
use mini_sidekiq.Broker.RedisBroker.{second}
use mini_sidekiq.Exec.{network}
use mini_sidekiq.Worker.Middleware.{
  Context, Handler, Process, returned, panicked, requeue_failed, chain, logging_middleware,
  recovery_middleware, metrics_middleware,
}
use mini_sidekiq.Worker.Chain.{nested, chain-nested, metrics-counts_once}
use mini_sidekiq.Worker.Retry.{next_delay, next_delay-bounds}
use mini_sidekiq.Worker.Pool.{Pool, new_registry, register, get, new_pool, run_handler, process}
use mini_sidekiq.Worker.Settling.{again, decision}
use mini_sidekiq.Worker.Channel.{Channel, Steps, start, stay, then_step, submits, Steps-safe}
use mini_sidekiq.Broker.Postgres.Table.{Row, Table, find_row, conflicts, is_live}
use mini_sidekiq.Broker.Postgres.Due.{claimed}
use mini_sidekiq.Broker.PostgresBroker.{row_with, postgres_broker}
use mini_sidekiq.Worker.Recording.{Records, Written, process-Records}
use mini_sidekiq.Tests.Postgres.{pg, two, calm}
use mini_sidekiq.Tests.Fixtures.{mail, running}

abbrev failing : Handler (Unit {0})
failing ctx job p = (returned (some "boom"), job, p)

abbrev pool : Pool (Unit {0})
pool = new_pool (register "SendEmail" failing new_registry)

abbrev unbounded : Context
unbounded = record { deadline = none }

abbrev resting : Process (Unit {0})
resting = record { env = tt; clock = 5000; log = []; jobs_processed = []; job_duration = [] }

abbrev same_text : String → String
same_text s = s

abbrev running_rows : Table
running_rows = claimed 5000 (row_with pg mail "{}") ∷ []

mail_runs : (a : Row) → find_row "a1" running_rows ≡ some a → is_live a.status ≡ true
unfolding find_row is_live
mail_runs a h = ground (arith, h)

process-Records_example :
    let start = calm (record two { rows = running_rows }) in
    let (v, j, q) = decision pool unbounded mail resting in
    Records pg start
      (Written again 1 "boom" (5000 + 30 * second))
      "a1"
      (requeue_failed "a1" network)
      q
      (process (postgres_broker pg) same_text pool 7 unbounded mail resting start)
unfolding new_pool register get run_handler chain logging_middleware next_delay conflicts
process-Records_example =
    process-Records pg (calm (record two { rows = running_rows })) (refl, tt) same_text pool 7
      unbounded mail resting mail_runs

chain-nested_example :
    chain failing (logging_middleware ∷ recovery_middleware ∷ [])
    ≡ nested failing (logging_middleware ∷ recovery_middleware ∷ [])
chain-nested_example = chain-nested failing (logging_middleware ∷ recovery_middleware ∷ [])

abbrev panicking : Handler (Unit {0})
panicking ctx job p = (panicked "boom" "stack", job, p)

metrics-counts_once_example :
    let (outcome, j, q) =
      metrics_middleware (recovery_middleware panicking) unbounded mail resting in
    let thrown = panicked "boom" "stack" in
    (thrown ≡ returned none
      → (q.jobs_processed ≡ ("SendEmail", "success") ∷ []) × (outcome ≡ returned none))
    × ((e : String)
        → thrown ≡ returned (some e)
        → (q.jobs_processed ≡ ("SendEmail", "failure") ∷ []) × (outcome ≡ returned (some e)))
    × ((value stack : String)
        → thrown ≡ panicked value stack
        → (q.jobs_processed ≡ ("SendEmail", "failure") ∷ [])
          × (outcome ≡ returned (some ("panic: " <> value <> "\n" <> stack))))
metrics-counts_once_example = metrics-counts_once panicking unbounded mail resting refl refl

next_delay-bounds_example :
    ((2 ^ 4 + 15) * second ≤ next_delay 2 29)
    × (next_delay 2 29 ≤ (2 ^ 4 + 15 + 29 * (2 + 1)) * second)
    × (next_delay 2 29 < 2 ^ 63)
next_delay-bounds_example = next_delay-bounds 2 29 (omega arith) (omega arith)

abbrev submitted_mail : Channel
submitted_mail = record {
  buffer = mail ∷ [];
  idle = 2;
  running = [];
  finished = [];
  exited = 0;
  submitted = 1;
  done = false;
}

submitted_mail-Steps : Steps 4 (start 2) submitted_mail
unfolding start
submitted_mail-Steps = then_step stay (submits _ mail (omega arith))

Steps-safe_example :
    (1 ≤ 4)
    × (0 ≤ 2)
    × (submitted_mail.submitted ≡ 1 + 0 + 0)
    × (submitted_mail.exited ≡ 2 → length submitted_mail.running ≡ 0)
Steps-safe_example = Steps-safe 4 2 submitted_mail-Steps
