-- ===== src/Tests/Postgres.antt =====
-- The theorems on the Postgres broker, at a table with two jobs.
use mini_sidekiq.Prelude.{
  ℕ, ◌*◌, ◌/◌, ◌≤◌, true, false, ◌≡◌, ◌≢◌, refl, List, [], ◌∷◌, some, none, arith, ◌⊎◌,
}
use mini_sidekiq.Exec.{ok, err, network}
use mini_sidekiq.Job.{Job, pending, active, dead}
use mini_sidekiq.Broker.Network.{World, delivered, lost_reply}
use mini_sidekiq.Broker.Postgres.Table.{
  Row, Table, IsTable, conflicts, clash, same_key, is_live, find_row, others, replace,
}
use mini_sidekiq.Broker.Postgres.Statements.{
  claim_row, first_due, insert_row, group_stats, count_rows, queue_groups, select_stats,
}
use mini_sidekiq.Broker.Postgres.Server.{PostgresServer, Database}
use mini_sidekiq.Broker.Network.{send}
use mini_sidekiq.Broker.PostgresBroker.{
  row_with, insert_job, scan_job, enqueue, dequeue, get_job, retry_dead_job, get_queue_stats,
  get_jobs_by_status,
}
use mini_sidekiq.Broker.PostgresBroker.Outcome.{Ends}
use mini_sidekiq.Broker.PostgresBroker.Enqueue.{inserted, enqueue_again}
use mini_sidekiq.Broker.PostgresBroker.Dequeue.{Claims, dequeue-Claims}
use mini_sidekiq.Broker.PostgresBroker.Exclusive.{dequeue-exclusive}
use mini_sidekiq.Broker.PostgresBroker.Settling.{Rewrites}
use mini_sidekiq.Broker.PostgresBroker.Reviving.{IsRevived, retry_dead-Ends}
use mini_sidekiq.Broker.PostgresBroker.RoundTrip.{get_job-enqueue}
use mini_sidekiq.Broker.PostgresBroker.Page.{IsPage, get_jobs-IsPage}
use mini_sidekiq.Broker.PostgresBroker.Depth.{enqueued-dequeue}
use mini_sidekiq.Tests.Fixtures.{mail}

pub truncated-le : (t : ℕ) → t / 1000 * 1000 ≤ t
truncated-le t = omega arith

pub truncated-truncated : (t : ℕ) → t / 1000 * 1000 / 1000 * 1000 ≡ t / 1000 * 1000
truncated-truncated t = omega arith

-- A server that takes any text for jsonb, keeps microseconds, and leaves equals in their order.
abbrev pub pg : PostgresServer
pg = record {
  jsonb = λ s. some s;
  timestamp = λ t. t / 1000 * 1000;
  tie = λ a b. true;
  jsonb-jsonb = λ s t e. refl;
  timestamp-le = truncated-le;
  timestamp-timestamp = truncated-truncated;
}

abbrev report : Job
report = record mail { id = "b2"; unique_key = "daily"; priority = 1 }

abbrev pub two_rows : Table
two_rows = row_with pg mail "{}" ∷ row_with pg report "{}" ∷ []

pub two_rows-IsTable : IsTable two_rows
unfolding conflicts clash is_live same_key
two_rows-IsTable = (refl, (refl, tt))

abbrev pub two : Database
two = record { rows = two_rows; now = 5000; locked = λ id. false }

abbrev pub calm : Database → World Database
calm db = record { db = db; faults = [] }

dequeue-exclusive_example : mail.id ≢ report.id
unfolding dequeue send claim_row first_due conflicts others replace clash is_live same_key scan_job
dequeue-exclusive_example =
    dequeue-exclusive pg two two_rows-IsTable ("critical" ∷ []) ("low" ∷ "critical" ∷ []) []
      (delivered ∷ []) 6000 (λ id. false) (record mail { status = active })
      (record report { status = active }) refl refl

dequeue-Claims_example :
    let (result, next) = dequeue pg ("low" ∷ "critical" ∷ []) (calm two) in
    Claims pg two two_rows-IsTable [] ("low" ∷ "critical" ∷ []) result next.db.rows
dequeue-Claims_example = dequeue-Claims pg two two_rows-IsTable ("low" ∷ "critical" ∷ []) []

enqueue_again_example :
    let start : World Database = record { db = two; faults = lost_reply ∷ [] } in
    let job : Job = record report { id = "c3" } in
    let again = enqueue pg job (enqueue pg job start).1 in
    ((again.0 ≡ ok tt) × (again.1.db.rows ≡ inserted (row_with pg job "{}") two_rows))
    ⊎ ((again.0 ≡ err network)
        × ((again.1.db.rows ≡ two_rows)
            ⊎ (again.1.db.rows ≡ inserted (row_with pg job "{}") two_rows)))
enqueue_again_example =
    enqueue_again pg (record report { id = "c3" }) "{}" refl
      (record { db = two; faults = lost_reply ∷ [] })

get_job-enqueue_example :
    let job : Job = record mail { id = "c3"; unique_key = "weekly"; process_at = 7777 } in
    let next = (enqueue pg job (calm two)).1 in
    Ends next (ok (some (record job { process_at = 7000 }))) next.db.rows (get_job pg "c3" next)
unfolding enqueue send insert_job insert_row conflicts clash is_live same_key
get_job-enqueue_example =
    get_job-enqueue pg (record mail { id = "c3"; unique_key = "weekly"; process_at = 7777 }) "{}"
      (calm two) refl refl refl

abbrev lost_rows : Table
lost_rows = record (row_with pg mail "{}") { status = dead; attempts = 3; last_error = "boom" } ∷ []

abbrev lost : Database
lost = record { rows = lost_rows; now = 9000; locked = λ id. false }

no_key :
    (b : Row)
    → find_row b.id lost_rows ≡ some b
    → is_live b.status ≡ true
    → same_key none b.unique_key ≡ false
unfolding same_key
no_key b f l = refl

retry_dead-Ends_example :
    (rows : Table) × Rewrites (IsRevived 9000) "a1" lost_rows rows
    × Ends (calm lost) (ok tt) rows (retry_dead_job pg "a1" (calm lost))
unfolding find_row conflicts
retry_dead-Ends_example =
    retry_dead-Ends pg (calm lost) (refl, tt) "a1"
      (record (row_with pg mail "{}") { status = dead; attempts = 3; last_error = "boom" }) refl
      refl no_key

get_jobs-IsPage_example :
    (jobs : List Job) × IsPage pending 1 two_rows jobs
    × Ends (calm two) (ok jobs) two_rows (get_jobs_by_status pg pending 1 (calm two))
get_jobs-IsPage_example = get_jobs-IsPage pg pending 1 (calm two)

enqueued-dequeue_example :
    (job : Job) × (job.queue ≡ "critical")
    × ((dequeue pg ("critical" ∷ []) (calm two)).0 ≡ ok (some job))
unfolding get_queue_stats send select_stats queue_groups group_stats count_rows
enqueued-dequeue_example =
    enqueued-dequeue pg two two_rows-IsTable _ "critical" [] _ (λ id. refl) refl refl
      (λ e. omega (arith, e))
