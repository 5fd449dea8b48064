-- ===== src/Broker/PostgresBroker/Dequeue.antt =====
-- Dequeue on Postgres: which job it hands out.
use mini_sidekiq.Prelude.{
  ℕ, String, Bool, ◌≢◌, inl, inr, List, [], ◌∷◌, ◌++◌, Option, none, some, Everyone, Option-cases,
}
use mini_sidekiq.Exec.{Result, ok, err, network}
use mini_sidekiq.Job.{Job}
use mini_sidekiq.Broker.Network.{World, Fault, later_faults, later_faults-ne}
use mini_sidekiq.Broker.Postgres.Table.{Row, Table, IsTable, replace}
use mini_sidekiq.Broker.Postgres.Statements.{claim_row, first_due}
use mini_sidekiq.Broker.Postgres.Server.{PostgresServer, Database}
use mini_sidekiq.Broker.Postgres.Due.{Finds, first_due-Finds, claimed, claim_row_lem}
use mini_sidekiq.Broker.PostgresBroker.Outcome.{sql_cases}
use mini_sidekiq.Broker.PostgresBroker.{scan_job, dequeue}

module _ (pg : PostgresServer) (db : Database) (t : IsTable db.rows) where
  open pg use {tie}
  open db use {rows, now, locked}

  -- No row of the queue is due and free.
  abbrev pub IsIdle : String → Type 0
  IsIdle queue = Finds tie locked queue now rows none

  -- How a call may end, with the faults that it started with: with none, and no queue has a free
  -- row; with the job of the first free row of the first queue that has one, which is active now; or
  -- on a network fault, with nothing changed or such a row active that nobody was handed.
  pub data Claims (faults : List Fault) : List String → Result (Option Job) → Table → Type 0 where
    empty : {queues : List String} → Everyone IsIdle queues → Claims faults queues (ok none) rows
    handed :
        (idle later : List String) (queue : String) (a : Row)
        → Everyone IsIdle idle
        → Finds tie locked queue now rows (some a)
        → Claims faults
            (idle ++ (queue ∷ later))
            (ok (some (scan_job (claimed now a))))
            (replace a.id (claimed now a) rows)
    failed : {queues : List String} → faults ≢ [] → Claims faults queues (err network) rows
    stranded :
        (idle later : List String) (queue : String) (a : Row)
        → faults ≢ []
        → Everyone IsIdle idle
        → Finds tie locked queue now rows (some a)
        → Claims faults (idle ++ (queue ∷ later)) (err network) (replace a.id (claimed now a) rows)

  next_queue :
      {faults : List Fault} {queues : List String} {result : Result (Option Job)} {rows' : Table}
      (queue : String)
      → IsIdle queue
      → Claims (later_faults faults) queues result rows'
      → Claims faults (queue ∷ queues) result rows'
  next_queue queue h (empty e) = empty (h, e)
  next_queue {faults} queue h (handed idle later q a e f) = handed (queue ∷ idle) later q a (h, e) f
  next_queue {faults} queue h (failed n) = failed (later_faults-ne faults n)
  next_queue {faults} queue h (stranded idle later q a n e f) =
      stranded (queue ∷ idle) later q a (later_faults-ne faults n) (h, e) f

  -- Dequeue, whatever the network does, on a table that keeps its constraints.
  pub dequeue-Claims :
      (queues : List String) (faults : List Fault)
      → let (result, next) = dequeue pg queues (record { db = db; faults = faults }) in
        Claims faults queues result next.db.rows
  unfolding dequeue
  dequeue-Claims [] faults = empty tt
  dequeue-Claims (queue ∷ queues) faults =
      let start : World Database = record { db = db; faults = faults } in
      let statement = λ (now : ℕ) (locked : String → Bool). claim_row tie locked queue now in
      let found = first_due-Finds tie locked queue now rows t in
      elim (Option-cases (first_due tie locked queue now rows)) [
        | inl e ↦
            let idle : IsIdle queue = rw e at found in
            let runs = claim_row_lem tie locked queue now rows none t e in
            elim (sql_cases statement start (ok none) rows runs) [
              | inl s ↦
                  rw (dequeue, s)
                    (next_queue queue idle (dequeue-Claims queues (later_faults faults)))
              | inr (inl (f, s)) ↦ rw (dequeue, s) (failed f)
              | inr (inr (f, s)) ↦ rw (dequeue, s) (failed f)
            ]
        | inr (a, e) ↦
            let first : Finds tie locked queue now rows (some a) = rw e at found in
            let runs = claim_row_lem tie locked queue now rows (some a) t e in
            let b = claimed now a in
            elim (sql_cases statement start (ok (some b)) (replace a.id b rows) runs) [
              | inl s ↦ rw (dequeue, s) (handed [] queues queue a tt first)
              | inr (inl (f, s)) ↦ rw (dequeue, s) (failed f)
              | inr (inr (f, s)) ↦ rw (dequeue, s) (stranded [] queues queue a f tt first)
            ]
      ]
