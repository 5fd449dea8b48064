-- ===== src/Broker/PostgresBroker/Exclusive.antt =====
-- No job is handed out twice: SELECT ... FOR UPDATE SKIP LOCKED, and the status that it leaves.
use mini_sidekiq.Prelude.{
  ℕ, String, Bool, ◌≡◌, ◌≢◌, refl, sym, ap, ◌∙◌, List, Option, some, true, eq_refl, arith,
}
use mini_sidekiq.Exec.{Result, ok}
use mini_sidekiq.Job.{Job}
use mini_sidekiq.Broker.Network.{Fault}
use mini_sidekiq.Broker.Postgres.Table.{Row, Table, IsTable, find_row, replace}
use mini_sidekiq.Broker.Postgres.Rows.{find_row-replace}
use mini_sidekiq.Broker.Postgres.Updates.{Milder-fits, replace-IsTable}
use mini_sidekiq.Broker.Postgres.Statements.{is_waiting}
use mini_sidekiq.Broker.Postgres.Server.{PostgresServer, Database}
use mini_sidekiq.Broker.Postgres.Due.{Finds, claimed, free-waiting, claimed-Milder}
use mini_sidekiq.Broker.PostgresBroker.{scan_job, dequeue}
use mini_sidekiq.Broker.PostgresBroker.Dequeue.{
  Claims, empty, handed, failed, stranded, dequeue-Claims,
}

module _ (pg : PostgresServer) (db : Database) (t : IsTable db.rows) where
  open pg use {tie}
  open db use {rows, now, locked}

  -- The row of a job that was handed out.
  pub record Handed (job : Job) (rows' : Table) : Type 0 where
    pub row : Row
    pub own : job.id ≡ row.id
    pub queue : String
    pub finds : Finds tie locked queue now rows (some row)
    pub leaves : rows' ≡ replace row.id (claimed now row) rows

  Claims-Handed :
      {faults : List Fault} {queues : List String} {result : Result (Option Job)} {rows' : Table}
      (job : Job)
      → Claims pg db t faults queues result rows'
      → result ≡ ok (some job)
      → Handed job rows'
  unfolding scan_job
  Claims-Handed job (empty e) h = cc
  Claims-Handed job (handed idle later queue a e f) h = record {
    row = a;
    own = ground (arith, h);
    queue = queue;
    finds = f;
    leaves = refl;
  }
  Claims-Handed job (failed n) h = cc
  Claims-Handed job (stranded idle later queue a n e f) h = cc

  claimed-IsTable : (job : Job) (rows' : Table) → Handed job rows' → IsTable rows'
  claimed-IsTable job rows' h =
      let (found, free, first) = h.finds in
      rw h.leaves (
        replace-IsTable h.row.id (claimed now h.row) rows t (
          Milder-fits h.row.id (claimed now h.row) rows t found
            (claimed-Milder tie locked h.queue now h.row free)))

  claimed-find_row :
      (job : Job) (rows' : Table) (h : Handed job rows')
      → find_row job.id rows' ≡ some (claimed now h.row)
  claimed-find_row job rows' h =
      rw (h.leaves, h.own)
        (find_row-replace h.row.id h.row.id (claimed now h.row) rows refl h.finds.0
          ∙ rw (eq_refl h.row.id) refl)

active_not_waiting :
    (a b : Row) (now : ℕ) → some (claimed now a) ≡ some b → is_waiting b.status ≡ true → ⊥
active_not_waiting a b now e w = ground (arith, e, w)

module _ (pg : PostgresServer) (db : Database) (t : IsTable db.rows) where
  -- A job that Dequeue has handed out is not handed out by a later call, at whatever time, with
  -- whatever locks and from whatever queues, as long as the rows are as the first call left them.
  pub dequeue-exclusive :
      (queues queues' : List String) (faults faults' : List Fault) (now' : ℕ)
      (locked' : String → Bool) (job job' : Job)
      → let (result, next) = dequeue pg queues (record { db = db; faults = faults }) in
        let db' : Database = record { rows = next.db.rows; now = now'; locked = locked' } in
        result ≡ ok (some job)
        → (dequeue pg queues' (record { db = db'; faults = faults' })).0 ≡ ok (some job')
        → job.id ≢ job'.id
  dequeue-exclusive queues queues' faults faults' now' locked' job job' e e' same =
      let next = (dequeue pg queues (record { db = db; faults = faults })).1 in
      let db' : Database = record { rows = next.db.rows; now = now'; locked = locked' } in
      let h = Claims-Handed pg db t job (dequeue-Claims pg db t queues faults) e in
      let t' = claimed-IsTable pg db t job next.db.rows h in
      let k = Claims-Handed pg db' t' job' (dequeue-Claims pg db' t' queues' faults') e' in
      let active_there = claimed-find_row pg db t job next.db.rows h in
      let waiting = (free-waiting pg.tie locked' k.queue now' k.row k.finds.1).1 in
      active_not_waiting h.row k.row db.now
        (sym active_there ∙ ap (λ i. find_row i next.db.rows) (same ∙ k.own) ∙ k.finds.0) waiting
