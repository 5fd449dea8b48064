-- ===== src/Broker/PostgresBroker/RoundTrip.antt =====
-- GetJob and DeleteJob on Postgres, and what the table keeps of a job.
use mini_sidekiq.Prelude.{
  String, false, ◌≡◌, refl, sym, ap, subst, ◌∙◌, inl, inr, [], ◌∷◌, ◌++◌, Option, none, some, ◌==◌,
  eq_iff, eq_refl, Bool-cases,
}
use mini_sidekiq.Exec.{Exec, ok, pure}
use mini_sidekiq.Job.{Job}
use mini_sidekiq.Broker.Network.{World}
use mini_sidekiq.Broker.Postgres.Table.{Row, conflicts, find_row, others}
use mini_sidekiq.Broker.Postgres.Rows.{find_row-insert}
use mini_sidekiq.Broker.Postgres.Statements.{select_row, delete_row}
use mini_sidekiq.Broker.Postgres.Server.{PostgresServer, Database}
use mini_sidekiq.Broker.PostgresBroker.{
  nullable, from_nullable, scan_job, row_with, enqueue, get_job, delete_job,
}
use mini_sidekiq.Broker.PostgresBroker.Outcome.{Ends, Ends-ok, sql-Ends, sql_cases}
use mini_sidekiq.Broker.PostgresBroker.Enqueue.{inserted, enqueue-Ends}

from_nullable-nullable : (s : String) → from_nullable (nullable s) ≡ s
from_nullable-nullable s = elim (Bool-cases (s == "")) [
  | inl e ↦ rw e (sym ((eq_iff s "").0 e))
  | inr e ↦ rw e refl
]

abbrev read_job : Option Row → Option Job
read_job o = elim o [ none ↦ none | some a ↦ some (scan_job a) ]

abbrev job_rest : Option Row → Exec (World Database) (Option Job)
job_rest o = elim o [ none ↦ pure none | some a ↦ pure (some (scan_job a)) ]

job_rest_lem : (o : Option Row) (w : World Database) → job_rest o w ≡ (ok (read_job o), w)
job_rest_lem none w = refl
job_rest_lem (some a) w = refl

module _ (pg : PostgresServer) where
  -- GetJob returns the row with the id, or none, and changes nothing.
  pub get_job-Ends :
      (id : String) (start : World Database)
      → Ends start (ok (read_job (find_row id start.db.rows))) start.db.rows (get_job pg id start)
  unfolding get_job select_row
  get_job-Ends id start =
      sql-Ends (λ now locked. select_row id) start (λ o. ok (read_job o)) job_rest
        (ok (find_row id start.db.rows)) start.db.rows job_rest_lem refl

  -- What a table keeps of a job.
  abbrev pub kept : Job → String → Job
  kept job payload = record job {
    payload = payload;
    enqueued_at = 0;
    process_at = pg.timestamp job.process_at;
    created_at = pg.timestamp job.created_at;
  }

  scan_job-row_with :
      (job : Job) (payload : String) → scan_job (row_with pg job payload) ≡ kept job payload
  unfolding scan_job
  scan_job-row_with job payload = rw (from_nullable-nullable job.unique_key) refl

  -- GetJob after an Enqueue that succeeded, of a job that no row of the table clashes with, returns
  -- the job: its payload as jsonb gives it back, its times to the precision of a timestamp, its
  -- enqueued time lost, all else the same.
  pub get_job-enqueue :
      (job : Job) (payload : String) (start : World Database)
      → pg.jsonb job.payload ≡ some payload
      → conflicts (row_with pg job payload) start.db.rows ≡ false
      → let (result, next) = enqueue pg job start in
        result ≡ ok tt
        → Ends next (ok (some (kept job payload))) next.db.rows (get_job pg job.id next)
  get_job-enqueue job payload start json fits e =
      let a = row_with pg job payload in
      let next = (enqueue pg job start).1 in
      let rows_then : next.db.rows ≡ start.db.rows ++ (a ∷ []) =
        Ends-ok start (inserted a start.db.rows) (enqueue pg job start)
          (enqueue-Ends pg job payload json start) e
        ∙ rw fits refl in
      let found : find_row job.id next.db.rows ≡ some a =
        ap (find_row job.id) rows_then
        ∙ find_row-insert job.id a start.db.rows fits
        ∙ rw (eq_refl job.id) refl in
      let shown : read_job (find_row job.id next.db.rows) ≡ some (kept job payload) =
        rw found (ap some (scan_job-row_with job payload)) in
      subst (λ o. Ends next (ok o) next.db.rows (get_job pg job.id next)) shown
        (get_job-Ends job.id next)

  -- DeleteJob removes the row with the id, whatever its status, and keeps the others.
  pub delete_job-Ends :
      (id : String) (start : World Database)
      → Ends start (ok tt) (others id start.db.rows) (delete_job pg id start)
  unfolding delete_job delete_row
  delete_job-Ends id start =
      let rows = others id start.db.rows in
      elim (sql_cases (λ now locked. delete_row id) start (ok tt) rows refl) [
        | inl s ↦ rw s (inl (refl, refl))
        | inr (inl (n, s)) ↦ rw s (inr (refl, n, inl refl))
        | inr (inr (n, s)) ↦ rw s (inr (refl, n, inr refl))
      ]
