-- ===== src/Broker/PostgresBroker/Enqueue.antt =====
-- Enqueue on Postgres: once is as good as twice.
use mini_sidekiq.Prelude.{
  ℕ, String, Bool, true, ◌≡◌, refl, ap, ◌∙◌, ◌⊎◌, inl, inr, [], ◌∷◌, ◌++◌, some, if◌then◌else◌,
  eq_refl, arith, Bool-cases,
}
use mini_sidekiq.Exec.{ok, err, network, unique_violation}
use mini_sidekiq.Job.{Job}
use mini_sidekiq.Broker.Network.{World}
use mini_sidekiq.Broker.Postgres.Table.{Row, Table, clash, conflicts, IsTable}
use mini_sidekiq.Broker.Postgres.Rows.{insert-IsTable}
use mini_sidekiq.Broker.Postgres.Statements.{insert_row}
use mini_sidekiq.Broker.Postgres.Server.{PostgresServer, Database}
use mini_sidekiq.Broker.PostgresBroker.Outcome.{Ends, Ends-rows, sql_cases}
use mini_sidekiq.Broker.PostgresBroker.{row_with, insert_job, enqueue}

-- The rows with a new one, if it fits in.
abbrev pub inserted : Row → Table → Table
inserted a rows = if conflicts a rows then rows else rows ++ (a ∷ [])

clash_self : (a : Row) → clash a a ≡ true
unfolding clash
clash_self a = rw (eq_refl a.id) refl

conflicts_self : (a : Row) (rows : Table) → conflicts a (rows ++ (a ∷ [])) ≡ true
unfolding conflicts
conflicts_self a [] = rw (clash_self a) refl
conflicts_self a (b ∷ rows) = ground (arith, conflicts_self a rows)

inserted_twice : (a : Row) (rows : Table) → inserted a (inserted a rows) ≡ inserted a rows
inserted_twice a rows = elim (Bool-cases (conflicts a rows)) [
  | inl h ↦ rw h (rw h refl)
  | inr h ↦ rw h (rw (conflicts_self a rows) refl)
]

pub inserted-IsTable : (a : Row) (rows : Table) → IsTable rows → IsTable (inserted a rows)
inserted-IsTable a rows t = elim (Bool-cases (conflicts a rows)) [
  | inl h ↦ rw h t
  | inr h ↦ rw h (insert-IsTable a rows t h)
]

module _ (pg : PostgresServer) (job : Job) (payload : String)
    (json : pg.jsonb job.payload ≡ some payload) where
  insert_job_lem :
      (rows : Table)
      → let a = row_with pg job payload in
        ((insert_job pg job rows ≡ (ok tt, inserted a rows)))
        ⊎ (insert_job pg job rows ≡ (err unique_violation, inserted a rows))
  unfolding insert_job insert_row
  insert_job_lem rows = elim (Bool-cases (conflicts (row_with pg job payload) rows)) [
    | inl h ↦ inr (rw (json, h) refl)
    | inr h ↦ inl (rw (json, h) refl)
  ]

  pub enqueue-Ends :
      (start : World Database)
      → Ends start (ok tt) (inserted (row_with pg job payload) start.db.rows) (enqueue pg job start)
  unfolding enqueue
  enqueue-Ends start =
      let rows = inserted (row_with pg job payload) start.db.rows in
      let statement = λ (now : ℕ) (locked : String → Bool). insert_job pg job in
      elim (insert_job_lem start.db.rows) [
        | inl e ↦ elim (sql_cases statement start (ok tt) rows e) [
          | inl s ↦ rw (enqueue, s) (inl (refl, refl))
          | inr (inl (f, s)) ↦ rw (enqueue, s) (inr (refl, f, inl refl))
          | inr (inr (f, s)) ↦ rw (enqueue, s) (inr (refl, f, inr refl))
        ]
        | inr e ↦ elim (sql_cases statement start (err unique_violation) rows e) [
          | inl s ↦ rw (enqueue, s) (inl (refl, refl))
          | inr (inl (f, s)) ↦ rw (enqueue, s) (inr (refl, f, inl refl))
          | inr (inr (f, s)) ↦ rw (enqueue, s) (inr (refl, f, inr refl))
        ]
      ]

  -- An Enqueue that is called again, after whatever became of the first call, ends as the first one
  -- alone might have ended: if it succeeds, the table has the job once, or what it had if the job
  -- does not fit in.
  pub enqueue_again :
      (start : World Database)
      → let again = enqueue pg job (enqueue pg job start).1 in
        ((again.0 ≡ ok tt) × (again.1.db.rows ≡ inserted (row_with pg job payload) start.db.rows))
        ⊎ ((again.0 ≡ err network)
            × ((again.1.db.rows ≡ start.db.rows)
                ⊎ (again.1.db.rows ≡ inserted (row_with pg job payload) start.db.rows)))
  enqueue_again start =
      let a = row_with pg job payload in
      let once = (enqueue pg job start).1 in
      let rows = start.db.rows in
      elim (Ends-rows start (ok tt) (inserted a rows) (enqueue pg job start) (enqueue-Ends start)) [
        | inl h ↦ elim (enqueue-Ends once) [
          | inl (e, k) ↦ inl (e, k ∙ ap (inserted a) h)
          | inr (e, f, inl k) ↦ inr (e, inl (k ∙ h))
          | inr (e, f, inr k) ↦ inr (e, inr (k ∙ ap (inserted a) h))
        ]
        | inr h ↦ elim (enqueue-Ends once) [
          | inl (e, k) ↦ inl (e, k ∙ ap (inserted a) h ∙ inserted_twice a rows)
          | inr (e, f, inl k) ↦ inr (e, inr (k ∙ h))
          | inr (e, f, inr k) ↦ inr (e, inr (k ∙ ap (inserted a) h ∙ inserted_twice a rows))
        ]
      ]
