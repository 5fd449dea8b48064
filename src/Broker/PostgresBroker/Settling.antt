-- ===== src/Broker/PostgresBroker/Settling.antt =====
-- Acknowledge, Requeue, MoveToDeadLetter, RetryDeadJob and DeleteJob on Postgres.
use mini_sidekiq.Prelude.{
  ℕ, ◌+◌, String, Bool, true, false, ◌≡◌, refl, ap, ◌∙◌, ◌⊎◌, inl, inr, Option, none, some, ◌==◌,
  if◌then◌else◌, arith, Option-cases,
}
use mini_sidekiq.Exec.{ok, pure, ◌>>=◌}
use mini_sidekiq.Job.{Job}
use mini_sidekiq.Broker.Network.{World, send}
use mini_sidekiq.Broker.Postgres.Table.{Row, Table, is_live, IsTable, find_row, replace}
use mini_sidekiq.Broker.Postgres.Rows.{find_row-id, find_row-replace}
use mini_sidekiq.Broker.Postgres.Updates.{Milder, Milder-fits, replace-IsTable}
use mini_sidekiq.Broker.Postgres.Statements.{update_row}
use mini_sidekiq.Broker.Postgres.Server.{PostgresServer, Database, run_sql}
use mini_sidekiq.Broker.PostgresBroker.{
  completed_row, requeued_row, dead_row, acknowledge, requeue, move_to_dead_letter,
}
use mini_sidekiq.Broker.PostgresBroker.Outcome.{Ends, sql-Ends}

-- The rows with one of them changed, if it is there.
abbrev pub changed : String → (Row → Row) → Table → Table
changed id f rows = elim (find_row id rows) [ none ↦ rows | some a ↦ replace a.id (f a) rows ]

-- A change that the constraints of the table allow.
abbrev pub Allowed : String → (Row → Row) → Table → Type 0
Allowed id f rows = (a : Row) → find_row id rows ≡ some a → Milder (f a) a

pub changed-IsTable :
    (id : String) (f : Row → Row) (rows : Table)
    → IsTable rows
    → Allowed id f rows
    → IsTable (changed id f rows)
changed-IsTable id f rows t m = elim (Option-cases (find_row id rows)) [
  | inl e ↦ rw (changed, e) t
  | inr (a, e) ↦
      rw (changed, e)
        (replace-IsTable a.id (f a) rows t (
          Milder-fits a.id (f a) rows t (ap (λ i. find_row i rows) (find_row-id id rows e) ∙ e)
            (m a e)))
]

-- The row with the id is the changed one, and the others are as they were.
pub find_row-changed :
    (j id : String) (f : Row → Row) (rows : Table) {a : Row}
    → find_row id rows ≡ some a
    → (f a).id ≡ a.id
    → find_row j (changed id f rows) ≡ (if id == j then some (f a) else find_row j rows)
find_row-changed j id f rows {a} e own =
    let same = find_row-id id rows e in
    rw (changed, e)
      (find_row-replace j a.id (f a) rows own (ap (λ i. find_row i rows) same ∙ e)
        ∙ ap (λ i. if i == j then some (f a) else find_row j rows) same)

-- The columns that no UPDATE of a job changes.
abbrev pub IsKept : Row → Row → Type 0
IsKept a b =
    (b.id ≡ a.id)
    × (b.queue ≡ a.queue)
    × (b.type ≡ a.type)
    × (b.payload ≡ a.payload)
    × (b.priority ≡ a.priority)
    × (b.max_attempts ≡ a.max_attempts)
    × (b.unique_key ≡ a.unique_key)
    × (b.created_at ≡ a.created_at)

-- The row with the id, if there is one, has become another one, and each other row is found as it
-- was.
abbrev pub Rewrites : (Row → Row → Type 0) → String → Table → Table → Type 0
Rewrites How id rows rows' =
    ((find_row id rows ≡ none) × (rows' ≡ rows))
    ⊎ ((a b : Row) × (find_row id rows ≡ some a)
        × How a b
        × ((j : String) → find_row j rows' ≡ (if id == j then some b else find_row j rows)))

pub changed-Rewrites :
    (How : Row → Row → Type 0) (id : String) (f : Row → Row) (rows : Table)
    → ((a : Row) → How a (f a))
    → ((a : Row) → (f a).id ≡ a.id)
    → Rewrites How id rows (changed id f rows)
changed-Rewrites How id f rows how own = elim (Option-cases (find_row id rows)) [
  | inl e ↦ inl (e, rw (changed, e) refl)
  | inr (a, e) ↦ inr (a, f a, e, how a, λ j. find_row-changed j id f rows e (own a))
]

update_row_lem :
    (id : String) (f : Row → Row) (rows : Table)
    → IsTable rows
    → Allowed id f rows
    → (o : Option Row) × (update_row id f rows ≡ (ok o, changed id f rows))
unfolding update_row
update_row_lem id f rows t m = elim (Option-cases (find_row id rows)) [
  | inl e ↦ (none, rw (changed, e) refl)
  | inr (a, e) ↦
      let found = ap (λ i. find_row i rows) (find_row-id id rows e) ∙ e in
      (some (f a), rw (changed, e, Milder-fits a.id (f a) rows t found (m a e)) refl)
]

-- A method that is one such UPDATE.
update-Ends :
    (id : String) (f : ℕ → Row → Row) (start : World Database)
    → IsTable start.db.rows
    → Allowed id (f start.db.now) start.db.rows
    → Ends start
        (ok tt)
        (changed id (f start.db.now) start.db.rows)
        ((send (run_sql (λ now locked. update_row id (f now))) >>= λ _. pure tt) start)
update-Ends id f start t m =
    let statement = λ (now : ℕ) (locked : String → Bool). update_row id (f now) in
    let rows = changed id (f start.db.now) start.db.rows in
    let (o, e) = update_row_lem id (f start.db.now) start.db.rows t m in
    sql-Ends statement start (λ _. ok tt) (λ _. pure tt) (ok o) rows (λ v w. refl) e

ends_Milder :
    (b a : Row) → b.id ≡ a.id → b.unique_key ≡ a.unique_key → is_live b.status ≡ false → Milder b a
ends_Milder b a i k l = record {
  same_id = i;
  same_key = k;
  no_livelier = λ h. absurd (ground (arith, l, h));
}

module _ (pg : PostgresServer) (job : Job) (start : World Database)
    (t : IsTable start.db.rows) where
  -- Acknowledge, MoveToDeadLetter and Requeue change the row of the job, if there is one, and no
  -- other, and succeed also if there is none; Requeue wants the row to be neither completed nor dead.
  -- Each may fail on a network fault, with its change made or not.
  pub settling-Ends :
      (now delay : ℕ)
      → ((a : Row) → find_row job.id start.db.rows ≡ some a → is_live a.status ≡ true)
      → Ends start
          (ok tt)
          (changed job.id (completed_row start.db.now) start.db.rows)
          (acknowledge pg job start)
        × Ends start
            (ok tt)
            (changed job.id (dead_row start.db.now job) start.db.rows)
            (move_to_dead_letter pg job start)
        × Ends start
            (ok tt)
            (changed job.id
              (requeued_row start.db.now job (pg.timestamp (now + delay)))
              start.db.rows)
            (requeue pg now job delay start)
  unfolding acknowledge move_to_dead_letter requeue is_live
  settling-Ends now delay live = (
    update-Ends job.id completed_row start t (λ a e. ends_Milder _ a refl refl refl),
    update-Ends job.id (λ at. dead_row at job) start t (λ a e. ends_Milder _ a refl refl refl),
    update-Ends job.id (λ at. requeued_row at job (pg.timestamp (now + delay))) start t
        (λ a e. record { same_id = refl; same_key = refl; no_livelier = λ l. live a e }),
  )
