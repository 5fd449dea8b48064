-- ===== src/Broker/Postgres/Server.antt =====
-- What the broker relies on of the Postgres server and of pgx, which are not part of the program.
use mini_sidekiq.Prelude.{ℕ, String, Bool, ◌≡◌, ◌≤◌, Option, some}
use mini_sidekiq.Exec.{Exec}
use mini_sidekiq.Broker.Postgres.Table.{Row, Table}

pub record PostgresServer : Type 0 where
  -- The text that a jsonb column gives back for one that it is given; none is an error.
  pub jsonb : String → Option String
  -- A time as a timestamptz column keeps it, to the microsecond.
  pub timestamp : ℕ → ℕ
  -- The order of rows that ORDER BY leaves open.
  pub tie : Row → Row → Bool
  pub jsonb-jsonb : (s t : String) → jsonb s ≡ some t → jsonb t ≡ some t
  pub timestamp-le : (t : ℕ) → timestamp t ≤ t
  pub timestamp-timestamp : (t : ℕ) → timestamp (timestamp t) ≡ timestamp t

-- The table, the time that NOW() reads, and the rows that other transactions have locked.
pub record Database : Type 0 where
  pub rows : Table
  pub now : ℕ
  pub locked : String → Bool

-- A statement is a transaction.
abbrev pub run_sql : {A : Type 0} → (ℕ → (String → Bool) → Exec Table A) → Exec Database A
run_sql statement db =
    let (r, rows') = statement db.now db.locked db.rows in (r, record db { rows = rows' })
