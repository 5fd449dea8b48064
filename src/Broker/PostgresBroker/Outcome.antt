-- ===== src/Broker/PostgresBroker/Outcome.antt =====
-- How a method of one statement ends.
use mini_sidekiq.Prelude.{ℕ, String, Bool, ◌≡◌, ◌≢◌, refl, ◌⊎◌, inl, inr, [], arith}
use mini_sidekiq.Exec.{Exec, Result, ok, err, network, ◌>>=◌}
use mini_sidekiq.Broker.Network.{World, send, later_faults, send_any_cases}
use mini_sidekiq.Broker.Postgres.Table.{Table}
use mini_sidekiq.Broker.Postgres.Server.{Database, run_sql}

-- The call returns the result and leaves the rows given; or it fails on the network, which takes a
-- fault, and leaves these or those it found.
abbrev pub Ends :
    {A : Type 0} → World Database → Result A → Table → Result A × World Database → Type 0
Ends start r rows (result, world) =
    ((result ≡ r) × (world.db.rows ≡ rows))
    ⊎ ((result ≡ err network)
        × (start.faults ≢ [])
        × ((world.db.rows ≡ start.db.rows) ⊎ (world.db.rows ≡ rows)))

abbrev pub after_sql : World Database → Table → World Database
after_sql start rows = record {
  db = record start.db { rows = rows };
  faults = later_faults start.faults;
}

module _ {A : Type 0} (statement : ℕ → (String → Bool) → Exec Table A) (start : World Database)
    (r : Result A) (rows : Table) where
  -- The round trip is answered, or it fails, before or after the statement has run.
  abbrev pub Sql : Type 0
  Sql =
      (send (run_sql statement) start ≡ (r, after_sql start rows))
      ⊎ ((start.faults ≢ [])
          × (send (run_sql statement) start ≡ (err network, after_sql start start.db.rows)))
      ⊎ ((start.faults ≢ [])
          × (send (run_sql statement) start ≡ (err network, after_sql start rows)))

  pub sql_cases : statement start.db.now start.db.locked start.db.rows ≡ (r, rows) → Sql
  sql_cases e =
      send_any_cases (run_sql statement) start r (record start.db { rows = rows }) (rw e refl)

abbrev pub ended_by : {A B : Type 0} → (A → Result B) → Result A → Result B
ended_by finish (ok v) = finish v
ended_by finish (err e) = err e

-- A method of one round trip, which does no more to the world.
pub sql-Ends :
    {A B : Type 0} (statement : ℕ → (String → Bool) → Exec Table A) (start : World Database)
    (finish : A → Result B) (rest : A → Exec (World Database) B) (r : Result A) (rows : Table)
    → ((v : A) (w : World Database) → rest v w ≡ (finish v, w))
    → statement start.db.now start.db.locked start.db.rows ≡ (r, rows)
    → Ends start (ended_by finish r) rows ((send (run_sql statement) >>= rest) start)
sql-Ends statement start finish rest (ok v) rows k e =
    elim (sql_cases statement start (ok v) rows e) [
      | inl s ↦ rw (s, k v (after_sql start rows)) (inl (refl, refl))
      | inr (inl (n, s)) ↦ rw s (inr (refl, n, inl refl))
      | inr (inr (n, s)) ↦ rw s (inr (refl, n, inr refl))
    ]
sql-Ends statement start finish rest (err x) rows k e =
    elim (sql_cases statement start (err x) rows e) [
      | inl s ↦ rw s (inl (refl, refl))
      | inr (inl (n, s)) ↦ rw s (inr (refl, n, inl refl))
      | inr (inr (n, s)) ↦ rw s (inr (refl, n, inr refl))
    ]

-- However it ends, the rows are one of the two.
pub Ends-rows :
    {A : Type 0} (start : World Database) (r : Result A) (rows : Table)
    (x : Result A × World Database)
    → Ends start r rows x
    → (x.1.db.rows ≡ start.db.rows) ⊎ (x.1.db.rows ≡ rows)
Ends-rows start r rows x (inl (e, h)) = inr h
Ends-rows start r rows x (inr (e, f, h)) = h

-- A call that succeeded left the rows given.
pub Ends-ok :
    {A : Type 0} (start : World Database) {v : A} (rows : Table) (x : Result A × World Database)
    → Ends start (ok v) rows x
    → x.0 ≡ ok v
    → x.1.db.rows ≡ rows
Ends-ok start rows x (inl (e, h)) k = h
Ends-ok start rows x (inr (e, f, h)) k = absurd (ground (arith, e, k))
