-- ===== src/Worker/Changing.antt =====
-- The worker pool over the Postgres broker: how the row of a job is changed after a worker has run it.
use mini_sidekiq.Prelude.{
  ℕ, ◌+◌, String, ◌≡◌, ◌≢◌, refl, ◌⊎◌, inl, inr, [], Option, none, some, if◌then◌else◌, leb, true,
  Bool-cases, Option-cases,
}
use mini_sidekiq.Exec.{Exec, Error, ok, network}
use mini_sidekiq.Job.{Job, retry, dead}
use mini_sidekiq.Broker.Network.{World}
use mini_sidekiq.Broker.Postgres.Table.{Row, Table, is_live, IsTable, find_row}
use mini_sidekiq.Broker.Postgres.Server.{PostgresServer, Database}
use mini_sidekiq.Broker.PostgresBroker.{completed_row, requeued_row, dead_row, postgres_broker}
use mini_sidekiq.Broker.PostgresBroker.Outcome.{Ends}
use mini_sidekiq.Broker.PostgresBroker.Settling.{changed, settling-Ends}
use mini_sidekiq.Worker.Middleware.{
  Context, LogLine, Process, acknowledge_failed, requeue_failed, dead_letter_failed, chain,
  write_log,
}
use mini_sidekiq.Worker.Retry.{next_delay}
use mini_sidekiq.Worker.Pool.{
  Pool, get, run_handler, bookkeep, acknowledge, dead_letter, fail, settle, unregistered, process,
}
use mini_sidekiq.Worker.Settling.{verdict, complaint, decision}

-- The row of the job, if there is one, is neither completed nor dead.
abbrev pub IsAlive : Table → String → Type 0
IsAlive rows id = (a : Row) → find_row id rows ≡ some a → is_live a.status ≡ true

module _ (pg : PostgresServer) {Env : Type 0} where
  open pg use {timestamp}

  -- The change of the row when the handler has run.
  abbrev pub ran_row : ℕ → ℕ → Option String × Job × Process Env → Row → Row
  ran_row now draw (none, job, p) = completed_row now
  ran_row now draw (some e, job, p) =
      let failed : Job = record job { attempts = job.attempts + 1; last_error = e } in
      if leb failed.max_attempts failed.attempts
      then dead_row now failed
      else requeued_row now failed (timestamp (p.clock + next_delay failed.attempts draw))

  abbrev pub settled_row :
      ℕ → (String → String) → Pool Env → ℕ → Context → Job → Process Env → Row → Row
  settled_row now quoted pool draw ctx job p = elim (get job.type pool.registry) [
    | none ↦ dead_row now (unregistered quoted job)
    | some handler ↦ ran_row now draw (run_handler ctx (chain handler pool.middleware) job p)
  ]

  -- The row is changed; or the call failed on the network, which is logged, and the row is changed or
  -- not.
  unfoldable pub Changes :
      World Database
      → (Row → Row)
      → String
      → LogLine
      → Process Env
      → Process Env × World Database
      → Type 0
  Changes start f id line p (p', world) =
      ((p' ≡ p) × (world.db.rows ≡ changed id f start.db.rows))
      ⊎ ((p' ≡ write_log line p)
          × (start.faults ≢ [])
          × ((world.db.rows ≡ start.db.rows) ⊎ (world.db.rows ≡ changed id f start.db.rows)))

  bookkeep-Changes :
      (start : World Database) (f : Row → Row) (id : String)
      (call : Exec (World Database) (Unit {0})) (line : Error → LogLine) (p : Process Env)
      → Ends start (ok tt) (changed id f start.db.rows) (call start)
      → Changes start f id (line network) p (bookkeep (postgres_broker pg) call line p start)
  unfolding Changes
  bookkeep-Changes start f id call line p (inl (e, h)) = rw (e, bookkeep) (inl (refl, h))
  bookkeep-Changes start f id call line p (inr (e, n, h)) = rw (e, bookkeep) (inr (refl, n, h))

  module _ (start : World Database) (t : IsTable start.db.rows) where
    fail-Changes :
        (draw : ℕ) (e : String) (job : Job) (p : Process Env)
        → IsAlive start.db.rows job.id
        → Changes start
            (ran_row start.db.now draw (some e, job, p))
            job.id
            (complaint (verdict (some e) job) job.id)
            p
            (fail (postgres_broker pg) draw (record job { last_error = e }) p start)
    unfolding fail dead_letter
    fail-Changes draw e job p live =
        let failed : Job = record job { attempts = job.attempts + 1; last_error = e } in
        elim (Bool-cases (leb job.max_attempts (job.attempts + 1))) [
          | inl h ↦
              let job' : Job = record failed { status = dead } in
              rw h (
                bookkeep-Changes start (dead_row start.db.now failed) job.id
                  ((postgres_broker pg).move_to_dead_letter job') (dead_letter_failed job.id) p
                  (settling-Ends pg job' start t 0 0 live).1)
          | inr h ↦
              let job' : Job = record failed { status = retry } in
              let delay = next_delay (job.attempts + 1) draw in
              rw h (
                bookkeep-Changes start
                  (requeued_row start.db.now failed (timestamp (p.clock + delay))) job.id
                  ((postgres_broker pg).requeue p.clock job' delay) (requeue_failed job.id) p
                  (settling-Ends pg job' start t p.clock delay live).2)
        ]

    settle-Changes :
        (draw : ℕ) (e : Option String) (job : Job) (p : Process Env)
        → IsAlive start.db.rows job.id
        → Changes start
            (ran_row start.db.now draw (e, job, p))
            job.id
            (complaint (verdict e job) job.id)
            p
            (settle (postgres_broker pg) draw (e, job, p) start)
    unfolding acknowledge
    settle-Changes draw none job p live =
        bookkeep-Changes start (completed_row start.db.now) job.id
          ((postgres_broker pg).acknowledge job) (acknowledge_failed job.id) p
          (settling-Ends pg job start t 0 0 live).0
    settle-Changes draw (some e) job p live = fail-Changes draw e job p live

    pub process-Changes :
        (quoted : String → String) (pool : Pool Env) (draw : ℕ) (ctx : Context) (job : Job)
        (p : Process Env)
        → let (v, j, q) = decision pool ctx job p in
          IsAlive start.db.rows j.id
          → Changes start
              (settled_row start.db.now quoted pool draw ctx job p)
              j.id
              (complaint v j.id)
              q
              (process (postgres_broker pg) quoted pool draw ctx job p start)
    unfolding process dead_letter
    process-Changes quoted pool draw ctx job p = elim (Option-cases (get job.type pool.registry)) [
      | inl h ↦
          rw (h, decision, process, settled_row)
            (λ live.
              bookkeep-Changes start (dead_row start.db.now (unregistered quoted job)) job.id
                ((postgres_broker pg).move_to_dead_letter (unregistered quoted job))
                (dead_letter_failed job.id) p
                (settling-Ends pg (unregistered quoted job) start t 0 0 live).1)
      | inr (handler, h) ↦
          rw (h, decision, process, settled_row)
            (λ live.
              let (e, j, q) = run_handler ctx (chain handler pool.middleware) job p in
              settle-Changes draw e j q live)
    ]
