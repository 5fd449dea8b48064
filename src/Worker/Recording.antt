-- ===== src/Worker/Recording.antt =====
-- The worker pool over the Postgres broker: what the row of a job says after a worker has run it.
use mini_sidekiq.Prelude.{
  ℕ, ◌<>◌, subst, sym, ◌+◌, String, ◌≡◌, ◌≢◌, refl, ◌⊎◌, inl, inr, [], Option, none, some, leb,
  Bool-cases, Option-cases,
}
use mini_sidekiq.Job.{Job, retry, dead, completed}
use mini_sidekiq.Broker.Network.{World}
use mini_sidekiq.Broker.Postgres.Table.{Row, IsTable}
use mini_sidekiq.Broker.Postgres.Server.{PostgresServer, Database}
use mini_sidekiq.Broker.PostgresBroker.{postgres_broker}
use mini_sidekiq.Broker.PostgresBroker.Settling.{changed, IsKept, Rewrites, changed-Rewrites}
use mini_sidekiq.Worker.Middleware.{Context, LogLine, Process, chain, write_log}
use mini_sidekiq.Worker.Retry.{next_delay}
use mini_sidekiq.Worker.Pool.{Pool, get, run_handler, process}
use mini_sidekiq.Worker.Settling.{Verdict, done, again, buried, verdict, complaint, decision}
use mini_sidekiq.Worker.Changing.{IsAlive, Changes, ran_row, settled_row, process-Changes}

-- What a verdict makes of the row, with the attempts and the error of the run, and the time of the
-- next one. What is not named stays.
abbrev pub Written : Verdict → ℕ → String → ℕ → Row → Row → Type 0
Written done n e due a b =
    IsKept a b
    × (b.status ≡ completed)
    × (b.attempts ≡ a.attempts)
    × (b.last_error ≡ a.last_error)
    × (b.process_at ≡ a.process_at)
Written again n e due a b =
    IsKept a b × (b.status ≡ retry) × (b.attempts ≡ n) × (b.last_error ≡ e) × (b.process_at ≡ due)
Written buried n e due a b =
    IsKept a b
    × (b.status ≡ dead)
    × (b.attempts ≡ n)
    × (b.last_error ≡ e)
    × (b.process_at ≡ a.process_at)

abbrev error_text : Option String → String
error_text none = ""
error_text (some e) = e

-- The attempts and the error to be recorded: one more attempt, and the handler's error; a job without
-- a handler has the attempts it had, and an error that names its type.
abbrev pub tried :
    {Env : Type 0} → (String → String) → Pool Env → Context → Job → Process Env → ℕ × String
tried quoted pool ctx job p = elim (get job.type pool.registry) [
  | none ↦ (job.attempts, "no handler registered for job type " <> quoted job.type)
  | some handler ↦
      let (e, j, q) = run_handler ctx (chain handler pool.middleware) job p in
      (j.attempts + 1, error_text e)
]

Written-id :
    (v : Verdict) (n : ℕ) (e : String) (due : ℕ) (a b : Row) → Written v n e due a b → b.id ≡ a.id
Written-id done n e due a b h = h.0.0
Written-id again n e due a b h = h.0.0
Written-id buried n e due a b h = h.0.0

module _ (pg : PostgresServer) {Env : Type 0} where
  open pg use {timestamp}

  ran-Written :
      (now draw : ℕ) (e : Option String) (job : Job) (p : Process Env) (a : Row)
      → Written
          (verdict e job)
          (job.attempts + 1)
          (error_text e)
          (timestamp (p.clock + next_delay (job.attempts + 1) draw))
          a
          (ran_row pg now draw (e, job, p) a)
  ran-Written now draw none job p a =
      ((refl, refl, refl, refl, refl, refl, refl, refl), refl, refl, refl, refl)
  ran-Written now draw (some e) job p a =
      elim (Bool-cases (leb job.max_attempts (job.attempts + 1))) [
        | inl h ↦
            rw (verdict, h)
              ((refl, refl, refl, refl, refl, refl, refl, refl), refl, refl, refl, refl)
        | inr h ↦
            rw (verdict, h)
              ((refl, refl, refl, refl, refl, refl, refl, refl), refl, refl, refl, refl)
      ]

  settled-Written :
      (now : ℕ) (quoted : String → String) (pool : Pool Env) (draw : ℕ) (ctx : Context) (job : Job)
      (p : Process Env) (a : Row)
      → let (v, j, q) = decision pool ctx job p in
        let (n, e) = tried quoted pool ctx job p in
        Written v n e
          (timestamp (q.clock + next_delay n draw))
          a
          (settled_row pg now quoted pool draw ctx job p a)
  settled-Written now quoted pool draw ctx job p a =
      elim (Option-cases (get job.type pool.registry)) [
        | inl h ↦
            rw (h, decision, tried, settled_row)
              ((refl, refl, refl, refl, refl, refl, refl, refl), refl, refl, refl, refl)
        | inr (handler, h) ↦
            rw (h, decision, tried, settled_row)
              (let (e, j, q) = run_handler ctx (chain handler pool.middleware) job p in
                ran-Written now draw e j q a)
      ]

  -- The row is so written; or the call failed on the network, which is logged, and the row is so
  -- written or as it was.
  unfoldable pub Records :
      World Database
      → (Row → Row → Type 0)
      → String
      → LogLine
      → Process Env
      → Process Env × World Database
      → Type 0
  Records start How id line p (p', world) =
      ((p' ≡ p) × Rewrites How id start.db.rows world.db.rows)
      ⊎ ((p' ≡ write_log line p)
          × (start.faults ≢ [])
          × ((world.db.rows ≡ start.db.rows) ⊎ Rewrites How id start.db.rows world.db.rows))

  Changes-Records :
      (start : World Database) (How : Row → Row → Type 0) (f : Row → Row) (id : String)
      (line : LogLine) (p : Process Env) (x : Process Env × World Database)
      → Rewrites How id start.db.rows (changed id f start.db.rows)
      → Changes pg start f id line p x
      → Records start How id line p x
  unfolding Changes Records
  Changes-Records start How f id line p (p', world) h (inl (e, rows)) =
      inl (e, subst (Rewrites How id start.db.rows) (sym rows) h)
  Changes-Records start How f id line p (p', world) h (inr (e, n, inl rows)) = inr (e, n, inl rows)
  Changes-Records start How f id line p (p', world) h (inr (e, n, inr rows)) =
      inr (e, n, inr (subst (Rewrites How id start.db.rows) (sym rows) h))

  -- A worker's run of a job over Postgres, whatever handler and middleware the pool has for it and
  -- whatever the network does, if the row of the job, as the handler leaves it, is neither
  -- completed nor dead: no other row changes. This row is completed if the handler returned no
  -- error. Else it has the error, and one attempt more than the job as the handler leaves it, and
  -- is to be retried after the delay, or dead if no attempt is left; and if the type has no
  -- handler, it is dead, with the attempts the job had and an error that names the type. Or the
  -- bookkeeping call failed: then this is logged, and the row is so written or as it was.
  pub process-Records :
      (start : World Database)
      → IsTable start.db.rows
      → (quoted : String → String) (pool : Pool Env) (draw : ℕ) (ctx : Context) (job : Job)
        (p : Process Env)
      → let (v, j, q) = decision pool ctx job p in
        let (n, e) = tried quoted pool ctx job p in
        IsAlive start.db.rows j.id
        → Records start
            (Written v n e (timestamp (q.clock + next_delay n draw)))
            j.id
            (complaint v j.id)
            q
            (process (postgres_broker pg) quoted pool draw ctx job p start)
  process-Records start t quoted pool draw ctx job p live =
      let (v, j, q) = decision pool ctx job p in
      let (n, e) = tried quoted pool ctx job p in
      let due = timestamp (q.clock + next_delay n draw) in
      let f = settled_row pg start.db.now quoted pool draw ctx job p in
      let how = settled-Written start.db.now quoted pool draw ctx job p in
      Changes-Records start (Written v n e due) f j.id (complaint v j.id) q _
        (changed-Rewrites (Written v n e due) j.id f start.db.rows how
          (λ a. Written-id v n e due a (f a) (how a)))
        (process-Changes pg start t quoted pool draw ctx job p live)
