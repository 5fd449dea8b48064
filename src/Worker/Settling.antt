-- ===== src/Worker/Settling.antt =====
-- The worker pool over the Redis broker: where a job stands after a worker has run it.
use mini_sidekiq.Prelude.{
  ℕ, ◌+◌, String, ◌≡◌, refl, ◌⊎◌, inl, inr, Option, none, some, if◌then◌else◌, leb, Bool-cases,
  Option-cases,
}
use mini_sidekiq.Exec.{Exec, Error, network}
use mini_sidekiq.Job.{Job, JobStatus, retry, dead}
use mini_sidekiq.Redis.{Redis}
use mini_sidekiq.Broker.Codec.{Codec}
use mini_sidekiq.Broker.Network.{World}
use mini_sidekiq.Broker.Keys.{in_retry, in_dead, in_active}
use mini_sidekiq.Broker.Tracking.{Placement, Tracks, put, forget}
use mini_sidekiq.Broker.Interface.{redis_broker}
use mini_sidekiq.Broker.RedisBroker.Atomic.{AllOrNothing, requeue_atomic, dead_letter_atomic}
use mini_sidekiq.Broker.RedisBroker.Ending.{acknowledge_atomic}
use mini_sidekiq.Worker.Middleware.{
  Context, LogLine, Process, acknowledge_failed, requeue_failed, dead_letter_failed, chain,
  write_log,
}
use mini_sidekiq.Worker.Retry.{next_delay}
use mini_sidekiq.Worker.Pool.{
  Pool, get, run_handler, bookkeep, acknowledge, dead_letter, fail, settle, unregistered, process,
}

-- What becomes of a job that has run.
pub data Verdict : Type 0 where
  done again buried : Verdict

-- No error: done. An error: again, unless this was the last attempt.
abbrev pub verdict : Option String → Job → Verdict
verdict none job = done
verdict (some e) job = if leb job.max_attempts (job.attempts + 1) then buried else again

abbrev pub after : Verdict → Job → Placement → Placement
after done job w = forget job.id w
after again job w = put job.id (in_retry job.queue) w
after buried job w = put job.id (in_dead job.queue) w

abbrev pub complaint : Verdict → String → LogLine
complaint done id = acknowledge_failed id network
complaint again id = requeue_failed id network
complaint buried id = dead_letter_failed id network

module _ {Env : Type 0} where
  -- What a worker decides, and the job and the process it decides on: a job of an unregistered type
  -- is buried unrun.
  abbrev pub decision : Pool Env → Context → Job → Process Env → Verdict × Job × Process Env
  decision pool ctx job p = elim (get job.type pool.registry) [
    | none ↦ (buried, job, p)
    | some handler ↦
        let (e, j, q) = run_handler ctx (chain handler pool.middleware) job p in (verdict e j, j, q)
  ]

module _ (c : Codec) where
  -- Every record that the pool writes for the job can be encoded.
  abbrev pub Encodable : Job → Type 0
  Encodable job =
      (n : ℕ) (e : String) (s : JobStatus)
      → (d : c.Data) × (c.marshal (record job { attempts = n; last_error = e; status = s })
          ≡ some d)

module _ (c : Codec) (r : Redis c.Data) {Env : Type 0} where
  open r use {Db}

  -- The call took the store from one placement to the other; or it failed, the store has either and
  -- the failure is logged.
  abbrev pub Settles :
      Placement → Placement → LogLine → Process Env → Process Env × World Db → Type 0
  Settles before later line p (p', world) =
      ((p' ≡ p) × Tracks c r world.db later)
      ⊎ ((p' ≡ write_log line p) × (Tracks c r world.db before ⊎ Tracks c r world.db later))

  bookkeep-Settles :
      (before later : Placement) (call : Exec (World Db) (Unit {0})) (line : Error → LogLine)
      (p : Process Env) (world : World Db)
      → AllOrNothing c r before later (call world)
      → Settles before later (line network) p (bookkeep (redis_broker c r) call line p world)
  bookkeep-Settles before later call line p world (inl (e, t)) = rw (e, bookkeep) (inl (refl, t))
  bookkeep-Settles before later call line p world (inr (e, t)) = rw (e, bookkeep) (inr (refl, t))

  module _ (world : World Db) (w : Placement) (t : Tracks c r world.db w) where
    fail-Settles :
        (draw : ℕ) (e : String) (job : Job) (p : Process Env)
        → w job.id ≡ some in_active
        → Encodable c job
        → Settles w
            (after (verdict (some e) job) job w)
            (complaint (verdict (some e) job) job.id)
            p
            (fail (redis_broker c r) draw (record job { last_error = e }) p world)
    unfolding fail dead_letter
    fail-Settles draw e job p here codes =
        let failed : Job = record job { attempts = job.attempts + 1; last_error = e } in
        elim (Bool-cases (leb job.max_attempts (job.attempts + 1))) [
          | inl h ↦
              let (d, m) = codes (job.attempts + 1) e dead in
              let job' : Job = record failed { status = dead } in
              rw h (
                bookkeep-Settles w _ ((redis_broker c r).move_to_dead_letter job')
                  (dead_letter_failed job.id) p world
                  (dead_letter_atomic c r world w t job' d here m))
          | inr h ↦
              let (d, m) = codes (job.attempts + 1) e retry in
              let job' : Job = record failed { status = retry } in
              rw h (
                bookkeep-Settles w _
                  ((redis_broker c r).requeue p.clock job' (next_delay (job.attempts + 1) draw))
                  (requeue_failed job.id) p world
                  (requeue_atomic c r world w t job' p.clock (next_delay (job.attempts + 1) draw) d
                    here m))
        ]

    settle-Settles :
        (draw : ℕ) (e : Option String) (job : Job) (p : Process Env)
        → w job.id ≡ some in_active
        → Encodable c job
        → Settles w
            (after (verdict e job) job w)
            (complaint (verdict e job) job.id)
            p
            (settle (redis_broker c r) draw (e, job, p) world)
    unfolding acknowledge
    settle-Settles draw none job p here codes =
        bookkeep-Settles w _ ((redis_broker c r).acknowledge job) (acknowledge_failed job.id) p
          world (acknowledge_atomic c r world w t job here)
    settle-Settles draw (some e) job p here codes = fail-Settles draw e job p here codes

    pub process-Settles :
        (quoted : String → String) (pool : Pool Env) (draw : ℕ) (ctx : Context) (job : Job)
        (p : Process Env)
        → let (v, j, q) = decision pool ctx job p in
          w j.id ≡ some in_active
          → Encodable c j
          → Settles w
              (after v j w)
              (complaint v j.id)
              q
              (process (redis_broker c r) quoted pool draw ctx job p world)
    unfolding process dead_letter
    process-Settles quoted pool draw ctx job p = elim (Option-cases (get job.type pool.registry)) [
      | inl h ↦
          rw (h, decision, process)
            (λ here codes.
              let (d, m) = codes job.attempts (unregistered quoted job).last_error dead in
              bookkeep-Settles w _
                ((redis_broker c r).move_to_dead_letter (unregistered quoted job))
                (dead_letter_failed job.id) p world
                (dead_letter_atomic c r world w t (unregistered quoted job) d here m))
      | inr (handler, h) ↦
          rw (h, decision, process)
            (λ here codes.
              let (e, j, q) = run_handler ctx (chain handler pool.middleware) job p in
              settle-Settles draw e j q here codes)
    ]
