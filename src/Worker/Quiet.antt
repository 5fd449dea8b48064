-- ===== src/Worker/Quiet.antt =====
-- internal/worker/pool.go over the Redis broker, without network faults.
use mini_sidekiq.Prelude.{
  ℕ, ◌+◌, String, ◌≡◌, refl, sym, ap, ◌∙◌, inl, inr, [], ◌∷◌, length, length-append, Option, none,
  some, arith, leb, Bool-cases, Option-cases,
}
use mini_sidekiq.Exec.{Exec, Error, ok}
use mini_sidekiq.Job.{Job, retry, dead}
use mini_sidekiq.Redis.{Redis}
use mini_sidekiq.Broker.Codec.{Codec}
use mini_sidekiq.Broker.Network.{calm, World}
use mini_sidekiq.Broker.Keys.{in_active}
use mini_sidekiq.Broker.Tracking.{Placement, Tracks}
use mini_sidekiq.Broker.RedisBroker.Calm.{settling_succeeds}
use mini_sidekiq.Broker.Interface.{redis_broker}
use mini_sidekiq.Worker.Middleware.{
  acknowledge_failed, requeue_failed, dead_letter_failed, Context, LogLine, Process, chain,
}
use mini_sidekiq.Worker.Retry.{next_delay}
use mini_sidekiq.Worker.Pool.{
  Pool, get, run_handler, bookkeep, acknowledge, dead_letter, fail, settle, unregistered, process,
}
use mini_sidekiq.Worker.Settling.{Encodable, Settles, decision}

module _ (c : Codec) (r : Redis c.Data) {Env : Type 0} where
  open r use {Db}

  -- A bookkeeping call that succeeds logs nothing.
  bookkeep-silent :
      (call : Exec (World Db) (Unit {0})) (line : Error → LogLine) (p : Process Env)
      (world : World Db)
      → (call world).0 ≡ ok tt
      → (bookkeep (redis_broker c r) call line p world).0 ≡ p
  bookkeep-silent call line p world e = rw (bookkeep, e) refl

  module _ (db : Db) (w : Placement) (t : Tracks c r db w) where
    -- Without faults the bookkeeping succeeds, and nothing is logged.
    settle-silent :
        (draw : ℕ) (e : Option String) (job : Job) (p : Process Env)
        → w job.id ≡ some in_active
        → Encodable c job
        → (settle (redis_broker c r) draw (e, job, p) (calm db)).0 ≡ p
    unfolding acknowledge fail dead_letter
    settle-silent draw none job p here codes =
        let (d, m) = codes job.attempts job.last_error job.status in
        let (d', m') = codes job.attempts job.last_error dead in
        bookkeep-silent ((redis_broker c r).acknowledge job) (acknowledge_failed job.id) p (calm db)
          (settling_succeeds c r db w t job 0 0 d d' here m m').0
    settle-silent draw (some e) job p here codes =
        let (d, m) = codes (job.attempts + 1) e retry in
        let (d', m') = codes (job.attempts + 1) e dead in
        let again : Job = record job {
          attempts = job.attempts + 1;
          last_error = e;
          status = retry;
        } in
        let last : Job = record again { status = dead } in
        let (_, requeued, _) =
          settling_succeeds c r db w t again p.clock (next_delay (job.attempts + 1) draw) d d' here
            m m' in
        let (_, _, buried) = settling_succeeds c r db w t last 0 0 d' d' here m' m' in
        elim (Bool-cases (leb job.max_attempts (job.attempts + 1))) [
          | inl h ↦ rw h (
              bookkeep-silent ((redis_broker c r).move_to_dead_letter last)
                (dead_letter_failed job.id) p (calm db) buried)
          | inr h ↦ rw h (
              bookkeep-silent
                ((redis_broker c r).requeue p.clock again (next_delay (job.attempts + 1) draw))
                (requeue_failed job.id) p (calm db) requeued)
        ]

    pub process-silent :
        (quoted : String → String) (pool : Pool Env) (draw : ℕ) (ctx : Context) (job : Job)
        (p : Process Env)
        → let (v, j, q) = decision pool ctx job p in
          w j.id ≡ some in_active
          → Encodable c j
          → (process (redis_broker c r) quoted pool draw ctx job p (calm db)).0 ≡ q
    unfolding process dead_letter
    process-silent quoted pool draw ctx job p = elim (Option-cases (get job.type pool.registry)) [
      | inl h ↦
          rw (h, decision, process)
            (λ here codes.
              let unhandled = unregistered quoted job in
              let (d, m) = codes job.attempts unhandled.last_error dead in
              let (_, _, buried) = settling_succeeds c r db w t unhandled 0 0 d d here m m in
              bookkeep-silent ((redis_broker c r).move_to_dead_letter unhandled)
                (dead_letter_failed job.id) p (calm db) buried)
      | inr (handler, h) ↦
          rw (h, decision, process)
            (λ here codes.
              let (e, j, q) = run_handler ctx (chain handler pool.middleware) job p in
              settle-silent draw e j q here codes)
    ]

-- What was settled without a line in the log is settled.
pub settled :
    (c : Codec) (r : Redis c.Data) {Env : Type 0} (before later : Placement) (line : LogLine)
    (p : Process Env) (x : Process Env × World r.Db)
    → Settles c r before later line p x
    → x.0 ≡ p
    → Tracks c r x.1.db later
settled c r before later line p x (inl (e, t)) h = t
settled c r before later line p x (inr (e, t)) h =
    absurd (omega (arith, ap (λ q. length q.log) (sym h ∙ e), length-append p.log (line ∷ [])))
