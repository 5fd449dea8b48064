-- ===== src/Broker/Tracking/Settle.antt =====
-- The scripts that settle a running job: Requeue and MoveToDeadLetter.
use mini_sidekiq.Prelude.{ℕ, ◌+◌, ◌≡◌, ◌∙◌, some, ◌==◌, tally, if◌then◌else◌, arith}
use mini_sidekiq.Exec.{ok}
use mini_sidekiq.Job.{Job}
use mini_sidekiq.Redis.{Redis, call_set}
use mini_sidekiq.Broker.Codec.{Codec}
use mini_sidekiq.Broker.Keys.{
  in_retry, in_dead, in_active, place_key, job_key, place_key-ne, retry_key, dead_key, active_key,
}
use mini_sidekiq.Broker.Commands.{
  Effect, lpush-Effect, zadd-Effect, zrem-Effect, call_lpush-eq, call_zadd-eq, call_zrem-eq,
}
use mini_sidekiq.Broker.Scripts.{set_zadd_zrem, set_lpush_zrem}
use mini_sidekiq.Broker.Tracking.{Placement, Tracks, put}
use mini_sidekiq.Broker.Tracking.Moves.{give-take-Places}
use mini_sidekiq.Broker.Tracking.Records.{
  push-Gives, score-Gives, unscore-Takes, IsWritten, Recorded-put, set-IsShaped, set-Places,
}

module _ (c : Codec) (r : Redis c.Data) (db : r.Db) (w : Placement) (t : Tracks c r db w)
    (job : Job) (d : c.Data) (here : w job.id ≡ some in_active) where
  open r use {Db, set, zadd, zrem, lpush}

  written_db : Db
  written_db = set (job_key job.id) d db

  -- Requeue: a running job waits in the retry set of its queue.
  pub requeue_script :
      (at : ℕ)
      → IsWritten c r job d (in_retry job.queue)
      → (db' : Db) × (set_zadd_zrem c r
            (job_key job.id)
            (retry_key job.queue)
            active_key
            d
            at
            job.id
            db
          ≡ (ok tt, db'))
        × Tracks c r db' (put job.id (in_retry job.queue) w)
  unfolding set_zadd_zrem call_set written_db
  requeue_script at h = (
    db₃,
    rw (
      call_zadd-eq r (in_retry job.queue) job.id written_db (set-IsShaped c r db w t job d) tt at,
      call_zrem-eq r in_active job.id db₂ e.shaped tt,
    ),
    record {
      shaped = f.shaped;
      placed =
          give-take-Places r w job.id in_active (in_retry job.queue)
            (place_key-ne in_active (in_retry job.queue) (omega arith)) _ _ (unscore-Takes job.id)
            (score-Gives job.id) here written_db db₂ db₃ (set-Places c r db w t job d) e.placed
            f.placed;
      recorded =
          Recorded-put c r w job d (in_retry job.queue) db db₃ h (λ a. f.records a ∙ e.records a)
            t.recorded;
    },
  )
    where
      db₂ : Db
      db₂ = zadd (place_key (in_retry job.queue)) at job.id written_db

      db₃ : Db
      db₃ = zrem (place_key in_active) job.id db₂

      e : Effect r (in_retry job.queue) (λ a n. if job.id == a then 1 else n) written_db db₂
      e = zadd-Effect r (in_retry job.queue) job.id written_db (set-IsShaped c r db w t job d) tt at

      f : Effect r in_active (λ a n. if job.id == a then 0 else n) db₂ db₃
      f = zrem-Effect r in_active job.id db₂ e.shaped tt

  -- MoveToDeadLetter: a running job goes to the dead-letter list of its queue.
  pub dead_letter_script :
      IsWritten c r job d (in_dead job.queue)
      → (db' : Db) × (set_lpush_zrem c r
            (job_key job.id)
            (dead_key job.queue)
            active_key
            d
            job.id
            db
          ≡ (ok tt, db'))
        × Tracks c r db' (put job.id (in_dead job.queue) w)
  unfolding set_lpush_zrem call_set written_db
  dead_letter_script h = (
    db₃,
    rw (
      call_lpush-eq r (in_dead job.queue) job.id written_db (set-IsShaped c r db w t job d) tt,
      call_zrem-eq r in_active job.id db₂ e.shaped tt,
    ),
    record {
      shaped = f.shaped;
      placed =
          give-take-Places r w job.id in_active (in_dead job.queue)
            (place_key-ne in_active (in_dead job.queue) (omega arith)) _ _ (unscore-Takes job.id)
            (push-Gives job.id) here written_db db₂ db₃ (set-Places c r db w t job d) e.placed
            f.placed;
      recorded =
          Recorded-put c r w job d (in_dead job.queue) db db₃ h (λ a. f.records a ∙ e.records a)
            t.recorded;
    },
  )
    where
      db₂ : Db
      db₂ = lpush (place_key (in_dead job.queue)) job.id written_db

      db₃ : Db
      db₃ = zrem (place_key in_active) job.id db₂

      e : Effect r (in_dead job.queue) (λ a n. tally (job.id == a) + n) written_db db₂
      e = lpush-Effect r (in_dead job.queue) job.id written_db (set-IsShaped c r db w t job d) tt

      f : Effect r in_active (λ a n. if job.id == a then 0 else n) db₂ db₃
      f = zrem-Effect r in_active job.id db₂ e.shaped tt
