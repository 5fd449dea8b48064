-- ===== src/Broker/RedisBroker/Calm.antt =====
-- Without network faults the methods that end or settle a job succeed.
use mini_sidekiq.Prelude.{ℕ, ◌+◌, ◌≡◌, refl, some, none}
use mini_sidekiq.Exec.{ok}
use mini_sidekiq.Job.{Job, dead}
use mini_sidekiq.Redis.{Redis, call_del}
use mini_sidekiq.Broker.Codec.{Codec}
use mini_sidekiq.Broker.Network.{calm, send}
use mini_sidekiq.Broker.Keys.{in_active}
use mini_sidekiq.Broker.Tracking.{Placement, Tracks}
use mini_sidekiq.Broker.Tracking.Settle.{requeue_script, dead_letter_script}
use mini_sidekiq.Broker.Tracking.Remove.{zrem_tracks}
use mini_sidekiq.Broker.Tracking.Deliver.{enqueue_script}
use mini_sidekiq.Broker.RedisBroker.{unix, enqueue, acknowledge, requeue, move_to_dead_letter}

module _ (c : Codec) (r : Redis c.Data) (db : r.Db) (w : Placement) (t : Tracks c r db w) where
  open r use {Db}

  -- Without network faults, Enqueue of a job with a new id succeeds if the job can be encoded.
  pub enqueue_succeeds :
      (job : Job) (now : ℕ) (d : c.Data)
      → w job.id ≡ none
      → c.marshal job ≡ some d
      → (enqueue c r now job (calm db)).0 ≡ ok tt
  unfolding enqueue send
  enqueue_succeeds job now d new m =
      let (db', e, t') = enqueue_script c r db w t job d (unix job.process_at) (unix now) new m in
      rw (m, e) refl

  -- Without network faults, Acknowledge, Requeue and MoveToDeadLetter of a running job all succeed,
  -- if the records that they write can be encoded.
  pub settling_succeeds :
      (job : Job) (now delay : ℕ) (d e : c.Data)
      → w job.id ≡ some in_active
      → c.marshal job ≡ some d
      → c.marshal (record job { status = dead }) ≡ some e
      → ((acknowledge c r job (calm db)).0 ≡ ok tt)
        × ((requeue c r now job delay (calm db)).0 ≡ ok tt)
        × ((move_to_dead_letter c r job (calm db)).0 ≡ ok tt)
  unfolding acknowledge requeue move_to_dead_letter send call_del
  settling_succeeds job now delay d e here m n =
      let (db₁, a, t₁) = zrem_tracks c r job.id in_active tt db w t in
      let (db₂, b, t₂) =
        requeue_script c r db w t job d here (unix (now + delay))
          (record { written = m; home = refl }) in
      let (db₃, f, t₃) =
        dead_letter_script c r db w t (record job { status = dead }) e here
          (record { written = n; home = refl }) in
      (rw a refl, rw (m, b) refl, rw (n, f) refl)
