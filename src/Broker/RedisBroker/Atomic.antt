-- ===== src/Broker/RedisBroker/Atomic.antt =====
-- Methods of one script: whatever the network does, the script has run whole or not at all.
use mini_sidekiq.Prelude.{ℕ, ◌+◌, ◌≡◌, refl, ◌⊎◌, inl, inr, some, none, List, ◌∷◌}
use mini_sidekiq.Exec.{Exec, Result, ok, err, network}
use mini_sidekiq.Job.{Job, dead}
use mini_sidekiq.Redis.{Redis}
use mini_sidekiq.Broker.Codec.{Codec}
use mini_sidekiq.Broker.Network.{
  World, Fault, delivered, lost_request, lost_reply, next_fault, later_faults, send, send_cases,
  pipeline,
}
use mini_sidekiq.Broker.Keys.{in_retry, in_dead, in_active}
use mini_sidekiq.Broker.Tracking.{Placement, Tracks, put}
use mini_sidekiq.Broker.Tracking.Settle.{requeue_script, dead_letter_script}
use mini_sidekiq.Broker.Tracking.Deliver.{entry, enqueue_script}
use mini_sidekiq.Broker.RedisBroker.{unix, enqueue, requeue, move_to_dead_letter}

module _ (c : Codec) (r : Redis c.Data) where
  open r use {Db}

  -- The call succeeds and the store goes from one placement to the other, or it fails and the store
  -- has either.
  abbrev pub AllOrNothing : Placement → Placement → Result (Unit {0}) × World Db → Type 0
  AllOrNothing before after (result, world) =
      ((result ≡ ok tt) × Tracks c r world.db after)
      ⊎ ((result ≡ err network) × (Tracks c r world.db before ⊎ Tracks c r world.db after))

  pub send-AllOrNothing :
      (before after : Placement) (request : Exec Db (Unit {0})) (world : World Db)
      → Tracks c r world.db before
      → ((db' : Db) × (request world.db ≡ (ok tt, db')) × Tracks c r db' after)
      → AllOrNothing before after (send request world)
  send-AllOrNothing before after request world t (db', e, t') =
      elim (send_cases request world tt db' e) [
        | inl s ↦ rw s (inl (refl, t'))
        | inr (inl s) ↦ rw s (inr (refl, inl t))
        | inr (inr s) ↦ rw s (inr (refl, inr t'))
      ]

  -- The next command of a pipeline: the store has one placement or the other before it, and so it has
  -- at the end.
  pub pipeline-AllOrNothing :
      (before after middle : Placement) (command : Exec Db (Unit {0}))
      → (commands : List (Exec Db (Unit {0}))) (world : World Db)
      → Tracks c r world.db before ⊎ Tracks c r world.db after
      → ((db' : Db) × (command world.db ≡ (ok tt, db')) × Tracks c r db' middle)
      → ((next : World Db)
          → Tracks c r next.db middle
          → AllOrNothing before after (pipeline commands next))
      → AllOrNothing before after (pipeline (command ∷ commands) world)
  unfolding pipeline
  pipeline-AllOrNothing before after middle command commands world from (db', e, t') more =
      go (next_fault world.faults) refl
    where
      next : World Db
      next = record { db = db'; faults = later_faults world.faults }

      broken :
          AllOrNothing before after (pipeline commands next)
          → AllOrNothing before after (err network, (pipeline commands next).1)
      broken (inl (x, t'')) = inr (refl, inr t'')
      broken (inr (x, either)) = inr (refl, either)

      go :
          (f : Fault)
          → next_fault world.faults ≡ f
          → AllOrNothing before after (pipeline (command ∷ commands) world)
      go delivered h = rw (h, e) (more next t')
      go lost_request h = rw h (inr (refl, from))
      go lost_reply h = rw (h, e) (broken (more next t'))

  -- What starts from the end can only end there.
  pub AllOrNothing-late :
      (before after : Placement) (x : Result (Unit {0}) × World Db)
      → AllOrNothing after after x
      → AllOrNothing before after x
  AllOrNothing-late before after x (inl h) = inl h
  AllOrNothing-late before after x (inr (e, inl t)) = inr (e, inr t)
  AllOrNothing-late before after x (inr (e, inr t)) = inr (e, inr t)

  module _ (world : World Db) (w : Placement) (t : Tracks c r world.db w) (job : Job) where
    -- Enqueue of a job with a new id that can be encoded puts it, with its record, in its queue if
    -- it is due and in the scheduled set if not; or it fails with a network error, and the job
    -- stands there or nowhere.
    pub enqueue_atomic :
        (now : ℕ) (d : c.Data)
        → w job.id ≡ none
        → c.marshal job ≡ some d
        → AllOrNothing w
            (put job.id (entry (unix job.process_at) (unix now) job) w)
            (enqueue c r now job world)
    unfolding enqueue
    enqueue_atomic now d new h = rw h (
        send-AllOrNothing w _ _ world t
          (enqueue_script c r world.db w t job d (unix job.process_at) (unix now) new h))

    -- Requeue of a running job: it stands in the retry set of its queue or is still running.
    pub requeue_atomic :
        (now delay : ℕ) (d : c.Data)
        → w job.id ≡ some in_active
        → c.marshal job ≡ some d
        → AllOrNothing w (put job.id (in_retry job.queue) w) (requeue c r now job delay world)
    unfolding requeue
    requeue_atomic now delay d here h = rw h (
        send-AllOrNothing w _ _ world t (
          requeue_script c r world.db w t job d here (unix (now + delay))
            (record { written = h; home = refl })))

    -- MoveToDeadLetter of a running job: it stands in the dead-letter list of its queue, marked
    -- dead, or is still running.
    pub dead_letter_atomic :
        (d : c.Data)
        → w job.id ≡ some in_active
        → c.marshal (record job { status = dead }) ≡ some d
        → AllOrNothing w (put job.id (in_dead job.queue) w) (move_to_dead_letter c r job world)
    unfolding move_to_dead_letter
    dead_letter_atomic d here h = rw h (
        send-AllOrNothing w _ _ world t (
          dead_letter_script c r world.db w t (record job { status = dead }) d here
            (record { written = h; home = refl })))
