-- ===== src/Broker/Tracking/Deliver.antt =====
-- The scripts that bring a job in and hand it out: those of Enqueue and Dequeue.
use mini_sidekiq.Prelude.{
  ℕ, String, ◌≡◌, ◌≢◌, refl, ap, ◌∙◌, ◌⊎◌, inl, inr, some, none, leb, if◌then◌else◌, arith,
  Bool-cases,
}
use mini_sidekiq.Exec.{ok}
use mini_sidekiq.Job.{Job}
use mini_sidekiq.Redis.{Redis, call_set}
use mini_sidekiq.Broker.Codec.{Codec}
use mini_sidekiq.Broker.Keys.{
  Place, in_queue, in_active, in_scheduled, place_key, job_key, place_key-ne, queue_key, active_key,
  scheduled_key,
}
use mini_sidekiq.Broker.Commands.{
  lpush-Effect, zadd-Effect, rpop_cases, call_lpush-eq, call_zadd-eq,
}
use mini_sidekiq.Broker.Scripts.{set_branch_lpush_zadd, rpop_zadd}
use mini_sidekiq.Broker.Tracking.{Placement, Tracks, Stored, put, at_place}
use mini_sidekiq.Broker.Tracking.Moves.{give-Places, take-give-Places, miss-Places}
use mini_sidekiq.Broker.Tracking.Records.{
  push-Gives, score-Gives, erase-Takes, Recorded-put, Recorded-rehome, stored_at, set-IsShaped,
  set-Places, at_place_pos, at_place_self,
}

-- Where Enqueue puts a job.
abbrev pub entry : ℕ → ℕ → Job → Place
entry at now job = if leb at now then in_queue job.queue else in_scheduled

module _ (c : Codec) (r : Redis c.Data) (db : r.Db) (w : Placement) (t : Tracks c r db w) where
  open r use {Db, value, set, zadd, zrem, lpush, rpop, lrem_one}

  -- Enqueue: a job with a new id comes in, due at once or later.
  pub enqueue_script :
      (job : Job) (d : c.Data) (at now : ℕ)
      → w job.id ≡ none
      → c.marshal job ≡ some d
      → (db' : Db) × (set_branch_lpush_zadd c r
            (job_key job.id)
            (queue_key job.queue)
            scheduled_key
            d
            at
            now
            job.id
            db
          ≡ (ok tt, db'))
        × Tracks c r db' (put job.id (entry at now job) w)
  unfolding set_branch_lpush_zadd call_set
  enqueue_script job d at now new h = elim (Bool-cases (leb at now)) [
    | inl due ↦
        let e = lpush-Effect r (in_queue job.queue) job.id db₁ (set-IsShaped c r db w t job d) tt in
        (
          lpush (place_key (in_queue job.queue)) job.id db₁,
          rw (
            due,
            call_lpush-eq r (in_queue job.queue) job.id db₁ (set-IsShaped c r db w t job d) tt,
          ),
          rw due (record {
            shaped = e.shaped;
            placed =
                give-Places r w job.id (in_queue job.queue) db₁ _ (set-Places c r db w t job d) _
                  (push-Gives job.id) new e.placed;
            recorded =
                Recorded-put c r w job d (in_queue job.queue) db _
                  (record { written = h; home = refl }) e.records t.recorded;
          }),
        )
    | inr later ↦
        let e = zadd-Effect r in_scheduled job.id db₁ (set-IsShaped c r db w t job d) tt at in
        (
          zadd (place_key in_scheduled) at job.id db₁,
          rw (later, call_zadd-eq r in_scheduled job.id db₁ (set-IsShaped c r db w t job d) tt at),
          rw later (record {
            shaped = e.shaped;
            placed =
                give-Places r w job.id in_scheduled db₁ _ (set-Places c r db w t job d) _
                  (score-Gives job.id) new e.placed;
            recorded =
                Recorded-put c r w job d in_scheduled db _ (record { written = h; home = tt })
                  e.records t.recorded;
          }),
        )
  ]
    where
      db₁ : Db
      db₁ = set (job_key job.id) d db

  -- Dequeue: a job of the queue, if it has one, is running from now on.
  pub dequeue_script :
      (q : String) (score : ℕ)
      → ((db' : Db) × (rpop_zadd c r (queue_key q) active_key score db ≡ (ok none, db'))
          × ((id : String) → w id ≢ some (in_queue q))
          × Tracks c r db' w)
        ⊎ ((id : String) × (db' : Db) × (rpop_zadd c r (queue_key q) active_key score db
              ≡ (ok (some id), db'))
            × (w id ≡ some (in_queue q))
            × Tracks c r db' (put id in_active w))
  unfolding rpop_zadd
  dequeue_script q score = elim (rpop_cases r (in_queue q) db t.shaped tt) [
    | inl (e, empty, f) ↦ inl (
      rpop (queue_key q) db,
      rw e,
      λ id at. omega (
        arith,
        empty id,
        t.placed id (in_queue q),
        ap (λ o. at_place o (in_queue q)) at,
        at_place_self (in_queue q),
      ),
      record {
        shaped = f.shaped;
        placed = miss-Places r w "" (in_queue q) db _ t.placed (λ a n. n) (λ a. refl) f.placed;
        recorded = λ a. rw (f.records a) (t.recorded a);
      },
    )
    | inr (id, e, pos, f) ↦
        let here : w id ≡ some (in_queue q) =
          at_place_pos (w id) (in_queue q) (omega (arith, pos, t.placed id (in_queue q))) in
        let g = zadd-Effect r in_active id (rpop (queue_key q) db) f.shaped tt score in
        inr (
          id,
          zadd active_key score id (rpop (queue_key q) db),
          rw (e, call_zadd-eq r in_active id (rpop (queue_key q) db) f.shaped tt score),
          here,
          record {
            shaped = g.shaped;
            placed =
                take-give-Places r w id (in_queue q) in_active
                  (place_key-ne (in_queue q) in_active (omega arith)) _ _ (erase-Takes id)
                  (score-Gives id) here db _ _ t.placed f.placed g.placed;
            recorded =
                Recorded-rehome c r w id in_active db _
                  (running (stored_at c r db w id (in_queue q) t here))
                  (λ a. g.records a ∙ f.records a) t.recorded;
          },
        )
  ]
    where
      running :
          {id : String}
          → Stored c (value db (job_key id)) id (in_queue q)
          → Stored c (value db (job_key id)) id in_active
      running s = record {
        stored = s.stored;
        job = s.job;
        holds = s.holds;
        decodes = s.decodes;
        routes = s.routes;
        own_id = s.own_id;
        home = tt;
      }
