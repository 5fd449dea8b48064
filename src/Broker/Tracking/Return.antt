-- ===== src/Broker/Tracking/Return.antt =====
-- The scripts that bring a job back to its queue: those of PromoteDueJobs and RetryDeadJob.
use mini_sidekiq.Prelude.{
  ◌-◌, String, ◌≡◌, ◌≢◌, refl, subst, ◌∙◌, inl, inr, some, true, false, ◌==◌, tally, ltb,
  if◌then◌else◌, arith, Bool-cases, eq_iff,
}
use mini_sidekiq.Exec.{ok}
use mini_sidekiq.Job.{Job}
use mini_sidekiq.Redis.{Redis, call_set, call_get}
use mini_sidekiq.Redis.Values.{text}
use mini_sidekiq.Broker.Codec.{Codec}
use mini_sidekiq.Broker.Keys.{
  Place, in_queue, in_retry, in_dead, in_active, in_scheduled, place_key, job_key, place_key-ne,
  queue_key, dead_key,
}
use mini_sidekiq.Broker.Shapes.{occ, IsZsetPlace, record-IsShaped, record-occ}
use mini_sidekiq.Broker.Commands.{
  lpush-Effect, zrem-Effect, lrem_one-Effect, call_lpush-eq, call_zrem-eq, call_lrem_one-eq,
}
use mini_sidekiq.Broker.Scripts.{promote_job, retry_dead}
use mini_sidekiq.Broker.Tracking.{Placement, Tracks, put}
use mini_sidekiq.Broker.Tracking.Moves.{take-give-Places, miss-Places}
use mini_sidekiq.Broker.Tracking.Records.{
  push-Gives, unscore-Takes, erase-Takes, Recorded-put, Recorded-rehome, stored_at, at_place_pos,
  at_place_self,
}

-- A sorted set is never a queue.
zset_apart : (p : Place) (q : String) → IsZsetPlace p → place_key p ≢ place_key (in_queue q)
zset_apart (in_retry a) q z = place_key-ne (in_retry a) (in_queue q) (omega arith)
zset_apart in_active q z = place_key-ne in_active (in_queue q) (omega arith)
zset_apart in_scheduled q z = place_key-ne in_scheduled (in_queue q) (omega arith)
zset_apart _ q z = absurd z

module _ (c : Codec) (r : Redis c.Data) (db : r.Db) (w : Placement) (t : Tracks c r db w) where
  open r use {Db, value, set, zrem, lpush, lrem_one}

  -- An id that does not stand at `p` does not occur there.
  absent : (id : String) (p : Place) → w id ≢ some p → occ r db id p ≡ 0
  absent id p away = elim (Bool-cases (ltb 0 (occ r db id p))) [
    | inl e ↦ absurd (away (at_place_pos (w id) p (ground (arith, t.placed id p))))
    | inr e ↦ ground arith
  ]

  present : (id : String) (p : Place) → w id ≡ some p → occ r db id p ≡ 1
  present id p here = t.placed id p ∙ rw here (at_place_self p)

  -- PromoteDueJobs: a job of the sorted set goes to the queue that its record names.
  pub promote_script :
      (id : String) (p : Place)
      → IsZsetPlace p
      → (here : w id ≡ some p)
      → let q = (stored_at c r db w id p t here).job.queue in
        (db' : Db) × (promote_job c r (place_key p) (job_key id) id db ≡ (ok true, db'))
        × Tracks c r db' (put id (in_queue q) w)
  unfolding promote_job call_get
  promote_script id p z here =
      let s = stored_at c r db w id p t here in
      let e = zrem-Effect r p id db t.shaped z in
      let db₁ = zrem (place_key p) id db in
      let f = lpush-Effect r (in_queue s.job.queue) id db₁ e.shaped tt in
      (
        lpush (queue_key s.job.queue) id db₁,
        rw (
          call_zrem-eq r p id db t.shaped z,
          present id p here,
          e.records id,
          s.holds,
          s.routes,
          call_lpush-eq r (in_queue s.job.queue) id db₁ e.shaped tt,
        ),
        record {
          shaped = f.shaped;
          placed =
              take-give-Places r w id p (in_queue s.job.queue) (zset_apart p s.job.queue z) _ _
                (unscore-Takes id) (push-Gives id) here db _ _ t.placed e.placed f.placed;
          recorded =
              Recorded-rehome c r w id (in_queue s.job.queue) db _
                (record {
                  stored = s.stored;
                  job = s.job;
                  holds = s.holds;
                  decodes = s.decodes;
                  routes = s.routes;
                  own_id = s.own_id;
                  home = refl;
                })
                (λ a. f.records a ∙ e.records a) t.recorded;
        },
      )

  -- Another scheduler has taken the job already: nothing happens.
  pub promote_script_late :
      (id : String) (p : Place)
      → IsZsetPlace p
      → w id ≢ some p
      → (db' : Db) × (promote_job c r (place_key p) (job_key id) id db ≡ (ok false, db'))
        × Tracks c r db' w
  unfolding promote_job
  promote_script_late id p z away =
      let e = zrem-Effect r p id db t.shaped z in
      (
        zrem (place_key p) id db,
        rw (call_zrem-eq r p id db t.shaped z, absent id p away),
        record {
          shaped = e.shaped;
          placed =
              miss-Places r w id p db _ t.placed (λ a n. if id == a then 0 else n)
                (λ a. ground (arith, eq_iff id a, absent id p away)) e.placed;
          recorded = λ a. rw (e.records a) (t.recorded a);
        },
      )

  retry_own_script :
      (job : Job) (d : c.Data)
      → w job.id ≡ some (in_dead job.queue)
      → c.marshal job ≡ some d
      → (db' : Db) × (retry_dead c r
            (dead_key job.queue)
            (job_key job.id)
            (queue_key job.queue)
            job.id
            d
            db
          ≡ (ok true, db'))
        × Tracks c r db' (put job.id (in_queue job.queue) w)
  unfolding retry_dead call_set
  retry_own_script job d here h =
      let e = lrem_one-Effect r (in_dead job.queue) job.id db t.shaped tt in
      let db₁ = lrem_one (dead_key job.queue) job.id db in
      let db₂ = set (job_key job.id) d db₁ in
      let new_text = r.value-set (job_key job.id) d db₁ in
      let shaped = record-IsShaped r job.id (λ _. text d) db₁ db₂ new_text e.shaped in
      let kept = record-occ r job.id (λ _. text d) db₁ db₂ new_text in
      let f = lpush-Effect r (in_queue job.queue) job.id db₂ shaped tt in
      (
        lpush (queue_key job.queue) job.id db₂,
        rw (
          call_lrem_one-eq r (in_dead job.queue) job.id db t.shaped tt,
          present job.id (in_dead job.queue) here,
          call_lpush-eq r (in_queue job.queue) job.id db₂ shaped tt,
        ),
        record {
          shaped = f.shaped;
          placed =
              take-give-Places r w job.id (in_dead job.queue) (in_queue job.queue)
                (place_key-ne (in_dead job.queue) (in_queue job.queue) (omega arith)) _ _
                (erase-Takes job.id) (push-Gives job.id) here db db₁ _ t.placed e.placed
                (λ a q. f.placed a q ∙ rw (kept a q, kept a (in_queue job.queue)));
          recorded =
              Recorded-put c r w job d (in_queue job.queue) db₁ _
                (record { written = h; home = refl }) f.records
                (λ a. rw (e.records a) (t.recorded a));
        },
      )

  RetriesTo : Job → c.Data → String → String → Type 0
  RetriesTo job d id q =
      w id ≡ some (in_dead q)
      → (db' : Db) × (retry_dead c r (dead_key q) (job_key id) (queue_key q) id d db
          ≡ (ok true, db'))
        × Tracks c r db' (put id (in_queue q) w)

  -- RetryDeadJob: a dead job goes back to its queue, with its record reset.
  pub retry_dead_script :
      (job : Job) (d : c.Data) (id q : String)
      → job.id ≡ id
      → job.queue ≡ q
      → w id ≡ some (in_dead q)
      → c.marshal job ≡ some d
      → (db' : Db) × (retry_dead c r (dead_key q) (job_key id) (queue_key q) id d db
          ≡ (ok true, db'))
        × Tracks c r db' (put id (in_queue q) w)
  unfolding RetriesTo
  retry_dead_script job d id q own home here h =
      subst (λ x. RetriesTo job d x q) own
        (subst (RetriesTo job d job.id) home (λ at. retry_own_script job d at h)) here

  -- The job is not dead, or was retried by another: nothing happens.
  pub retry_dead_script_late :
      (id queue : String) (d : c.Data)
      → w id ≢ some (in_dead queue)
      → (db' : Db) × (retry_dead c r (dead_key queue) (job_key id) (queue_key queue) id d db
          ≡ (ok false, db'))
        × Tracks c r db' w
  unfolding retry_dead
  retry_dead_script_late id queue d away =
      let e = lrem_one-Effect r (in_dead queue) id db t.shaped tt in
      (
        lrem_one (dead_key queue) id db,
        rw (call_lrem_one-eq r (in_dead queue) id db t.shaped tt, absent id (in_dead queue) away),
        record {
          shaped = e.shaped;
          placed =
              miss-Places r w id (in_dead queue) db _ t.placed (λ a n. n - tally (id == a))
                (λ a. ground (arith, eq_iff id a, absent id (in_dead queue) away)) e.placed;
          recorded = λ a. rw (e.records a) (t.recorded a);
        },
      )
