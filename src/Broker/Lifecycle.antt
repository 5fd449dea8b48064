-- ===== src/Broker/Lifecycle.antt =====
-- The life of a job in the Redis store, as the requests of any number of clients change it. A
-- request is what the server runs as one step, so a history of requests is an interleaving of the
-- methods of redis.go, cut short anywhere, where the conditions of `Request` hold.
mod Diagram
pub use Diagram.*
use mini_sidekiq.Prelude.{
  ℕ, String, ◌<◌, ◌≡◌, ◌≢◌, refl, ap, sym, subst, fun_ext, ◌∙◌, ◌⊎◌, inl, inr, Option, some, none,
  arith, eq_iff, Option-cases, Bool-cases, ◌==◌,
}
use mini_sidekiq.Job.{Job}
use mini_sidekiq.Redis.{Redis, call_zrem, call_lrem_all, call_del}
use mini_sidekiq.Redis.Values.{text, missing}
use mini_sidekiq.Broker.Codec.{Codec}
use mini_sidekiq.Broker.Keys.{
  Place, in_queue, in_retry, in_dead, in_active, in_scheduled, job_key, active_key, dead_key,
  queue_key, retry_key, scheduled_key,
}
use mini_sidekiq.Broker.Scripts.{
  set_branch_lpush_zadd, rpop_zadd, set_zadd_zrem, set_lpush_zrem, promote_job, retry_dead,
}
use mini_sidekiq.Broker.Shapes.{occ}
use mini_sidekiq.Broker.Tracking.{Placement, Tracks, Stored, put, forget, at_place, IsHome}
use mini_sidekiq.Broker.Tracking.Records.{
  place_cases, blank-Tracks, stored_at, at_place_pos, at_place_self,
}
use mini_sidekiq.Broker.Tracking.Settle.{requeue_script, dead_letter_script}
use mini_sidekiq.Broker.Tracking.Deliver.{entry, enqueue_script, dequeue_script}
use mini_sidekiq.Broker.Tracking.Return.{
  promote_script, promote_script_late, retry_dead_script, retry_dead_script_late,
}
use mini_sidekiq.Broker.Tracking.Remove.{
  leave, leave-forget, leave-stays, zrem_tracks, lrem_tracks, del-Tracks,
}

module _ (c : Codec) (r : Redis c.Data) where
  open r use {Db, value, del}

  -- What the clients send. A worker requeues or buries a job that is running; an id stands nowhere
  -- when it is enqueued, and when its record is deleted. Acknowledge sends `finishes` and `erases`;
  -- DeleteJob takes the id out of the five places and sends `erases` in the end.
  pub data Request (db : Db) : Db → Type 0 where
    enqueues :
        (job : Job) (d : c.Data) (at now : ℕ)
        → ((p : Place) → occ r db job.id p ≡ 0)
        → c.marshal job ≡ some d
        → Request db
            (set_branch_lpush_zadd c r
              (job_key job.id)
              (queue_key job.queue)
              scheduled_key
              d
              at
              now
              job.id
              db).1
    pops : (q : String) (score : ℕ) → Request db (rpop_zadd c r (queue_key q) active_key score db).1
    requeues :
        (job : Job) (d : c.Data) (at : ℕ)
        → 0 < occ r db job.id in_active
        → c.marshal job ≡ some d
        → Request db
            (set_zadd_zrem c r (job_key job.id) (retry_key job.queue) active_key d at job.id db).1
    buries :
        (job : Job) (d : c.Data)
        → 0 < occ r db job.id in_active
        → c.marshal job ≡ some d
        → Request db
            (set_lpush_zrem c r (job_key job.id) (dead_key job.queue) active_key d job.id db).1
    wakes : (id : String) → Request db (promote_job c r scheduled_key (job_key id) id db).1
    retries : (q id : String) → Request db (promote_job c r (retry_key q) (job_key id) id db).1
    revives :
        (job : Job) (d : c.Data)
        → c.marshal job ≡ some d
        → Request db
            (retry_dead c r
              (dead_key job.queue)
              (job_key job.id)
              (queue_key job.queue)
              job.id
              d
              db).1
    finishes : (id : String) → Request db (call_zrem r active_key id db).1
    erases :
        (id : String)
        → ((p : Place) → occ r db id p ≡ 0)
        → Request db (call_del r (job_key id) db).1
    leaves_queue : (q id : String) → Request db (call_lrem_all r (queue_key q) id db).1
    leaves_retry : (q id : String) → Request db (call_zrem r (retry_key q) id db).1
    leaves_dead : (q id : String) → Request db (call_lrem_all r (dead_key q) id db).1
    leaves_scheduled : (id : String) → Request db (call_zrem r scheduled_key id db).1

  -- The job that a request takes away.
  abbrev pub ends_by : {db db' : Db} → Request db db' → Option String
  ends_by (finishes id) = some id
  ends_by (leaves_queue q id) = some id
  ends_by (leaves_retry q id) = some id
  ends_by (leaves_dead q id) = some id
  ends_by (leaves_scheduled id) = some id
  ends_by _ = none

  -- From a store with nothing in it.
  pub data Reachable : Db → Type 0 where
    fresh : {db : Db} → ((k : String) → value db k ≡ missing) → Reachable db
    step : {db db' : Db} → Reachable db → Request db db' → Reachable db'

  module _ (db : Db) (w : Placement) (t : Tracks c r db w) where
    running : (id : String) → 0 < occ r db id in_active → w id ≡ some in_active
    running id h = at_place_pos (w id) in_active (omega (arith, h, t.placed id in_active))

    absent_none : (id : String) → ((p : Place) → occ r db id p ≡ 0) → w id ≡ none
    absent_none id h = go (w id) refl
      where
        go : (o : Option Place) → w id ≡ o → w id ≡ none
        go none e = e
        go (some p) e =
            absurd (omega (arith, h p, t.placed id p, ap (λ o. at_place o p) e, at_place_self p))

    -- A command that removes an id ends its job, or finds it elsewhere.
    removal-Life :
        (id : String) (p : Place) (db' : Db)
        → Tracks c r db' (leave id p w)
        → (w' : Placement) × Life w (some id) w' × Tracks c r db' w'
    removal-Life id p db' t' = elim (place_cases (w id) p) [
      | inl here ↦
          (forget id w, ends id p here, subst (Tracks c r db') (leave-forget w id p here) t')
      | inr away ↦ (w, stays, subst (Tracks c r db') (leave-stays w id p away) t')
    ]

    -- Every request is a step of the diagram.
    pub Request-Life :
        {db' : Db} (request : Request db db')
        → (w' : Placement) × Life w (ends_by request) w' × Tracks c r db' w'
    Request-Life (enqueues job d at now new h) =
        let (db', e, t') = enqueue_script c r db w t job d at now (absent_none job.id new) h in
        (put job.id (entry at now job) w, enters job.id _ (absent_none job.id new), rw e t')
    Request-Life (pops q score) = elim (dequeue_script c r db w t q score) [
      | inl (db', e, empty, t') ↦ (w, stays, rw e t')
      | inr (id, db', e, here, t') ↦ (put id in_active w, moves id here start, rw e t')
    ]
    Request-Life (requeues job d at h m) =
        let (db', e, t') =
          requeue_script c r db w t job d (running job.id h) at
            (record { written = m; home = refl }) in
        (put job.id (in_retry job.queue) w, moves job.id (running job.id h) retry, rw e t')
    Request-Life (buries job d h m) =
        let (db', e, t') =
          dead_letter_script c r db w t job d (running job.id h)
            (record { written = m; home = refl }) in
        (put job.id (in_dead job.queue) w, moves job.id (running job.id h) bury, rw e t')
    Request-Life (wakes id) = elim (place_cases (w id) in_scheduled) [
      | inl here ↦
          let (db', e, t') = promote_script c r db w t id in_scheduled tt here in
          let q = (stored_at c r db w id in_scheduled t here).job.queue in
          (put id (in_queue q) w, moves id here (wake {q = q}), rw e t')
      | inr away ↦
          let (db', e, t') = promote_script_late c r db w t id in_scheduled tt away in
          (w, stays, rw e t')
    ]
    Request-Life (retries q id) = elim (place_cases (w id) (in_retry q)) [
      | inl here ↦
          let (db', e, t') = promote_script c r db w t id (in_retry q) tt here in
          let s = stored_at c r db w id (in_retry q) t here in
          (
            put id (in_queue q) w,
            moves id here again,
            rw e (subst (λ x. Tracks c r db' (put id (in_queue x) w)) s.home t'),
          )
      | inr away ↦
          let (db', e, t') = promote_script_late c r db w t id (in_retry q) tt away in
          (w, stays, rw e t')
    ]
    Request-Life (revives job d m) = elim (place_cases (w job.id) (in_dead job.queue)) [
      | inl here ↦
          let (db', e, t') = retry_dead_script c r db w t job d job.id job.queue refl refl here m in
          (put job.id (in_queue job.queue) w, moves job.id here revive, rw e t')
      | inr away ↦
          let (db', e, t') = retry_dead_script_late c r db w t job.id job.queue d away in
          (w, stays, rw e t')
    ]
    Request-Life (finishes id) =
        let (db', e, t') = zrem_tracks c r id in_active tt db w t in
        removal-Life id in_active _ (rw e t')
    Request-Life (leaves_queue q id) =
        let (db', e, t') = lrem_tracks c r id (in_queue q) tt db w t in
        removal-Life id (in_queue q) _ (rw e t')
    Request-Life (leaves_retry q id) =
        let (db', e, t') = zrem_tracks c r id (in_retry q) tt db w t in
        removal-Life id (in_retry q) _ (rw e t')
    Request-Life (leaves_dead q id) =
        let (db', e, t') = lrem_tracks c r id (in_dead q) tt db w t in
        removal-Life id (in_dead q) _ (rw e t')
    Request-Life (leaves_scheduled id) =
        let (db', e, t') = zrem_tracks c r id in_scheduled tt db w t in
        removal-Life id in_scheduled _ (rw e t')
    Request-Life (erases id h) =
        (w, stays, unfold call_del in del-Tracks c r db w id t (absent_none id h))

  -- Every store that requests can reach tracks a placement.
  pub Reachable-Tracks : {db : Db} → Reachable db → (w : Placement) × Tracks c r db w
  Reachable-Tracks (fresh h) = (λ a. none, blank-Tracks c r _ h)
  Reachable-Tracks (step {db} h s) =
      let (w, t) = Reachable-Tracks h in let (w', l, t') = Request-Life db w t s in (w', t')

  stands_there :
      {db : Db} (w : Placement)
      → Tracks c r db w
      → (id : String) (p : Place) → w id ≡ some p
      → 0 < occ r db id p
  stands_there w t id p e = omega (arith, t.placed id p, ap (λ o. at_place o p) e, at_place_self p)

  -- In every store that any interleaving of requests can reach, a job id that stands at a place
  -- stands there exactly once, at no other place, and its record decodes to a job with that id and
  -- the queue of the place. Each command of DeleteJob's pipeline is a request of its own. An id is
  -- enqueued only while it stands nowhere, a worker requeues or buries only a job that is running,
  -- and a record is deleted only while its id stands nowhere, as at the end of an Acknowledge or a
  -- DeleteJob that no other request for the same job overlaps.
  pub Reachable-once :
      {db : Db} (id : String) (p : Place)
      → Reachable db
      → 0 < occ r db id p
      → (occ r db id p ≡ 1)
        × ((q : Place) → 0 < occ r db id q → q ≡ p)
        × Stored c (value db (job_key id)) id p
  Reachable-once {db} id p h pos =
      let (w, t) = Reachable-Tracks h in
      let here : w id ≡ some p = at_place_pos (w id) p (omega (arith, pos, t.placed id p)) in
      (
        t.placed id p ∙ rw here (at_place_self p),
        λ q pos'.
            let there : w id ≡ some q =
              at_place_pos (w id) q (omega (arith, pos', t.placed id q)) in
            ground (arith, here, there),
        stored_at c r db w id p t here,
      )

  -- From a store that any interleaving of requests has reached, a request leaves every job
  -- standing where it stood or where the life-cycle diagram leads, except the one job that it
  -- acknowledges or deletes. Each command of DeleteJob's pipeline is a request of its own. An id
  -- is enqueued only while it stands nowhere, a worker requeues or buries only a job that is
  -- running, and a record is deleted only while its id stands nowhere, as at the end of an
  -- Acknowledge or a DeleteJob that no other request for the same job overlaps.
  pub Request-keeps :
      {db db' : Db} (id : String) (p : Place) (request : Request db db')
      → Reachable db
      → 0 < occ r db id p
      → ends_by request ≢ some id
      → (q : Place) × (0 < occ r db' id q) × ((q ≡ p) ⊎ Leads p q)
  Request-keeps {db} {db'} id p request h pos other =
      let (w, t) = Reachable-Tracks h in
      let here : w id ≡ some p = at_place_pos (w id) p (omega (arith, pos, t.placed id p)) in
      let (w', l, t') = Request-Life db w t request in
      elim (Life-job id p l here) [
        | inl same ↦ (p, stands_there w' t' id p same, inl refl)
        | inr (inl (q, leads, to)) ↦ (q, stands_there w' t' id q to, inr leads)
        | inr (inr e) ↦ absurd (other e)
      ]
