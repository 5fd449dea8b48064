-- ===== src/Broker/RedisBroker/Ending.antt =====
-- Methods of two round trips that end a job or bring it back: Acknowledge, DeleteJob, RetryDeadJob.
use mini_sidekiq.Prelude.{
  ℕ, String, List, [], ◌∷◌, fun_ext, ◌≡◌, ◌≢◌, refl, subst, ◌⊎◌, inl, inr, some, arith, eq_refl,
  true, false,
}
use mini_sidekiq.Exec.{Exec, ok, err, network, not_dead}
use mini_sidekiq.Job.{Job}
use mini_sidekiq.Redis.{Redis, call_zrem, call_del, call_get}
use mini_sidekiq.Broker.Codec.{Codec}
use mini_sidekiq.Broker.Network.{World, send, pipeline, later_faults, send_cases}
use mini_sidekiq.Broker.Keys.{
  Place, in_queue, in_retry, in_dead, in_active, in_scheduled, job_key, active_key, dead_key,
  queue_key,
}
use mini_sidekiq.Broker.Scripts.{retry_dead}
use mini_sidekiq.Broker.Tracking.{Placement, Tracks, put, forget, IsHome}
use mini_sidekiq.Broker.Tracking.Records.{stored_at}
use mini_sidekiq.Broker.Tracking.Remove.{
  Removal, leave, leave-forget, leave-either, leave_all-eq, zrem_tracks, lrem_tracks, zrem-Removal,
  del-Tracks,
}
use mini_sidekiq.Broker.Tracking.Return.{retry_dead_script, retry_dead_script_late}
use mini_sidekiq.Broker.RedisBroker.Atomic.{
  AllOrNothing, send-AllOrNothing, pipeline-AllOrNothing, AllOrNothing-late,
}
use mini_sidekiq.Broker.RedisBroker.{
  acknowledge, get_job, delete_pipeline, delete_job, retry_dead_job, reset,
}

abbrev pub after_read : {Db : Type 0} → World Db → World Db
after_read world = record { db = world.db; faults = later_faults world.faults }

-- The placement after the id was taken away from these places, one after the other.
abbrev cleared : String → List Place → Placement → Placement
cleared id [] u = u
cleared id (p ∷ ps) u = cleared id ps (leave id p u)

module _ (c : Codec) (r : Redis c.Data) where
  open r use {Db, value}

  -- The commands take the id away from these places and delete its record in the end.
  data Clears (id : String) : List (Exec Db (Unit {0})) → List Place → Type 0 where
    erased : Clears id (call_del r (job_key id) ∷ []) []
    clears :
        {command : Exec Db (Unit {0})} {commands : List (Exec Db (Unit {0}))} {p : Place}
        → {ps : List Place} → Removal c r id p command
        → Clears id commands ps
        → Clears id (command ∷ commands) (p ∷ ps)

  -- Before each command the id stands where it stood, or nowhere.
  Clears-AllOrNothing :
      (id : String) (w u : Placement) {commands : List (Exec Db (Unit {0}))} {ps : List Place}
      → Clears id commands ps
      → (u ≡ w) ⊎ (u ≡ forget id w)
      → cleared id ps u ≡ forget id w
      → (world : World Db) → Tracks c r world.db u
      → AllOrNothing c r w (forget id w) (pipeline commands world)
  unfolding call_del pipeline
  Clears-AllOrNothing id w u erased either whole world t =
      let t' = subst (Tracks c r world.db) whole t in
      pipeline-AllOrNothing c r w (forget id w) (forget id w) (call_del r (job_key id)) [] world
        (inr t')
        (
          r.del (job_key id) world.db,
          refl,
          del-Tracks c r world.db (forget id w) id t' (rw (eq_refl id)),
        )
        (λ next t''. inl (refl, t''))
  Clears-AllOrNothing id w u (clears {command} {commands} {p} removal more) either whole world t =
      pipeline-AllOrNothing c r w (forget id w) (leave id p u) command commands world
        (elim either [
          | inl e ↦ inl (subst (Tracks c r world.db) e t)
          | inr e ↦ inr (subst (Tracks c r world.db) e t)
        ])
        (removal world.db u t)
        (Clears-AllOrNothing id w (leave id p u) more (leave-either id p w u either) whole)

  delete_pipeline-AllOrNothing :
      (queue id : String) (w : Placement)
      → ((p : Place) → w id ≡ some p → IsHome p queue)
      → (world : World Db) → Tracks c r world.db w
      → AllOrNothing c r w (forget id w) (delete_pipeline c r queue id world)
  unfolding delete_pipeline
  delete_pipeline-AllOrNothing queue id w home =
      Clears-AllOrNothing id w w
        (clears (lrem_tracks c r id (in_queue queue) tt) (
          clears (zrem-Removal c r id (in_retry queue) tt) (
            clears (lrem_tracks c r id (in_dead queue) tt) (
              clears (zrem-Removal c r id in_active tt)
                (clears (zrem-Removal c r id in_scheduled tt) erased)))))
        (inl refl) (fun_ext (leave_all-eq c r queue id w home))

  module _ (world : World Db) (w : Placement) (t : Tracks c r world.db w) where
    -- Acknowledge of a running job: it stands nowhere afterwards, or after an error is perhaps still
    -- running.
    pub acknowledge_atomic :
        (job : Job)
        → w job.id ≡ some in_active
        → AllOrNothing c r w (forget job.id w) (acknowledge c r job world)
    unfolding acknowledge call_del
    acknowledge_atomic job here =
        let (db', e, t') = zrem_tracks c r job.id in_active tt world.db w t in
        let next : World Db = record { db = db'; faults = later_faults world.faults } in
        let t'' = subst (Tracks c r db') (leave-forget w job.id in_active here) t' in
        elim (send_cases (call_zrem r active_key job.id) world _ db' e) [
          | inl s ↦ rw s (
              AllOrNothing-late c r w (forget job.id w) (send (call_del r (job_key job.id)) next) (
                send-AllOrNothing c r (forget job.id w) (forget job.id w) _ next t'' (
                  r.del (job_key job.id) db',
                  refl,
                  del-Tracks c r db' (forget job.id w) job.id t'' (rw (eq_refl job.id)),
                )))
          | inr (inl s) ↦ rw s (inr (refl, inl t))
          | inr (inr s) ↦ rw s (inr (refl, inr t''))
        ]

    -- The record of a job that stands somewhere is read back, unless the request fails.
    pub get_job_cases :
        (id : String) (p : Place)
        → (here : w id ≡ some p)
        → let next = after_read world in
          (get_job c r id world ≡ (ok (some (stored_at c r world.db w id p t here).job), next))
          ⊎ (get_job c r id world ≡ (err network, next))
    unfolding get_job call_get
    get_job_cases id p here =
        let s = stored_at c r world.db w id p t here in
        elim (send_cases (call_get r (job_key id)) world (some s.stored) world.db (rw s.holds)) [
          | inl e ↦ inl (rw (e, s.decodes))
          | inr (inl e) ↦ inr (rw e)
          | inr (inr e) ↦ inr (rw e)
        ]

    IsHome-of :
        (id : String) (p : Place) (here : w id ≡ some p) (q : Place)
        → w id ≡ some q
        → IsHome q (stored_at c r world.db w id p t here).job.queue
    IsHome-of id p here q e =
        let s = stored_at c r world.db w id p t here in
        let same : p ≡ q = ground (arith, here, e) in subst (λ x. IsHome x s.job.queue) same s.home

    -- DeleteJob of a job that stands somewhere: it stands nowhere, or after an error perhaps where it
    -- stood.
    pub delete_atomic :
        (id : String) (p : Place)
        → w id ≡ some p
        → AllOrNothing c r w (forget id w) (delete_job c r id world)
    unfolding delete_job
    delete_atomic id p here =
        let s = stored_at c r world.db w id p t here in
        elim (get_job_cases id p here) [
          | inl e ↦ rw e (
              delete_pipeline-AllOrNothing s.job.queue id w (IsHome-of id p here) (after_read world)
                t)
          | inr e ↦ rw e (inr (refl, inl t))
        ]

    -- RetryDeadJob of a dead job: it is back in its queue with its record reset, or after an error is
    -- perhaps still dead.
    pub retry_dead_atomic :
        (now : ℕ) (id q : String)
        → (here : w id ≡ some (in_dead q)) → (d : c.Data)
        → c.marshal (reset now (stored_at c r world.db w id (in_dead q) t here).job) ≡ some d
        → AllOrNothing c r w (put id (in_queue q) w) (retry_dead_job c r now id world)
    unfolding retry_dead_job
    retry_dead_atomic now id q here d h =
        let s = stored_at c r world.db w id (in_dead q) t here in
        elim (get_job_cases id (in_dead q) here) [
          | inl e ↦
              let (db', runs, t') =
                retry_dead_script c r world.db w t (reset now s.job) d id q s.own_id s.home here
                  h in
              rw (e, h, s.home)
                (elim (send_cases (retry_dead c r (dead_key q) (job_key id) (queue_key q) id d)
                  (after_read world) true db' runs) [
                    | inl f ↦ rw f (inl (refl, t'))
                    | inr (inl f) ↦ rw f (inr (refl, inl t))
                    | inr (inr f) ↦ rw f (inr (refl, inr t'))
                  ])
          | inr e ↦ rw e (inr (refl, inl t))
        ]

    -- RetryDeadJob of a job that stands elsewhere fails and moves nothing.
    pub retry_dead_refused :
        (now : ℕ) (id : String) (p : Place)
        → (here : w id ≡ some p) → ((q : String) → p ≢ in_dead q)
        → (d : c.Data) → c.marshal (reset now (stored_at c r world.db w id p t here).job) ≡ some d
        → let (result, next) = retry_dead_job c r now id world in
          ((result ≡ err not_dead) ⊎ (result ≡ err network)) × Tracks c r next.db w
    unfolding retry_dead_job
    retry_dead_refused now id p here alive d h =
        let s = stored_at c r world.db w id p t here in
        let (db', runs, t') =
          retry_dead_script_late c r world.db w t id s.job.queue d
            (λ e. alive s.job.queue (ground (arith, here, e))) in
        elim (get_job_cases id p here) [
          | inl e ↦
              rw (e, h)
                (elim (send_cases
                  (retry_dead c r (dead_key s.job.queue) (job_key id) (queue_key s.job.queue) id d)
                  (after_read world) false db' runs) [
                    | inl f ↦ rw f (inl refl, t')
                    | inr (inl f) ↦ rw f (inr refl, t)
                    | inr (inr f) ↦ rw f (inr refl, t')
                  ])
          | inr e ↦ rw e (inr refl, t)
        ]
