-- ===== src/System/Keeping.antt =====
-- What a call of one part of the system leaves: held jobs that are running.
use mini_sidekiq.Prelude.{
  ℕ, String, ◌≡◌, ◌≢◌, refl, ap, inl, inr, List, Option, none, some, ◌==◌, if◌then◌else◌,
  ==-false_of_ne,
}
use mini_sidekiq.Exec.{Result}
use mini_sidekiq.Job.{Job}
use mini_sidekiq.Redis.{Redis}
use mini_sidekiq.Redis.Values.{missing}
use mini_sidekiq.Broker.Codec.{Codec}
use mini_sidekiq.Broker.Network.{World}
use mini_sidekiq.Broker.Keys.{Place, in_queue, in_retry, in_dead, in_active, job_key}
use mini_sidekiq.Broker.Tracking.{Placement, Tracks, put}
use mini_sidekiq.Broker.Tracking.Deliver.{entry}
use mini_sidekiq.Broker.RedisBroker.{unix, enqueue}
use mini_sidekiq.Broker.RedisBroker.Atomic.{enqueue_atomic}
use mini_sidekiq.Broker.RedisBroker.Dequeue.{Dequeued, empty, handed, failed, stranded, Takes}
use mini_sidekiq.Broker.RedisBroker.Promote.{Promotions, no_more, and_then}
use mini_sidekiq.Worker.Middleware.{LogLine, Process}
use mini_sidekiq.Worker.Settling.{Verdict, Settles, done, again, buried, after}
use mini_sidekiq.System.{System, hand_over}
use mini_sidekiq.System.Holding.{
  copies, Covers, Covers-put, not_held, elsewhere, source-IsElsewhere, Covers-take, unrecorded,
}

module _ (c : Codec) (r : Redis c.Data) where
  open r use {Db, value}

  -- The store tracks a placement in which no job has the empty id and the held jobs are running.
  pub record IsKept (s : System Db) : Type 0 where
    pub placement : Placement
    pub tracks : Tracks c r s.world.db placement
    pub unnamed : placement "" ≡ none
    pub covers : Covers s.held placement

  -- A job that nobody holds has moved.
  moved :
      (held : List Job) (w : Placement) (id : String) (o : Option Place) (world : World Db)
      → w "" ≡ none
      → Covers held w
      → copies id held ≡ 0
      → id ≢ ""
      → Tracks c r world.db (λ a. if id == a then o else w a)
      → IsKept (record { world = world; held = held })
  moved held w id o world unnamed covers free named t = record {
    placement = λ a. if id == a then o else w a;
    tracks = t;
    unnamed = rw (==-false_of_ne id "" named, unnamed) refl;
    covers = Covers-put held w id o free covers;
  }

  pub same :
      (s : System Db) (h : IsKept s) (world : World Db)
      → Tracks c r world.db h.placement
      → IsKept (record s { world = world })
  same s h world t = record {
    placement = h.placement;
    tracks = t;
    unnamed = h.unnamed;
    covers = h.covers;
  }

  -- An id that stands somewhere is not empty.
  pub somewhere_named :
      (w : Placement) (id : String) (p : Place) → w "" ≡ none → w id ≡ some p → id ≢ ""
  somewhere_named w id p unnamed here e = cc (here, unnamed, ap w e)

  pub enqueue-Kept :
      (s : System Db) (now : ℕ) (job : Job) (d : c.Data)
      → IsKept s
      → value s.world.db (job_key job.id) ≡ missing
      → job.id ≢ ""
      → c.marshal job ≡ some d
      → IsKept (record s { world = (enqueue c r now job s.world).1 })
  enqueue-Kept s now job d h fresh named m =
      let new = unrecorded c _ job.id _ (h.tracks.recorded job.id) fresh in
      let free = not_held s.held h.placement job.id none new refl h.covers in
      let entered =
        moved s.held h.placement job.id (some (entry (unix job.process_at) (unix now) job))
          (enqueue c r now job s.world).1 h.unnamed h.covers free named in
      elim (enqueue_atomic c r s.world h.placement h.tracks job now d new m) [
        | inl (e, t) ↦ entered t
        | inr (e, inl t) ↦ same s h _ t
        | inr (e, inr t) ↦ entered t
      ]

  taken :
      (s : System Db) (queues : List String) (id : String) (world : World Db) (h : IsKept s)
      → Takes c r h.placement queues id world.db
      → (copies id s.held ≡ 0) × IsKept (record s { world = world })
  taken s queues id world h k =
      let free =
        not_held s.held h.placement id _ k.waited (elsewhere (in_queue k.from) tt) h.covers in
      let named = somewhere_named h.placement id _ h.unnamed k.waited in
      (
        free,
        moved s.held h.placement id (some in_active) world h.unnamed h.covers free named k.tracks,
      )

  pub dequeue-Kept :
      (s : System Db) (queues : List String) (result : Result (Option Job)) (world : World Db)
      (h : IsKept s)
      → Dequeued c r h.placement queues result world.db
      → IsKept (record { world = world; held = hand_over result s.held })
  dequeue-Kept s queues _ world h (empty none_waits t) = same s h world t
  dequeue-Kept s queues _ world h (failed t) = same s h world t
  dequeue-Kept s queues _ world h (stranded id k) = (taken s queues id world h k).1
  dequeue-Kept s queues _ world h (handed job k) =
      let (free, _) = taken s queues job.id world h k in
      record {
        placement = put job.id in_active h.placement;
        tracks = k.tracks;
        unnamed =
            rw
              (
                ==-false_of_ne job.id "" (somewhere_named h.placement job.id _ h.unnamed k.waited),
                h.unnamed,
              )
              refl;
        covers = Covers-take s.held h.placement job free h.covers;
      }

  pub promoted-Kept :
      (s : System Db) (queues : List String) (w : Placement)
      → w "" ≡ none
      → Covers s.held w
      → (n : ℕ) (final : Placement) → Promotions queues w n final
      → (final "" ≡ none) × Covers s.held final
  promoted-Kept s queues w unnamed covers _ _ no_more = (unnamed, covers)
  promoted-Kept s queues w unnamed covers _ _ (and_then {w' = w'} id q p h here source) =
      let (unnamed', covers') = promoted-Kept s queues w unnamed covers _ _ h in
      let named = somewhere_named w' id p unnamed' here in
      let free =
        not_held s.held w' id _ here (elsewhere p (source-IsElsewhere queues p source)) covers' in
      (
        rw (==-false_of_ne id "" named, unnamed') refl,
        Covers-put s.held w' id (some (in_queue q)) free covers',
      )

  settled-Kept :
      (held : List Job) (w : Placement) (v : Verdict) (job : Job) (world : World Db)
      → w "" ≡ none
      → Covers held w
      → copies job.id held ≡ 0
      → job.id ≢ ""
      → Tracks c r world.db (after v job w)
      → IsKept (record { world = world; held = held })
  settled-Kept held w done job world u h free named t =
      moved held w job.id none world u h free named t
  settled-Kept held w again job world u h free named t =
      moved held w job.id (some (in_retry job.queue)) world u h free named t
  settled-Kept held w buried job world u h free named t =
      moved held w job.id (some (in_dead job.queue)) world u h free named t

  pub Settles-Kept :
      {Env : Type 0} (held : List Job) (w : Placement) (v : Verdict) (job : Job) (line : LogLine)
      (p : Process Env) (x : Process Env × World Db)
      → w "" ≡ none
      → Covers held w
      → copies job.id held ≡ 0
      → job.id ≢ ""
      → Settles c r w (after v job w) line p x
      → IsKept (record { world = x.1; held = held })
  Settles-Kept held w v job line p x u h free named (inl (e, t)) =
      settled-Kept held w v job x.1 u h free named t
  Settles-Kept held w v job line p x u h free named (inr (e, inr t)) =
      settled-Kept held w v job x.1 u h free named t
  Settles-Kept held w v job line p x u h free named (inr (e, inl t)) = record {
    placement = w;
    tracks = t;
    unnamed = u;
    covers = h;
  }
