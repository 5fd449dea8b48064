-- ===== src/Broker/Tracking.antt =====
-- The abstract view of the Redis broker: which place each job id stands at. A store tracks such a
-- placement if every id stands exactly once at its place and nowhere else, and has a record there.
pub mod Moves
pub mod Records
pub mod Settle
pub mod Deliver
pub mod Return
pub mod Remove
use mini_sidekiq.Prelude.{ℕ, String, ◌≡◌, Option, none, some, ◌==◌, tally, if◌then◌else◌}
use mini_sidekiq.Job.{Job}
use mini_sidekiq.Redis.{Redis}
use mini_sidekiq.Redis.Values.{Value, missing, text, list, zset}
use mini_sidekiq.Broker.Codec.{Codec}
use mini_sidekiq.Broker.Keys.{
  Place, in_queue, in_retry, in_dead, in_active, in_scheduled, place_key, job_key,
}
use mini_sidekiq.Broker.Shapes.{IsShaped, occ}

abbrev pub Placement : Type 0
Placement = String → Option Place

abbrev pub at_place : Option Place → Place → ℕ
at_place none p = 0
at_place (some q) p = tally (place_key q == place_key p)

abbrev pub put : String → Place → Placement → Placement
put id p w a = if id == a then some p else w a

abbrev pub forget : String → Placement → Placement
forget id w a = if id == a then none else w a

-- The per-queue keys hold jobs of that queue.
abbrev pub IsHome : Place → String → Type 0
IsHome (in_queue q) queue = queue ≡ q
IsHome (in_retry q) queue = queue ≡ q
IsHome (in_dead q) queue = queue ≡ q
IsHome _ queue = Unit

module _ (c : Codec) where
  abbrev pub IsText : Value c.Data → Type 0
  IsText missing = Unit
  IsText (text d) = Unit
  IsText _ = ⊥

  pub record Stored (v : Value c.Data) (id : String) (p : Place) : Type 0 where
    pub stored : c.Data
    pub job : Job
    pub holds : v ≡ text stored
    pub decodes : c.unmarshal stored ≡ some job
    pub routes : c.queue_of stored ≡ some job.queue
    pub own_id : job.id ≡ id
    pub home : IsHome p job.queue

  abbrev pub Recorded : Value c.Data → String → Option Place → Type 0
  Recorded v id none = IsText v
  Recorded v id (some p) = Stored v id p

  pub record Tracks (r : Redis c.Data) (db : r.Db) (w : Placement) : Type 0 where
    pub shaped : IsShaped r db
    pub placed : (a : String) (p : Place) → occ r db a p ≡ at_place (w a) p
    pub recorded : (a : String) → Recorded (r.value db (job_key a)) a (w a)
