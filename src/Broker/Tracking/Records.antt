-- ===== src/Broker/Tracking/Records.antt =====
-- The records of jobs, and how a script that writes one keeps them in step with a placement.
use mini_sidekiq.Prelude.{
  ◌+◌, ◌-◌, ◌<◌, String, ◌≡◌, ◌≢◌, ap, sym, subst, ◌∙◌, Option, none, some, ◌==◌, tally, ltb,
  if◌then◌else◌, arith, eq_iff, eq_refl, Bool-cases, ◌⊎◌, ◌≢◌, inl, inr,
}
use mini_sidekiq.Job.{Job}
use mini_sidekiq.Redis.{Redis}
use mini_sidekiq.Redis.Values.{Value, missing, text}
use mini_sidekiq.Broker.Codec.{Codec}
use mini_sidekiq.Broker.Keys.{
  Place, in_queue, in_queue, place_key, place_key-injective, job_key, job_key-eq,
}
use mini_sidekiq.Broker.Shapes.{Fits, occ, IsShaped, occ, record-IsShaped, record-occ}
use mini_sidekiq.Broker.Tracking.{Placement, Tracks, Stored, Recorded, IsHome, put, at_place}
use mini_sidekiq.Broker.Tracking.Moves.{Takes, Gives, Places}

pub push-Gives : (id : String) → Gives id (λ a n. tally (id == a) + n)
push-Gives id = (rw (eq_refl id) (omega arith), λ a n e. rw e (omega arith))

pub score-Gives : (id : String) → Gives id (λ a n. if id == a then 1 else n)
score-Gives id = (rw (eq_refl id), λ a n e. rw e)

pub unscore-Takes : (id : String) → Takes id (λ a n. if id == a then 0 else n)
unscore-Takes id = (rw (eq_refl id), λ a n e. rw e)

pub erase-Takes : (id : String) → Takes id (λ a n. n - tally (id == a))
erase-Takes id = (rw (eq_refl id) (omega arith), λ a n e. rw e (omega arith))

module _ (c : Codec) (r : Redis c.Data) where
  open r use {Db, value, set, zadd, zrem, lpush}

  -- A job about to be written at a place of its queue.
  pub record IsWritten (job : Job) (d : c.Data) (p : Place) : Type 0 where
    pub written : c.marshal job ≡ some d
    pub home : IsHome p job.queue

  -- The record of `id` was overwritten by that of `job`, which now stands at `p`.
  pub Recorded-put :
      (w : Placement) (job : Job) (d : c.Data) (p : Place) (db db' : Db)
      → IsWritten job d p
      → ((a : String) → value db' (job_key a) ≡ value (set (job_key job.id) d db) (job_key a))
      → ((a : String) → Recorded c (value db (job_key a)) a (w a))
      → (a : String) → Recorded c (value db' (job_key a)) a (put job.id p w a)
  Recorded-put w job d p db db' h same old a = elim (Bool-cases (job.id == a)) [
    | inl e ↦ rw e (record {
      stored = d;
      job = job;
      holds = same a ∙ r.value-set _ d db _ ∙ rw (job_key-eq job.id a, e);
      decodes = c.unmarshal-marshal job d h.written;
      routes = c.queue_of-marshal job d h.written;
      own_id = (eq_iff job.id a).0 e;
      home = h.home;
    })
    | inr e ↦ rw e (
        subst (λ v. Recorded c v a (w a))
          (sym (same a ∙ r.value-set _ d db _ ∙ rw (job_key-eq job.id a, e))) (old a))
  ]

  module _ (db : Db) (w : Placement) (t : Tracks c r db w) (job : Job) (d : c.Data) where
    pub set-IsShaped : IsShaped r (set (job_key job.id) d db)
    set-IsShaped =
        record-IsShaped r job.id (λ _. text d) db _ (r.value-set (job_key job.id) d db) t.shaped

    pub set-Places : Places r (set (job_key job.id) d db) w
    set-Places a p =
        record-occ r job.id (λ _. text d) db _ (r.value-set (job_key job.id) d db) a p
        ∙ t.placed a p

  -- No record changed, and that of `id` suits its new place.
  pub Recorded-rehome :
      (w : Placement) (id : String) (p : Place) (db db' : Db)
      → Stored c (value db (job_key id)) id p
      → ((a : String) → value db' (job_key a) ≡ value db (job_key a))
      → ((a : String) → Recorded c (value db (job_key a)) a (w a))
      → (a : String) → Recorded c (value db' (job_key a)) a (put id p w a)
  Recorded-rehome w id p db db' stored same old a = elim (Bool-cases (id == a)) [
    | inl e ↦
        rw (e, same a) (subst (λ x. Stored c (value db (job_key x)) x p) ((eq_iff id a).0 e) stored)
    | inr e ↦ rw (e, same a) (old a)
  ]

  -- The record of a job that stands somewhere.
  pub stored_at :
      (db : Db) (w : Placement) (id : String) (p : Place)
      → Tracks c r db w
      → w id ≡ some p
      → Stored c (value db (job_key id)) id p
  stored_at db w id p t e = subst (λ o. Recorded c (value db (job_key id)) id o) e (t.recorded id)

-- An id that occurs at a place stands there.
pub at_place_pos : (o : Option Place) (p : Place) → 0 < at_place o p → o ≡ some p
at_place_pos none p h = absurd (omega arith)
at_place_pos (some q) p h =
    ap some (place_key-injective q p (ground (arith, eq_iff (place_key q) (place_key p))))

pub at_place_self : (p : Place) → at_place (some p) p ≡ 1
at_place_self p = rw (eq_refl (place_key p))

-- Whether an id stands at a place.
pub place_cases : (o : Option Place) (p : Place) → (o ≡ some p) ⊎ (o ≢ some p)
place_cases o p = elim (Bool-cases (ltb 0 (at_place o p))) [
  | inl e ↦ inl (at_place_pos o p (ground arith))
  | inr e ↦ inr (λ h. ground (arith, ap (λ x. at_place x p) h, at_place_self p, e))
]

-- An empty store tracks the empty placement.
module _ (c : Codec) (r : Redis c.Data) (db : r.Db)
    (blank : (k : String) → r.value db k ≡ missing) where
  blank-Fits : (p : Place) (v : Value c.Data) → v ≡ missing → Fits p v
  blank-Fits (in_queue q) v e = rw e tt
  blank-Fits _ v e = rw e tt

  pub blank-Tracks : Tracks c r db (λ a. none)
  unfolding occ
  blank-Tracks = record {
    shaped = λ p. blank-Fits p _ (blank (place_key p));
    placed = λ a p. rw (blank (place_key p));
    recorded = λ a. rw (blank (job_key a)) tt;
  }
