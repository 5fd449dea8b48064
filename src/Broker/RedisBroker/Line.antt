-- ===== src/Broker/RedisBroker/Line.antt =====
-- The jobs that wait in one queue of the store, and what Enqueue and Dequeue do to them, without
-- network faults.
use mini_sidekiq.Prelude.{
  ℕ, ◌+◌, ◌*◌, String, ◌≡◌, ◌≢◌, refl, sym, subst, ap, ◌∙◌, true, false, List, [], ◌∷◌, ◌++◌,
  Option, none, some, leb, eq_refl, ◌==◌, ==-false_of_ne, Everyone, Everyone-append, arith,
}
use mini_sidekiq.Exec.{ok}
use mini_sidekiq.Job.{Job}
use mini_sidekiq.Redis.{Redis, call_set, call_lpush, call_rpop, call_zadd, call_get}
use mini_sidekiq.Redis.Values.{text, last, drop_last, list_or_missing, insert_scored, erase_scored}
use mini_sidekiq.Redis.Occurrences.{IsZsetLike, read_zset-like, on_zset-like}
use mini_sidekiq.Redis.Ends.{
  last-append, drop_last-append, read_list-or_missing, on_list-or_missing,
}
use mini_sidekiq.Broker.Codec.{Codec}
use mini_sidekiq.Broker.Network.{calm, send}
use mini_sidekiq.Broker.Keys.{
  in_queue, in_active, place_key, queue_key, active_key, job_key, job_key-eq, place_key-ne,
}
use mini_sidekiq.Broker.Apart.{set-place, lpush-record, rpop-record, zadd-record}
use mini_sidekiq.Broker.Scripts.{set_branch_lpush_zadd, rpop_zadd}
use mini_sidekiq.Broker.RedisBroker.{unix, second, enqueue, dequeue, pop_first, fetch, hand_out}

-- The oldest job is at the head.
abbrev pub oldest : List Job → Option Job
oldest [] = none
oldest (job ∷ jobs) = some job

abbrev pub younger : List Job → List Job
younger [] = []
younger (job ∷ jobs) = jobs

-- The ids in the order of the Redis list, which has the newest at its head.
abbrev ids : List Job → List String
ids [] = []
ids (job ∷ jobs) = ids jobs ++ (job.id ∷ [])

ids-append : (jobs : List Job) (job : Job) → ids (jobs ++ (job ∷ [])) ≡ job.id ∷ ids jobs
ids-append [] job = refl
ids-append (j ∷ jobs) job = ap (λ l. l ++ (j.id ∷ [])) (ids-append jobs job)

module _ (c : Codec) (r : Redis c.Data) (q : String) where
  open r use {Db, value, set, lpush, rpop, zadd}

  -- The record of the job is there, and its id is not empty.
  abbrev Has : Db → Job → Type 0
  Has db job =
      (job.id ≢ "")
      × ((d : c.Data) × (value db (job_key job.id) ≡ text d) × (c.unmarshal d ≡ some job))

  -- The store holds the jobs in the queue, in this order.
  pub record Holds (db : Db) (jobs : List Job) : Type 0 where
    pub line : value db (queue_key q) ≡ list_or_missing (ids jobs)
    pub records : Everyone (Has db) jobs
    pub running : IsZsetLike (value db active_key)

  -- A job that can be put: due, of the queue, with an id of its own and a text.
  abbrev pub Fits : ℕ → Job → List Job → Type 0
  Fits now job jobs =
      (job.queue ≡ q)
      × (leb (unix job.process_at) (unix now) ≡ true)
      × (job.id ≢ "")
      × Everyone (λ j. j.id ≢ job.id) jobs
      × ((d : c.Data) × (c.marshal job ≡ some d))

  queue-ne-active : (queue_key q == active_key) ≡ false
  queue-ne-active =
      ==-false_of_ne (place_key (in_queue q)) (place_key in_active)
        (place_key-ne (in_queue q) in_active (omega arith))

  active-ne-queue : (active_key == queue_key q) ≡ false
  active-ne-queue =
      ==-false_of_ne (place_key in_active) (place_key (in_queue q))
        (place_key-ne in_active (in_queue q) (omega arith))

  Has-same :
      (db db' : Db) (jobs : List Job)
      → ((i : String) → value db' (job_key i) ≡ value db (job_key i))
      → Everyone (Has db) jobs
      → Everyone (Has db') jobs
  Has-same db db' [] same h = tt
  Has-same db db' (j ∷ jobs) same ((ne, (d, e, u)), h) =
      ((ne, (d, same j.id ∙ e, u)), Has-same db db' jobs same h)

  Has-set :
      (i : String) (d : c.Data) (db : Db) (jobs : List Job)
      → Everyone (λ j. j.id ≢ i) jobs
      → Everyone (Has db) jobs
      → Everyone (Has (set (job_key i) d db)) jobs
  Has-set i d db [] new h = tt
  Has-set i d db (j ∷ jobs) (ne, new) ((full, (e, f, u)), h) =
      let kept : value (set (job_key i) d db) (job_key j.id) ≡ value db (job_key j.id) =
        r.value-set (job_key i) d db (job_key j.id)
        ∙ rw (job_key-eq i j.id, ==-false_of_ne i j.id (λ s. ne (sym s))) refl in
      ((full, (e, kept ∙ f, u)), Has-set i d db jobs new h)

  -- Enqueue of a job that fits puts it behind the others.
  pub put_job :
      (now : ℕ) (job : Job) (db : Db) (jobs : List Job)
      → Holds db jobs
      → Fits now job jobs
      → (db' : Db) × (enqueue c r now job (calm db) ≡ (ok tt, calm db'))
        × Holds db' (jobs ++ (job ∷ []))
  unfolding enqueue send set_branch_lpush_zadd call_set call_lpush
  put_job now job db jobs h (own, due, named, new, (d, m)) =
      let db₁ = set (job_key job.id) d db in
      let db₂ = lpush (queue_key q) job.id db₁ in
      let line₁ : value db₁ (queue_key q) ≡ list_or_missing (ids jobs) =
        set-place r job.id d db (in_queue q) ∙ h.line in
      let written : value db₁ (job_key job.id) ≡ text d =
        r.value-set (job_key job.id) d db (job_key job.id) ∙ rw (eq_refl (job_key job.id)) refl in
      let mine : Has db₁ job = (named, (d, written, c.unmarshal-marshal job d m)) in
      (
        db₂,
        rw (m, due, own, line₁, read_list-or_missing c.Data (ids jobs)) refl,
        record {
          line =
              r.value-lpush (queue_key q) job.id db₁ (queue_key q)
              ∙ rw
                  (
                    eq_refl (queue_key q),
                    line₁,
                    on_list-or_missing {D = c.Data} (◌∷◌ job.id) (ids jobs),
                    ids-append jobs job,
                  )
                  refl;
          records =
              Has-same db₁ db₂ (jobs ++ (job ∷ [])) (λ i. lpush-record r (in_queue q) job.id i db₁)
                (Everyone-append (Has db₁) jobs (job ∷ []) (Has-set job.id d db jobs new h.records)
                  (mine, tt));
          running =
              subst IsZsetLike
                (sym (
                  r.value-lpush (queue_key q) job.id db₁ active_key
                  ∙ rw queue-ne-active (set-place r job.id d db in_active)))
                h.running;
        },
      )

  rpop-active : (db : Db) → value (rpop (queue_key q) db) active_key ≡ value db active_key
  rpop-active db = r.value-rpop (queue_key q) db active_key ∙ rw queue-ne-active refl

  -- Dequeue takes the oldest job, or none if there is none.
  pub take_job :
      (now : ℕ) (db : Db) (jobs : List Job)
      → Holds db jobs
      → (db' : Db) × (dequeue c r now (q ∷ []) (calm db) ≡ (ok (oldest jobs), calm db'))
        × Holds db' (younger jobs)
  unfolding dequeue pop_first hand_out fetch send rpop_zadd call_rpop call_zadd call_get last
      drop_last
  take_job now db [] h =
      let db₁ = rpop (queue_key q) db in
      (
        db₁,
        rw (h.line) refl,
        record {
          line =
              r.value-rpop (queue_key q) db (queue_key q) ∙ rw (eq_refl (queue_key q), h.line) refl;
          records = tt;
          running = subst IsZsetLike (sym (rpop-active db)) h.running;
        },
      )
  take_job now db (j ∷ jobs) h =
      let ((named, (d, holds, decodes)), records) = h.records in
      let db₁ = rpop (queue_key q) db in
      let score = unix (now + 30 * second) in
      let db₂ = zadd active_key score j.id db₁ in
      let running₁ : IsZsetLike (value db₁ active_key) =
        subst IsZsetLike (sym (rpop-active db)) h.running in
      let line₁ : value db₁ (queue_key q) ≡ list_or_missing (ids jobs) =
        r.value-rpop (queue_key q) db (queue_key q)
        ∙ rw
            (
              eq_refl (queue_key q),
              h.line,
              on_list-or_missing {D = c.Data} drop_last (ids jobs ++ (j.id ∷ [])),
              drop_last-append (ids jobs) j.id,
            )
            refl in
      let same : (i : String) → value db₂ (job_key i) ≡ value db (job_key i) =
        λ i. zadd-record r in_active score j.id i db₁ ∙ rpop-record r (in_queue q) i db in
      (
        db₂,
        rw
            (
              h.line,
              read_list-or_missing c.Data (ids jobs ++ (j.id ∷ [])),
              last-append (ids jobs) j.id,
              read_zset-like _ running₁,
              ==-false_of_ne j.id "" named,
              same j.id,
              holds,
              decodes,
            )
            refl,
        record {
          line = r.value-zadd active_key score j.id db₁ (queue_key q) ∙ rw active-ne-queue line₁;
          records = Has-same db db₂ jobs same records;
          running =
              subst IsZsetLike
                (sym (
                  r.value-zadd active_key score j.id db₁ active_key ∙ rw (eq_refl active_key) refl))
                (on_zset-like (λ l. insert_scored score j.id (erase_scored j.id l))
                  (value db₁ active_key) running₁);
        },
      )
