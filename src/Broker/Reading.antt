-- ===== src/Broker/Reading.antt =====
-- The methods of internal/broker/redis.go that only read.
use mini_sidekiq.Prelude.{
  ℕ, String, ◌≡◌, refl, ◌∙◌, inl, inr, List, [], ◌∷◌, ◌++◌, Option, none, some, leb, length, ◌-◌,
  Bool-cases,
}
use mini_sidekiq.Exec.{
  Exec, Error, Result, ok, err, or_raise, continue, unmarshal, unsupported, ◌>>=◌,
}
use mini_sidekiq.Job.{Job, JobStatus, pending, active, retry, dead, completed, other}
use mini_sidekiq.Redis.{Redis, call_get, call_lrange, call_zrange, call_llen, call_zcard}
use mini_sidekiq.Broker.Codec.{Codec}
use mini_sidekiq.Broker.Network.{
  World, Fault, delivered, lost_request, lost_reply, next_fault, transmit, send,
}
use mini_sidekiq.Broker.Keys.{job_key, active_key, scheduled_key}
use mini_sidekiq.Broker.Stats.{QueueStats, StatsMap, no_queues}
use mini_sidekiq.Broker.RedisBroker.{Client, get_job}
use mini_sidekiq.Broker.Listing.{collect_ids, load_jobs, collect_ids_from_lists, get_jobs_by_status}
use mini_sidekiq.Broker.Counting.{
  count_key, each_key, each_id, attribute_global_set_to_queues, scan_each, get_queue_stats,
  note_enqueued, note_retry, note_dead, more_scheduled, more_active,
}

module _ {Db : Type 0} where
  -- Whatever the world is, the store stays as it is.
  pub record Leaves {A : Type 0} (m : Exec (World Db) A) : Type 0 where
    pub leaves : (world : World Db) → (m world).1.db ≡ world.db

  pure-Leaves : {A : Type 0} (result : Result A) → Leaves (λ s. (result, s))
  pure-Leaves result = record { leaves = λ world. refl }

  send-Leaves :
      {A : Type 0} (request : Exec Db A) → ((db : Db) → (request db).1 ≡ db) → Leaves (send request)
  unfolding send
  send-Leaves request h = record { leaves = λ world. by_fault world (next_fault world.faults) }
    where
      by_fault : (world : World Db) (f : Fault) → (transmit f request world.db).1 ≡ world.db
      by_fault world delivered = h world.db
      by_fault world lost_request = refl
      by_fault world lost_reply = h world.db

  module _ {A B : Type 0} where
    continue-Leaves :
        (result : Result A) (f : A → Exec (World Db) B)
        → ((a : A) → Leaves (f a))
        → Leaves (continue result f)
    continue-Leaves (ok a) f h = h a
    continue-Leaves (err e) f h = pure-Leaves (err e)

    bind-Leaves :
        (m : Exec (World Db) A) (f : A → Exec (World Db) B)
        → Leaves m
        → ((a : A) → Leaves (f a))
        → Leaves (m >>= f)
    bind-Leaves m f h k = record {
      leaves = λ world. (continue-Leaves (m world).0 f k).leaves (m world).1 ∙ h.leaves world;
    }

  -- The result is looked at.
  bind_option-Leaves :
      {A B : Type 0} (m : Exec (World Db) (Option A)) (f : Option A → Exec (World Db) B)
      → Leaves m
      → Leaves (f none)
      → ((a : A) → Leaves (f (some a)))
      → Leaves (m >>= f)
  bind_option-Leaves {A} {B} m f h none_leaves some_leaves = bind-Leaves m f h f-Leaves
    where
      f-Leaves : (o : Option A) → Leaves (f o)
      f-Leaves none = none_leaves
      f-Leaves (some a) = some_leaves a

  or_raise-Leaves : {A : Type 0} (o : Option A) (e : Error) → Leaves (or_raise o e)
  or_raise-Leaves none e = pure-Leaves (err e)
  or_raise-Leaves (some a) e = pure-Leaves (ok a)

module _ (c : Codec) (r : Redis c.Data) where
  open r use {Db}

  get-Leaves : (key : String) → Leaves (send (call_get r key))
  unfolding call_get
  get-Leaves key = send-Leaves (call_get r key) (λ db. refl)

  zrange-Leaves : (key : String) (n : ℕ) → Leaves (send (call_zrange r key n))
  unfolding call_zrange
  zrange-Leaves key n = send-Leaves (call_zrange r key n) (λ db. refl)

  lrange-Leaves : (key : String) (n : ℕ) → Leaves (send (call_lrange r key n))
  unfolding call_lrange
  lrange-Leaves key n = send-Leaves (call_lrange r key n) (λ db. refl)

  pub get_job-Leaves : (id : String) → Leaves (get_job c r id)
  unfolding get_job
  get_job-Leaves id = bind_option-Leaves _ _ (get-Leaves (job_key id)) (pure-Leaves (ok none)) (λ d.
      bind-Leaves _ _ (or_raise-Leaves (c.unmarshal d) unmarshal) (λ j. pure-Leaves (ok (some j))))

  collect_ids-Leaves :
      (limit : ℕ) (keys ids : List String) → Leaves (collect_ids c r limit keys ids)
  unfolding collect_ids
  collect_ids-Leaves limit [] ids = pure-Leaves (ok ids)
  collect_ids-Leaves limit (key ∷ keys) ids = elim (Bool-cases (leb limit (length ids))) [
    | inl e ↦ rw (collect_ids, e) (pure-Leaves (ok ids))
    | inr e ↦
        rw (collect_ids, e)
          (bind-Leaves _ _ (lrange-Leaves key (limit - length ids))
            (λ vals. collect_ids-Leaves limit keys (ids ++ vals)))
  ]

  load_jobs-Leaves : (ids : List String) (jobs : List Job) → Leaves (load_jobs c r ids jobs)
  unfolding load_jobs
  load_jobs-Leaves [] jobs = pure-Leaves (ok jobs)
  load_jobs-Leaves (id ∷ ids) jobs =
      bind_option-Leaves _ _ (get-Leaves (job_key id)) (load_jobs-Leaves ids jobs) (λ d.
        bind-Leaves _ _ (or_raise-Leaves (c.unmarshal d) unmarshal)
          (λ j. load_jobs-Leaves ids (jobs ++ (j ∷ []))))

  count_key-Leaves :
      (prefix : String) (size : String → Exec Db ℕ) (note : ℕ → QueueStats → QueueStats)
      → ((key : String) (db : Db) → (size key db).1 ≡ db)
      → (key : String) (stats : StatsMap) → Leaves (count_key c r prefix size note key stats)
  unfolding count_key
  count_key-Leaves prefix size note h key stats =
      bind-Leaves _ _ (send-Leaves (size key) (h key)) (λ n. pure-Leaves (ok _))

  each_key-Leaves :
      (fn : String → StatsMap → Client c r StatsMap)
      → ((key : String) (stats : StatsMap) → Leaves (fn key stats))
      → (keys : List String) (stats : StatsMap) → Leaves (each_key c r fn keys stats)
  unfolding each_key
  each_key-Leaves fn h [] stats = pure-Leaves (ok stats)
  each_key-Leaves fn h (key ∷ keys) stats =
      bind-Leaves _ _ (h key stats) (λ next. each_key-Leaves fn h keys next)

  each_id-Leaves :
      (more : ℕ → QueueStats → QueueStats) (ids : List String) (stats : StatsMap)
      → Leaves (each_id c r more ids stats)
  unfolding each_id
  each_id-Leaves more [] stats = pure-Leaves (ok stats)
  each_id-Leaves more (id ∷ ids) stats =
      bind_option-Leaves _ _ (get-Leaves (job_key id)) (each_id-Leaves more ids stats) (λ d.
        bind-Leaves _ _ (or_raise-Leaves (c.unmarshal d) unmarshal)
          (λ j. each_id-Leaves more ids _))

  attribute-Leaves :
      (key : String) (more : ℕ → QueueStats → QueueStats) (stats : StatsMap)
      → Leaves (attribute_global_set_to_queues c r key more stats)
  unfolding attribute_global_set_to_queues
  attribute-Leaves key more stats =
      bind-Leaves _ _ (zrange-Leaves key 0) (λ ids. each_id-Leaves more ids stats)

  module _ (scan : String → Exec Db (List String))
      (scan_reads : (p : String) (db : Db) → (scan p db).1 ≡ db) where
    from_lists-Leaves :
        (pattern : String) (limit : ℕ)
        → Leaves (collect_ids_from_lists c r scan pattern limit >>= λ ids. load_jobs c r ids [])
    unfolding collect_ids_from_lists
    from_lists-Leaves pattern limit =
        bind-Leaves (collect_ids_from_lists c r scan pattern limit) _
          (bind-Leaves _ _ (send-Leaves (scan pattern) (scan_reads pattern))
            (λ keys. collect_ids-Leaves limit keys []))
          (λ ids. load_jobs-Leaves ids [])

    pub get_jobs_by_status-Leaves :
        (status : JobStatus) (limit : ℕ) → Leaves (get_jobs_by_status c r scan status limit)
    unfolding get_jobs_by_status
    get_jobs_by_status-Leaves dead limit = from_lists-Leaves "sidekiq:dead:*" limit
    get_jobs_by_status-Leaves retry limit = from_lists-Leaves "sidekiq:retry:*" limit
    get_jobs_by_status-Leaves pending limit = from_lists-Leaves "sidekiq:queue:*" limit
    get_jobs_by_status-Leaves active limit =
        bind-Leaves _ _ (zrange-Leaves active_key limit) (λ ids. load_jobs-Leaves ids [])
    get_jobs_by_status-Leaves completed limit = pure-Leaves (ok [])
    get_jobs_by_status-Leaves (other s) limit = pure-Leaves (err (unsupported s))

    scan_each-Leaves :
        (pattern prefix : String) (size : String → Exec Db ℕ) (note : ℕ → QueueStats → QueueStats)
        (stats : StatsMap)
        → ((key : String) (db : Db) → (size key db).1 ≡ db)
        → Leaves (scan_each c r scan pattern (count_key c r prefix size note) stats)
    unfolding scan_each
    scan_each-Leaves pattern prefix size note stats h =
        bind-Leaves _ _ (send-Leaves (scan pattern) (scan_reads pattern))
          (λ keys. each_key-Leaves _ (count_key-Leaves prefix size note h) keys stats)

    pub get_queue_stats-Leaves : Leaves (get_queue_stats c r scan)
    unfolding get_queue_stats call_llen call_zcard
    get_queue_stats-Leaves =
        bind-Leaves _ _
          (scan_each-Leaves _ _ (call_llen r) note_enqueued no_queues (λ key db. refl))
          (λ queues.
            bind-Leaves _ _ (scan_each-Leaves _ _ (call_zcard r) note_retry queues (λ key db. refl))
              (λ retries.
                bind-Leaves _ _
                  (scan_each-Leaves _ _ (call_llen r) note_dead retries (λ key db. refl))
                  (λ deads.
                    bind-Leaves _ _ (attribute-Leaves scheduled_key more_scheduled deads)
                      (λ scheduled. attribute-Leaves active_key more_active scheduled))))
