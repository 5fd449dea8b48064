-- ===== src/Client/Enqueuing.antt =====
-- Client.Enqueue over the Redis broker.
use mini_sidekiq.Prelude.{
  ℕ, zero, suc, ◌+◌, ◌<◌, String, ◌≡◌, ◌≢◌, refl, ap, sym, subst, ◌∙◌, List, [], ◌∷◌, none, some,
  ◌⊎◌, inl, inr, ℤ, pos, negsuc, ◌==◌, Bool-cases, eq_iff, arith,
}
use mini_sidekiq.Exec.{Result, ok, err, network}
use mini_sidekiq.Job.{Job, pending, new_job}
use mini_sidekiq.Redis.{Redis}
use mini_sidekiq.Broker.Codec.{Codec}
use mini_sidekiq.Broker.Network.{World}
use mini_sidekiq.Broker.Tracking.{Placement, Tracks, put}
use mini_sidekiq.Broker.Tracking.Deliver.{entry}
use mini_sidekiq.Broker.RedisBroker.{unix}
use mini_sidekiq.Broker.RedisBroker.Atomic.{enqueue_atomic}
use mini_sidekiq.Broker.Interface.{redis_broker}
use mini_sidekiq.Client.{
  EnqueueOptions, Inputs, enqueue, with_options, queue_of, delay_job, limit_job,
}

-- The job that a call is to make.
abbrev pub intended : Inputs → String → String → List EnqueueOptions → Job
intended x payload job_type opts = with_options x.delayed_from opts (record {
  id = x.uuid;
  queue = queue_of opts;
  type = job_type;
  payload = payload;
  priority = 0;
  created_at = x.created;
  enqueued_at = 0;
  process_at = x.process;
  attempts = 0;
  max_attempts = 3;
  last_error = "";
  unique_key = "";
  status = pending;
})

-- What a call asks for: the first of its options counts, if there is one. An empty queue, a delay or
-- a limit that is not positive ask for the default.
abbrev pub IsNotPositive : ℤ → Type 0
IsNotPositive z = (n : ℕ) → z ≢ pos (suc n)

abbrev pub AsksQueue : List EnqueueOptions → String → Type 0
AsksQueue [] queue = queue ≡ "default"
AsksQueue (o ∷ opts) queue =
    ((o.queue ≡ "") × (queue ≡ "default")) ⊎ ((o.queue ≢ "") × (queue ≡ o.queue))

abbrev pub AsksLimit : List EnqueueOptions → ℕ → Type 0
AsksLimit [] limit = limit ≡ 3
AsksLimit (o ∷ opts) limit =
    (IsNotPositive o.max_attempts × (limit ≡ 3)) ⊎ ((0 < limit) × (o.max_attempts ≡ pos limit))

-- `made` is the time of NewJob, and `called` the one that a delay is added to.
abbrev pub AsksTime : ℕ → ℕ → List EnqueueOptions → ℕ → Type 0
AsksTime made called [] time = time ≡ made
AsksTime made called (o ∷ opts) time =
    (IsNotPositive o.delay × (time ≡ made))
    ⊎ ((d : ℕ) × (0 < d) × (o.delay ≡ pos d) × (time ≡ called + d))

-- The job that a call is to make.
pub record IsWanted (x : Inputs) (payload job_type : String) (opts : List EnqueueOptions)
    (job : Job) : Type 0 where
  pub id : job.id ≡ x.uuid
  pub queue : AsksQueue opts job.queue
  pub type : job.type ≡ job_type
  pub payload_kept : job.payload ≡ payload
  pub limit : AsksLimit opts job.max_attempts
  pub time : AsksTime x.process x.delayed_from opts job.process_at
  pub created : job.created_at ≡ x.created
  pub rest :
      (job.status ≡ pending)
      × (job.attempts ≡ 0)
      × (job.last_error ≡ "")
      × (job.priority ≡ 0)
      × (job.enqueued_at ≡ 0)
      × (job.unique_key ≡ "")

module _ (o : EnqueueOptions) (opts : List EnqueueOptions) (job : Job) where
  delay_cases :
      (now : ℕ) (d : ℤ)
      → o.delay ≡ d
      → (t : ℕ) × AsksTime job.process_at now (o ∷ opts) t
        × (delay_job now d job ≡ record job { process_at = t })
  delay_cases now (pos zero) e = (job.process_at, inl ((λ n h. cc), refl), refl)
  delay_cases now (pos (suc d)) e = (now + suc d, inr (suc d, omega arith, e, refl), refl)
  delay_cases now (negsuc d) e = (job.process_at, inl ((λ n h. cc), refl), refl)

  limit_cases :
      (n : ℤ)
      → o.max_attempts ≡ n
      → job.max_attempts ≡ 3
      → (l : ℕ) × AsksLimit (o ∷ opts) l × (limit_job n job ≡ record job { max_attempts = l })
  limit_cases (pos zero) e three = (job.max_attempts, inl ((λ n h. cc), three), refl)
  limit_cases (pos (suc n)) e three = (suc n, inr (omega arith, e), refl)
  limit_cases (negsuc n) e three = (job.max_attempts, inl ((λ n h. cc), three), refl)

queue_of-AsksQueue : (opts : List EnqueueOptions) → AsksQueue opts (queue_of opts)
queue_of-AsksQueue [] = refl
queue_of-AsksQueue (o ∷ opts) = elim (Bool-cases (o.queue == "")) [
  | inl e ↦ inl ((eq_iff o.queue "").0 e, rw e refl)
  | inr e ↦ inr ((λ same. absurd (ground (arith, e, eq_iff o.queue "", same))), rw e refl)
]

module _ (x : Inputs) (payload job_type : String) (opts : List EnqueueOptions) where
  made : ℕ → ℕ → Job
  made time limit = record {
    id = x.uuid;
    queue = queue_of opts;
    type = job_type;
    payload = payload;
    priority = 0;
    created_at = x.created;
    enqueued_at = 0;
    process_at = time;
    attempts = 0;
    max_attempts = limit;
    last_error = "";
    unique_key = "";
    status = pending;
  }

  made-IsWanted :
      (time limit : ℕ)
      → AsksTime x.process x.delayed_from opts time
      → AsksLimit opts limit
      → IsWanted x payload job_type opts (made time limit)
  unfolding made
  made-IsWanted time limit t l = record {
    id = refl;
    queue = queue_of-AsksQueue opts;
    type = refl;
    payload_kept = refl;
    limit = l;
    time = t;
    created = refl;
    rest = (refl, refl, refl, refl, refl, refl);
  }

pub intended-IsWanted :
    (x : Inputs) (payload job_type : String) (opts : List EnqueueOptions)
    → IsWanted x payload job_type opts (intended x payload job_type opts)
unfolding made
intended-IsWanted x payload job_type [] = made-IsWanted x payload job_type [] x.process 3 refl refl
intended-IsWanted x payload job_type (o ∷ opts) =
    let base = made x payload job_type (o ∷ opts) x.process 3 in
    let (t, asked, e) = delay_cases o opts base x.delayed_from o.delay refl in
    let (l, limit, e') =
      limit_cases o opts (record base { process_at = t }) o.max_attempts refl refl in
    subst (IsWanted x payload job_type (o ∷ opts)) (sym (ap (limit_job o.max_attempts) e ∙ e'))
      (made-IsWanted x payload job_type (o ∷ opts) t l asked limit)

module _ (c : Codec) (r : Redis c.Data) where
  open r use {Db}

  -- The call returns the job and it stands at its place, or it fails and the job stands there or
  -- nowhere.
  abbrev pub Enqueues : Placement → Placement → Job → Result Job × World Db → Type 0
  Enqueues before later job (result, world) =
      ((result ≡ ok job) × Tracks c r world.db later)
      ⊎ ((result ≡ err network) × (Tracks c r world.db before ⊎ Tracks c r world.db later))

  pub enqueue_intended :
      (world : World Db) (w : Placement) (x : Inputs) (payload job_type : String)
      (opts : List EnqueueOptions) (d : c.Data)
      → Tracks c r world.db w
      → x.payload ≡ some payload
      → w (intended x payload job_type opts).id ≡ none
      → c.marshal (intended x payload job_type opts) ≡ some d
      → let job = intended x payload job_type opts in
        Enqueues w
          (put job.id (entry (unix job.process_at) (unix x.sent) job) w)
          job
          (enqueue (redis_broker c r) x job_type opts world)
  unfolding enqueue new_job
  enqueue_intended world w x payload job_type opts d t e new m =
      elim (enqueue_atomic c r world w t (intended x payload job_type opts) x.sent d new m) [
        | inl (s, t') ↦ rw (e, s) (inl (refl, t'))
        | inr (s, t') ↦ rw (e, s) (inr (refl, t'))
      ]

  -- Client.Enqueue over Redis of a payload that can be encoded, under a new id, when the job can
  -- be encoded, whatever the network does: it returns a job with the id, type and payload, the
  -- queue, limit and delay of the first option or, where that is missing or asks for nothing,
  -- "default", 3 and none, and this job stands, with its record, in its queue or in the scheduled
  -- set; or it fails with a network error and the job stands there or nowhere.
  pub enqueue-Enqueues :
      (world : World Db) (w : Placement) (x : Inputs) (payload job_type : String)
      (opts : List EnqueueOptions)
      → Tracks c r world.db w
      → x.payload ≡ some payload
      → w x.uuid ≡ none
      → ((job : Job)
          → IsWanted x payload job_type opts job
          → (d : c.Data) × (c.marshal job ≡ some d))
      → (job : Job) × IsWanted x payload job_type opts job
        × Enqueues w
            (put job.id (entry (unix job.process_at) (unix x.sent) job) w)
            job
            (enqueue (redis_broker c r) x job_type opts world)
  enqueue-Enqueues world w x payload job_type opts t e new encodes =
      let job = intended x payload job_type opts in
      let wanted = intended-IsWanted x payload job_type opts in
      let (d, m) = encodes job wanted in
      (job, wanted, enqueue_intended world w x payload job_type opts d t e (rw wanted.id new) m)
