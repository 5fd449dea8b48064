-- ===== src/System/Delivery.antt =====
-- The way of one job: a client enqueues it, the dispatcher fetches it and a worker runs it, without
-- network faults.
use mini_sidekiq.Prelude.{
  ℕ, String, ◌≡◌, refl, ap, subst, inl, inr, List, [], ◌∷◌, Option, none, some, true,
  ==-false_of_ne, eq_refl,
}
use mini_sidekiq.Exec.{Result, ok}
use mini_sidekiq.Job.{Job, new_job}
use mini_sidekiq.Redis.{Redis}
use mini_sidekiq.Broker.Codec.{Codec}
use mini_sidekiq.Broker.Network.{calm, World}
use mini_sidekiq.Broker.Keys.{in_queue, in_active}
use mini_sidekiq.Broker.Tracking.{Placement, Tracks, put}
use mini_sidekiq.Broker.Tracking.Deliver.{entry}
use mini_sidekiq.Broker.RedisBroker.{unix, enqueue, dequeue}
use mini_sidekiq.Broker.RedisBroker.Atomic.{AllOrNothing, enqueue_atomic}
use mini_sidekiq.Broker.RedisBroker.Dequeue.{
  Dequeued, empty, handed, failed, stranded, Takes, dequeue-Dequeued,
}
use mini_sidekiq.Broker.RedisBroker.Line.{Holds, Fits, put_job, take_job}
use mini_sidekiq.Broker.Interface.{redis_broker}
use mini_sidekiq.Client.{EnqueueOptions, Inputs}
use mini_sidekiq.Client as Client
use mini_sidekiq.Client.Enqueuing.{intended}
use mini_sidekiq.Dispatcher.{Turn, started, again, turn_at}
use mini_sidekiq.Worker.Middleware.{Context, Process}
use mini_sidekiq.Worker.Pool.{Pool, process}
use mini_sidekiq.Worker.Settling.{Encodable, after, decision, process-Settles}
use mini_sidekiq.Worker.Quiet.{process-silent, settled}

abbrev handed_id : Result (Option Job) → String
handed_id (ok (some job)) = job.id
handed_id _ = ""

-- A job that was handed out was taken.
Dequeued-Takes :
    (c : Codec) (r : Redis c.Data) (w : Placement) (queues : List String)
    (result : Result (Option Job)) (db : r.Db) (job : Job)
    → Dequeued c r w queues result db
    → result ≡ ok (some job)
    → Takes c r w queues job.id db
Dequeued-Takes c r w queues _ db job (empty h t) e = absurd (cc e)
Dequeued-Takes c r w queues _ db job (failed t) e = absurd (cc e)
Dequeued-Takes c r w queues _ db job (stranded id k) e = absurd (cc e)
Dequeued-Takes c r w queues _ db job (handed job' k) e =
    subst (λ x. Takes c r w queues x db) (ap handed_id e) k

-- A method that succeeded has run.
succeeded :
    (c : Codec) (r : Redis c.Data) (before later : Placement) (x : Result (Unit {0}) × World r.Db)
    → AllOrNothing c r before later x
    → x.0 ≡ ok tt
    → Tracks c r x.1.db later
succeeded c r before later x (inl (e, t)) h = t
succeeded c r before later x (inr (e, t)) h = absurd (cc (e, h))

module _ (c : Codec) (r : Redis c.Data) (q : String) where
  open r use {Db}

  -- A due job enters its queue.
  enters :
      (now : ℕ) (job : Job) (db : Db) (w : Placement)
      → Tracks c r db w
      → Holds c r q db []
      → Fits c r q now job []
      → w job.id ≡ none
      → (db' : Db) × (enqueue c r now job (calm db) ≡ (ok tt, calm db'))
        × Holds c r q db' (job ∷ [])
        × Tracks c r db' (put job.id (in_queue q) w)
  enters now job db w t h (own, due, named, fresh, (d, m)) new =
      let (db', e, h') = put_job c r q now job db [] h (own, due, named, fresh, (d, m)) in
      let t' =
        succeeded c r w _ (enqueue c r now job (calm db))
          (enqueue_atomic c r (calm db) w t job now d new m) (ap (λ x. x.0) e) in
      let at_queue : entry (unix job.process_at) (unix now) job ≡ in_queue q = rw (due, own) refl in
      (
        db',
        e,
        h',
        subst (λ p. Tracks c r db' (put job.id p w)) at_queue
            (subst
              (λ x. Tracks c r x.1.db (put job.id (entry (unix job.process_at) (unix now) job) w)) e
              t'),
      )

  -- It leaves it for a dispatcher.
  leaves :
      (now : ℕ) (job : Job) (db : Db) (w : Placement)
      → Tracks c r db w
      → Holds c r q db (job ∷ [])
      → w "" ≡ none
      → (db' : Db) × (dequeue c r now (q ∷ []) (calm db) ≡ (ok (some job), calm db'))
        × Tracks c r db' (put job.id in_active w)
  leaves now job db w t h unnamed =
      let (db', e, h') = take_job c r q now db (job ∷ []) h in
      let k =
        Dequeued-Takes c r w (q ∷ []) _ _ job
          (dequeue-Dequeued c r w (q ∷ []) now (calm db) t unnamed) (ap (λ x. x.0) e) in
      (db', e, subst (λ x. Tracks c r x.1.db (put job.id in_active w)) e k.tracks)

module _ (c : Codec) (r : Redis c.Data) {Env : Type 0} (quoted : String → String) (pool : Pool Env)
    (q : String) where
  open r use {Db}

  -- Without network faults, and if nobody else comes between: a job that Client.Enqueue is given for
  -- an empty queue, and that is due and can be encoded, is what the dispatcher's next turn at that
  -- queue submits, and after a worker has run it, the job stands where the outcome wants it, with
  -- nothing else moved and no failure logged. The pool accepts the job, the handler leaves its id as
  -- it is, and the record that the worker writes can be encoded.
  pub enqueue-delivered :
      (x : Inputs) (payload job_type : String) (opts : List EnqueueOptions) (turn : Turn) (draw : ℕ)
      (ctx : Context) (p : Process Env) (db : Db) (w : Placement)
      → Tracks c r db w
      → Holds c r q db []
      → w "" ≡ none
      → x.payload ≡ some payload
      → Fits c r q x.sent (intended x payload job_type opts) []
      → w (intended x payload job_type opts).id ≡ none
      → turn.accepted ≡ true
      → (decision pool ctx (intended x payload job_type opts) p).1.id
        ≡ (intended x payload job_type opts).id
      → Encodable c (decision pool ctx (intended x payload job_type opts) p).1
      → let job = intended x payload job_type opts in
        let (v, j, p') = decision pool ctx job p in
        let (queued, world₁) = Client.enqueue (redis_broker c r) x job_type opts (calm db) in
        let (fetched, world₂) = turn_at (redis_broker c r) turn q started world₁ in
        let (p'', world₃) = process (redis_broker c r) quoted pool draw ctx job p world₂ in
        (queued ≡ ok job)
        × (fetched.0 ≡ again)
        × (fetched.1.submitted ≡ job ∷ [])
        × (p'' ≡ p')
        × Tracks c r world₃.db (after v j (put job.id in_active (put job.id (in_queue q) w)))
  unfolding Client.enqueue new_job turn_at
  enqueue-delivered x payload job_type opts turn draw ctx p db w t h unnamed loaded fits new
        accepted own codes =
      let job = intended x payload job_type opts in
      let (db₁, e₁, h₁, t₁) = enters c r q x.sent job db w t h fits new in
      let w₁ = put job.id (in_queue q) w in
      let unnamed₁ : w₁ "" ≡ none = rw (==-false_of_ne job.id "" fits.2, unnamed) refl in
      let (db₂, e₂, t₂) = leaves c r q turn.now job db₁ w₁ t₁ h₁ unnamed₁ in
      let w₂ = put job.id in_active w₁ in
      let here : w₂ (decision pool ctx job p).1.id ≡ some in_active =
        rw (own, eq_refl job.id) refl in
      let silent = process-silent c r db₂ w₂ t₂ quoted pool draw ctx job p here codes in
      let t₃ =
        settled c r w₂ _ _ _ (process (redis_broker c r) quoted pool draw ctx job p (calm db₂))
          (process-Settles c r (calm db₂) w₂ t₂ quoted pool draw ctx job p here codes) silent in
      rw (loaded, e₁, e₂, accepted) (refl, refl, refl, silent, t₃)
