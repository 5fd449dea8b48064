-- ===== src/Broker/RedisBroker/Dequeue.antt =====
-- Dequeue: the loop over the queues, and the record that it reads back.
use mini_sidekiq.Prelude.{
  occurs, ℕ, String, ◌+◌, ◌*◌, ◌≡◌, ◌≢◌, ap, sym, subst, ◌⊎◌, inl, inr, Option, some, none, List,
  [], ◌∷◌, arith, eq_iff, eq_refl, ◌==◌, true, ==-false_of_ne, Bool-cases,
}
use mini_sidekiq.Exec.{Result, continue, ok, err, network}
use mini_sidekiq.Job.{Job}
use mini_sidekiq.Redis.{Redis, call_get}
use mini_sidekiq.Broker.Codec.{Codec}
use mini_sidekiq.Broker.Network.{World, Fault, send_cases, later_faults}
use mini_sidekiq.Broker.Keys.{Place, in_queue, in_active, job_key, active_key, queue_key}
use mini_sidekiq.Broker.Scripts.{rpop_zadd}
use mini_sidekiq.Broker.Tracking.{Placement, Tracks, put}
use mini_sidekiq.Broker.Tracking.Records.{stored_at}
use mini_sidekiq.Broker.Tracking.Deliver.{dequeue_script}
use mini_sidekiq.Broker.RedisBroker.{unix, second, pop_first, fetch, hand_out, dequeue}

module _ (c : Codec) (r : Redis c.Data) (w : Placement) where
  open r use {Db, value}

  -- A job of one of the queues is running from now on.
  pub record Takes (queues : List String) (id : String) (db : Db) : Type 0 where
    pub from : String
    pub polled : occurs from queues ≡ true
    pub waited : w id ≡ some (in_queue from)
    pub tracks : Tracks c r db (put id in_active w)

  -- How `pop_first` may end.
  data Pops (queues : List String) : Result String → Db → Type 0 where
    none_left :
        {db : Db}
        → ((q id : String) → occurs q queues ≡ true → w id ≢ some (in_queue q))
        → Tracks c r db w
        → Pops queues (ok "") db
    popped : {db : Db} (id : String) → Takes queues id db → Pops queues (ok id) db
    lost : {db : Db} → Tracks c r db w → Pops queues (err network) db
    lost_popped : {db : Db} (id : String) → Takes queues id db → Pops queues (err network) db

  Takes-later :
      {queue id : String} {queues : List String} {db : Db}
      → Takes queues id db
      → Takes (queue ∷ queues) id db
  Takes-later {queue} {id} {queues} k = record {
    from = k.from;
    polled = ground (arith, k.polled);
    waited = k.waited;
    tracks = k.tracks;
  }

  Pops-later :
      {queue : String} {queues : List String} {result : Result String} {db : Db}
      → ((id : String) → w id ≢ some (in_queue queue))
      → Pops queues result db
      → Pops (queue ∷ queues) result db
  Pops-later {queue} {queues} empty (none_left h t) =
      none_left
        (λ q id p. elim (Bool-cases (queue == q)) [
          | inl e ↦ subst (λ x. w id ≢ some (in_queue x)) ((eq_iff queue q).0 e) (empty id)
          | inr e ↦ h q id (ground (arith, p, e))
        ])
        t
  Pops-later empty (popped id k) = popped id (Takes-later k)
  Pops-later empty (lost t) = lost t
  Pops-later empty (lost_popped id k) = lost_popped id (Takes-later k)

  pop_first-Pops :
      (now : ℕ) (queues : List String) (world : World Db)
      → Tracks c r world.db w
      → let (result, next) = pop_first c r now queues world in Pops queues result next.db
  unfolding pop_first
  pop_first-Pops now [] world t = none_left (λ q id p. cc) t
  pop_first-Pops now (queue ∷ queues) world t =
      elim (dequeue_script c r world.db w t queue (unix (now + 30 * second))) [
        | inl (db', e, empty, t') ↦
            elim (send_cases (rpop_zadd c r (queue_key queue) active_key (unix (now + 30 * second)))
              world none db' e) [
                | inl s ↦ rw s (Pops-later empty (pop_first-Pops now queues _ t'))
                | inr (inl s) ↦ rw s (lost t)
                | inr (inr s) ↦ rw s (lost t')
              ]
        | inr (id, db', e, waited, t') ↦
            let taken : Takes (queue ∷ queues) id db' = record {
              from = queue;
              polled = rw (eq_refl queue);
              waited = waited;
              tracks = t';
            } in
            elim (send_cases (rpop_zadd c r (queue_key queue) active_key (unix (now + 30 * second)))
              world (some id) db' e) [
                | inl s ↦ rw s (popped id taken)
                | inr (inl s) ↦ rw s (lost t)
                | inr (inr s) ↦ rw s (lost_popped id taken)
              ]
      ]

  -- The record of a job that stands somewhere is read back, unless the request fails.
  fetch_cases :
      (id : String) (p : Place) (world : World Db) (t : Tracks c r world.db w)
      → (here : w id ≡ some p)
      → (fetch c r id world ≡ (
        ok (stored_at c r world.db w id p t here).job,
        record { db = world.db; faults = later_faults world.faults },
      ))
        ⊎ (fetch c r id world
            ≡ (err network, record { db = world.db; faults = later_faults world.faults }))
  unfolding fetch call_get
  fetch_cases id p world t here =
      let s = stored_at c r world.db w id p t here in
      elim (send_cases (call_get r (job_key id)) world (some s.stored) world.db (rw s.holds)) [
        | inl e ↦ inl (rw (e, s.decodes))
        | inr (inl e) ↦ inr (rw e)
        | inr (inr e) ↦ inr (rw e)
      ]

module _ (c : Codec) (r : Redis c.Data) (w : Placement) (queues : List String) where
  open r use {Db, value}

  -- How Dequeue may end: with none, and none of the queues has a job; with a job of a polled queue,
  -- now running; with a network error, and nothing taken or one job running that nobody was handed.
  pub data Dequeued : Result (Option Job) → Db → Type 0 where
    empty :
        {db : Db}
        → ((q id : String) → occurs q queues ≡ true → w id ≢ some (in_queue q))
        → Tracks c r db w
        → Dequeued (ok none) db
    handed : {db : Db} (job : Job) → Takes c r w queues job.id db → Dequeued (ok (some job)) db
    failed : {db : Db} → Tracks c r db w → Dequeued (err network) db
    stranded : {db : Db} (id : String) → Takes c r w queues id db → Dequeued (err network) db

  handed_own :
      {db : Db} (id : String) (job : Job)
      → job.id ≡ id
      → Takes c r w queues id db
      → Dequeued (ok (some job)) db
  handed_own {db} id job own k = handed job (subst (λ x. Takes c r w queues x db) (sym own) k)

  hand_out-Dequeued :
      (id : String) (world : World Db)
      → w "" ≡ none
      → Takes c r w queues id world.db
      → let (result, next) = hand_out c r id world in Dequeued result next.db
  unfolding hand_out
  hand_out-Dequeued id world named k =
      let nonempty : id ≢ "" = λ e. ground (arith, k.waited, named, ap w e) in
      let s = stored_at c r world.db (put id in_active w) id in_active k.tracks (rw (eq_refl id)) in
      rw (==-false_of_ne id "" nonempty)
        (elim (fetch_cases c r (put id in_active w) id in_active world k.tracks (rw (eq_refl id))) [
          | inl e ↦ rw e (handed_own id s.job s.own_id k)
          | inr e ↦ rw e (stranded id k)
        ])

  Pops-Dequeued :
      (result : Result String) (db : Db) (faults : List Fault)
      → w "" ≡ none
      → Pops c r w queues result db
      → let (result', next) =
          continue result (hand_out c r) (record { db = db; faults = faults }) in
        Dequeued result' next.db
  unfolding hand_out
  Pops-Dequeued _ db faults named (none_left h t) = empty h t
  Pops-Dequeued _ db faults named (popped id k) =
      hand_out-Dequeued id (record { db = db; faults = faults }) named k
  Pops-Dequeued _ db faults named (lost t) = failed t
  Pops-Dequeued _ db faults named (lost_popped id k) = stranded id k

  pub dequeue-Dequeued :
      (now : ℕ) (world : World Db)
      → Tracks c r world.db w
      → w "" ≡ none
      → let (result, next) = dequeue c r now queues world in Dequeued result next.db
  unfolding dequeue
  dequeue-Dequeued now world t named =
      let (result, next) = pop_first c r now queues world in
      Pops-Dequeued result next.db next.faults named (pop_first-Pops c r w now queues world t)
