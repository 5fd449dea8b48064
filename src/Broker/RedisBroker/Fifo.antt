-- ===== src/Broker/RedisBroker/Fifo.antt =====
-- The order in which jobs go through one queue, without network faults.
use mini_sidekiq.Prelude.{ℕ, String, ◌≡◌, refl, ap, List, [], ◌∷◌, ◌++◌, Option, none}
use mini_sidekiq.Exec.{Exec, Result, ok}
use mini_sidekiq.Job.{Job}
use mini_sidekiq.Redis.{Redis, reply}
use mini_sidekiq.Broker.Codec.{Codec}
use mini_sidekiq.Broker.Network.{calm, World}
use mini_sidekiq.Broker.RedisBroker.{enqueue, dequeue}
use mini_sidekiq.Broker.RedisBroker.Line.{oldest, younger, Holds, Fits, put_job, take_job}

-- What a client asks of one queue, with the time of the call.
pub data Op : Type 0 where
  puts : ℕ → Job → Op
  gets : ℕ → Op

-- The queue that the calls are to implement.
unfoldable pub run_queue : List Job → List Op → List (Result (Option Job))
run_queue jobs [] = []
run_queue jobs (puts now job ∷ ops) = ok none ∷ run_queue (jobs ++ (job ∷ [])) ops
run_queue jobs (gets now ∷ ops) = ok (oldest jobs) ∷ run_queue (younger jobs) ops

module _ (c : Codec) (r : Redis c.Data) (q : String) where
  open r use {Db}

  -- Each job of the calls can be put when its turn comes.
  abbrev pub Admits : List Job → List Op → Type 0
  Admits jobs [] = Unit {0}
  Admits jobs (puts now job ∷ ops) = Fits c r q now job jobs × Admits (jobs ++ (job ∷ [])) ops
  Admits jobs (gets now ∷ ops) = Admits (younger jobs) ops

  -- The calls.
  abbrev pub call : Op → Exec (World Db) (Option Job)
  call (puts now job) world =
      let (done, next) = enqueue c r now job world in (reply (λ u. none) done, next)
  call (gets now) world = dequeue c r now (q ∷ []) world

  unfoldable pub run_redis : List Op → World Db → List (Result (Option Job))
  run_redis [] world = []
  run_redis (op ∷ ops) world = let (result, next) = call op world in result ∷ run_redis ops next

  -- Enqueue and Dequeue on one queue, without network faults, when nobody else uses it, the jobs are
  -- due and can be encoded, and no two jobs that wait have the same id: every call succeeds, and the
  -- jobs come out in the order in which they went in.
  pub run_redis-run_queue :
      (ops : List Op) (db : Db) (jobs : List Job)
      → Holds c r q db jobs
      → Admits jobs ops
      → run_redis ops (calm db) ≡ run_queue jobs ops
  unfolding run_redis run_queue
  run_redis-run_queue [] db jobs h a = refl
  run_redis-run_queue (puts now job ∷ ops) db jobs h (fits, a) =
      let (db', e, h') = put_job c r q now job db jobs h fits in
      rw (run_redis, e) (ap (◌∷◌ (ok none)) (run_redis-run_queue ops db' (jobs ++ (job ∷ [])) h' a))
  run_redis-run_queue (gets now ∷ ops) db jobs h a =
      let (db', e, h') = take_job c r q now db jobs h in
      rw (run_redis, e)
        (ap (◌∷◌ (ok (oldest jobs))) (run_redis-run_queue ops db' (younger jobs) h' a))
