-- ===== src/Tests/Broker.antt =====
-- The theorems on the Redis broker, at concrete jobs.
use mini_sidekiq.Prelude.{◌≡◌, ◌<◌, ◌⊎◌, refl, arith, ◌∷◌, []}
use mini_sidekiq.Exec.{err, network, not_dead}
use mini_sidekiq.Redis.{
  call_set, call_get, call_lpush, call_zadd, call_zrem, call_lrem_all, call_del,
}
use mini_sidekiq.Redis.Values.{list, missing, insert_scored, erase_scored, members, erase_all}
use mini_sidekiq.Broker.Network.{send}
use mini_sidekiq.Broker.Keys.{
  Place, in_queue, in_active, queue_key, retry_key, active_key, job_key, scheduled_key,
}
use mini_sidekiq.Broker.Lifecycle.{
  Reachable, fresh, step, enqueues, pops, Leads, Reachable-once, Request-keeps,
}
use mini_sidekiq.Broker.RedisBroker.{enqueue, retry_dead_job}
use mini_sidekiq.Broker.RedisBroker.Atomic.{AllOrNothing, enqueue_atomic}
use mini_sidekiq.Broker.RedisBroker.Ending.{retry_dead_refused}
use mini_sidekiq.Broker.Shapes.{occ}
use mini_sidekiq.Broker.Tracking.{Tracks, Stored, put}
use mini_sidekiq.Broker.Scripts.{rpop_zadd, set_zadd_zrem, promote_job, set_branch_lpush_zadd}
use mini_sidekiq.Tests.Fixtures.{
  plain, server, nowhere, empty-Tracks, idle, mail, running_db, running, running-Tracks, world_of,
}

enqueue_atomic_example :
    AllOrNothing plain server nowhere
      (put "a1" (in_queue "critical") nowhere)
      (enqueue plain server 2000 mail idle)
enqueue_atomic_example =
    enqueue_atomic plain server idle nowhere empty-Tracks mail 2000 mail refl refl

retry_dead_refused_example :
    let (result, next) = retry_dead_job plain server 5 "a1" (world_of running_db) in
    ((result ≡ err not_dead) ⊎ (result ≡ err network)) × Tracks plain server next.db running
retry_dead_refused_example =
    retry_dead_refused plain server (world_of running_db) running running-Tracks 5 "a1" in_active
      refl (λ q e. cc) _ refl

abbrev queued_db : server.Db
queued_db =
    (set_branch_lpush_zadd plain server (job_key "a1") (queue_key "critical") scheduled_key mail 0 2
      "a1" []).1

queued-Reachable : Reachable plain server queued_db
unfolding occ
queued-Reachable = step (fresh (λ k. refl)) (enqueues mail mail 0 2 (λ p. refl) refl)

queued-occ : 0 < occ server queued_db "a1" (in_queue "critical")
unfolding occ set_branch_lpush_zadd call_set call_lpush job_key queue_key
queued-occ = omega arith

Reachable-once_example :
    (occ server queued_db "a1" (in_queue "critical") ≡ 1)
    × ((q : Place) → 0 < occ server queued_db "a1" q → q ≡ in_queue "critical")
    × Stored plain (server.value queued_db (job_key "a1")) "a1" (in_queue "critical")
Reachable-once_example =
    Reachable-once plain server "a1" (in_queue "critical") queued-Reachable queued-occ

Request-keeps_example :
    let db' = (rpop_zadd plain server (queue_key "critical") active_key 30 queued_db).1 in
    (q : Place) × (0 < occ server db' "a1" q)
    × ((q ≡ in_queue "critical") ⊎ Leads (in_queue "critical") q)
Request-keeps_example =
    Request-keeps plain server "a1" (in_queue "critical") (pops "critical" 30) queued-Reachable
      queued-occ (λ e. cc)

-- A second Enqueue of the same job puts its id in the queue a second time.
enqueued_twice :
    let again = enqueue plain server 2000 mail (enqueue plain server 2000 mail idle).1 in
    server.value again.1.db (queue_key "critical") ≡ list ("a1" ∷ "a1" ∷ [])
unfolding enqueue send set_branch_lpush_zadd call_set call_lpush job_key queue_key
enqueued_twice = refl

-- A promotion in the middle of DeleteJob puts the id into the queue that was cleared already.
abbrev waiting_db : server.Db
waiting_db =
    (set_zadd_zrem plain server (job_key "a1") (retry_key "critical") active_key mail 0 "a1" []).1

abbrev promoted_db : server.Db
promoted_db =
    (promote_job plain server (retry_key "critical") (job_key "a1") "a1"
      (call_lrem_all server (queue_key "critical") "a1" waiting_db).1).1

deleted_while_promoted :
    let later = (call_zrem server (retry_key "critical") "a1" promoted_db).1 in
    let end = (call_del server (job_key "a1") later).1 in
    (server.value end (queue_key "critical") ≡ list ("a1" ∷ []))
    × (server.value end (job_key "a1") ≡ missing)
unfolding set_zadd_zrem promote_job call_set call_lpush call_zadd call_zrem call_lrem_all call_del
    call_get job_key queue_key retry_key active_key insert_scored erase_scored members erase_all
deleted_while_promoted = (refl, refl)
