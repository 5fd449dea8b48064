-- ===== src/Tests/Counting.antt =====
-- The theorem on GetQueueStats of the Redis broker, at a store with one running job.
use mini_sidekiq.Prelude.{String, ◌≡◌, ◌≢◌, refl, ◌∙◌, [], List, ==-false_of_ne}
use mini_sidekiq.Exec.{Exec, ok}
use mini_sidekiq.Redis.Values.{missing, members, insert_scored, erase_scored}
use mini_sidekiq.Broker.Keys.{
  Place, in_queue, in_retry, in_dead, in_active, place_key, place_key-injective, job_key,
  job_key-ne-place_key, active_key,
}
use mini_sidekiq.Broker.Stats.{StatsMap, entry}
use mini_sidekiq.Broker.Counting.{get_queue_stats}
use mini_sidekiq.Broker.Counting.Phases.{calm}
use mini_sidekiq.Broker.Counting.Depths.{numbers, get_queue_stats-numbers}
use mini_sidekiq.Tests.Fixtures.{
  plain, server, mail, recorded_db, running_db, running, running-Tracks,
}

abbrev no_keys : String → Exec server.Db (List String)
no_keys pattern db = (ok [], db)

-- Only the shared set of running jobs exists.
value-missing : (p : Place) → in_active ≢ p → server.value running_db (place_key p) ≡ missing
value-missing p h =
    server.value-zadd active_key 30 "a1" recorded_db (place_key p)
    ∙ rw (==-false_of_ne active_key (place_key p) (λ e. h (place_key-injective in_active p e))) (
        server.value-set (job_key "a1") mail [] (place_key p)
        ∙ rw (==-false_of_ne (job_key "a1") (place_key p) (job_key-ne-place_key "a1" p)) refl)

get_queue_stats-numbers_example :
    (stats : StatsMap) × (get_queue_stats plain server no_keys (calm plain server running_db)
      ≡ (ok stats, calm plain server running_db))
    × ((q : String)
        → entry q stats ≡ numbers plain server no_keys running_db running running-Tracks q)
get_queue_stats-numbers_example =
    get_queue_stats-numbers plain server no_keys running_db running running-Tracks
      (record { queues = []; found = refl; complete = λ q o. value-missing (in_queue q) (λ e. cc) })
      (record { queues = []; found = refl; complete = λ q o. value-missing (in_retry q) (λ e. cc) })
      (record { queues = []; found = refl; complete = λ q o. value-missing (in_dead q) (λ e. cc) })

-- The running job counts for its own queue.
one_active : (numbers plain server no_keys running_db running running-Tracks "critical").active ≡ 1
unfolding active_key job_key members insert_scored erase_scored
one_active = refl
