-- ===== src/Tests/Listing.antt =====
-- The theorems on GetJobsByStatus and on the API, at a store with one dead job and at one with a job to retry.
use mini_sidekiq.Prelude.{
  ◌≡◌, refl, String, List, [], ◌∷◌, ◌==◌, if◌then◌else◌, arith, Option, none, ℤ,
}
use mini_sidekiq.Exec.{Exec, ok, err, wrong_type}
use mini_sidekiq.Job.{pending, dead, retry}
use mini_sidekiq.Redis.Values.{insert_scored, erase_scored}
use mini_sidekiq.Broker.Keys.{in_queue, in_dead, in_active, dead_key, retry_key}
use mini_sidekiq.Broker.Tracking.{Placement, put, forget}
use mini_sidekiq.Broker.Listing.{get_jobs_by_status}
use mini_sidekiq.Broker.Listing.Sound.{Reads, Loaded}
use mini_sidekiq.Broker.Listing.ByStatus.{
  IsPlaceOf, get_jobs_by_status-Reads, get_jobs_by_status-retry_fails,
}
use mini_sidekiq.Dashboard.{handle_retry_job, handle_delete_job}
use mini_sidekiq.Dashboard.Replies.{Replies, handle_delete_job-Replies, handle_retry_job-Replies}
use mini_sidekiq.Broker.Interface.{redis_admin}
use mini_sidekiq.Tests.Fixtures.{
  plain, server, running_db, running, running-Tracks, buried, world_of,
}

abbrev scan : String → Exec server.Db (List String)
scan pattern db = (
  ok (
      if pattern == "sidekiq:dead:*"
      then dead_key "critical" ∷ []
      else if pattern == "sidekiq:retry:*"
      then retry_key "critical" ∷ []
      else []),
  db,
)

abbrev after_burial : Placement
after_burial = put "a1" (in_dead "critical") running

get_jobs_by_status-Reads_example :
    Reads plain server after_burial
      (IsPlaceOf pending)
      (Loaded plain server after_burial (IsPlaceOf pending) 50)
      (world_of buried.0)
      (get_jobs_by_status plain server scan pending 50 (world_of buried.0))
    × Reads plain server after_burial
        (IsPlaceOf dead)
        (Loaded plain server after_burial (IsPlaceOf dead) 50)
        (world_of buried.0)
        (get_jobs_by_status plain server scan dead 50 (world_of buried.0))
get_jobs_by_status-Reads_example =
    get_jobs_by_status-Reads plain server scan after_burial (world_of buried.0) buried.2 50
      (record { keys = []; found = refl; kinds = tt })
      (record {
        keys = dead_key "critical" ∷ [];
        found = refl;
        kinds = ((in_dead "critical", refl, tt, tt), tt);
      })

abbrev waiting_db : server.Db
waiting_db = server.zadd (retry_key "critical") 60 "a1" []

get_jobs_by_status-retry_fails_example :
    (get_jobs_by_status plain server scan retry 50 (world_of waiting_db)).0 ≡ err wrong_type
unfolding insert_scored erase_scored retry_key
get_jobs_by_status-retry_fails_example =
    get_jobs_by_status-retry_fails plain server scan 50 waiting_db "critical" [] _ _ (omega arith)
      refl refl

abbrev no_number : String → Option ℤ
no_number raw = none

handle_delete_job-Replies_example :
    Replies plain server 204 500 running
      (forget "a1" running)
      (handle_delete_job (redis_admin plain server scan) "a1" (world_of running_db))
handle_delete_job-Replies_example =
    handle_delete_job-Replies plain server scan (world_of running_db) running running-Tracks "a1"
      in_active refl

handle_retry_job-Replies_example :
    Replies plain server 200 400 after_burial
      (put "a1" (in_queue "critical") after_burial)
      (handle_retry_job (redis_admin plain server scan) 5 "a1" (world_of buried.0))
handle_retry_job-Replies_example =
    handle_retry_job-Replies plain server scan (world_of buried.0) after_burial buried.2 5 "a1"
      "critical" refl _ refl
