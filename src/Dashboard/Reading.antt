-- ===== src/Dashboard/Reading.antt =====
-- Requests that only read, over the Redis broker.
use mini_sidekiq.Prelude.{
  String, ◌≡◌, refl, ◌∙◌, ap, List, ◌∷◌, Option, none, some, ℤ, Bool, true, false,
}
use mini_sidekiq.Exec.{Exec, Result, ok, err}
use mini_sidekiq.Job.{Job}
use mini_sidekiq.Redis.{Redis}
use mini_sidekiq.Broker.Codec.{Codec}
use mini_sidekiq.Broker.Network.{World}
use mini_sidekiq.Broker.Stats.{StatsMap}
use mini_sidekiq.Broker.RedisBroker.{get_job}
use mini_sidekiq.Broker.Listing.{get_jobs_by_status}
use mini_sidekiq.Broker.Counting.{get_queue_stats}
use mini_sidekiq.Broker.Interface.{AdminBroker, redis_admin}
use mini_sidekiq.Dashboard.Routes.{Method, get, head, post, delete, other as other_method, route}
use mini_sidekiq.Dashboard.Routes.Table.{
  Resource, read, all_queues, all_jobs, all_metrics, unknown, job, retry_of, resource, route-answer,
}
use mini_sidekiq.Dashboard.{
  Request, handle_get_queues, handle_list_jobs, handle_get_job, asked_status, asked_limit,
  serve_http,
}
use mini_sidekiq.Broker.Reading.{get_job-Leaves, get_jobs_by_status-Leaves, get_queue_stats-Leaves}

abbrev pub is_read : Method → Bool
is_read get = true
is_read head = true
is_read _ = false

module _ (c : Codec) (r : Redis c.Data) (scan : String → Exec r.Db (List String))
    (scan_reads : (p : String) (db : r.Db) → (scan p db).1 ≡ db) (atoi : String → Option ℤ)
    (ui : Option String) (exposed : String) where
  open r use {Db}

  abbrev admin : AdminBroker
  admin = redis_admin c r scan

  -- The store is what the method of the broker leaves.
  stats-next :
      (result : Result StatsMap) (world next : World Db)
      → get_queue_stats c r scan world ≡ (result, next)
      → (handle_get_queues admin world).1.db ≡ next.db
  unfolding handle_get_queues
  stats-next (ok l) world next e = rw (handle_get_queues, e) (ap (λ x. x.1.db) e)
  stats-next (err x) world next e = rw (handle_get_queues, e) (ap (λ x. x.1.db) e)

  list-next :
      (status limit : String) (result : Result (List Job)) (world next : World Db)
      → get_jobs_by_status c r scan (asked_status status) (asked_limit atoi limit) world
        ≡ (result, next)
      → (handle_list_jobs admin atoi status limit world).1.db ≡ next.db
  unfolding handle_list_jobs
  list-next status limit (ok l) world next e = rw (handle_list_jobs, e) (ap (λ x. x.1.db) e)
  list-next status limit (err x) world next e = rw (handle_list_jobs, e) (ap (λ x. x.1.db) e)

  job-next :
      (id : String) (result : Result (Option Job)) (world next : World Db)
      → get_job c r id world ≡ (result, next)
      → (handle_get_job admin id world).1.db ≡ next.db
  unfolding handle_get_job
  job-next id (ok none) world next e = rw (handle_get_job, e) (ap (λ x. x.1.db) e)
  job-next id (ok (some j)) world next e = rw (handle_get_job, e) (ap (λ x. x.1.db) e)
  job-next id (err x) world next e = rw (handle_get_job, e) (ap (λ x. x.1.db) e)

  read-same :
      (q : Request) (found : Resource) (world : World Db)
      → route q.method q.path ≡ read found
      → (serve_http admin atoi ui exposed q world).1.db ≡ world.db
  unfolding serve_http
  read-same q all_queues world e =
      rw (serve_http, e)
        (stats-next _ world _ refl ∙ (get_queue_stats-Leaves c r scan scan_reads).leaves world)
  read-same q unknown world e = rw (serve_http, e) refl
  read-same q all_metrics world e = rw (serve_http, e) refl
  read-same q (retry_of id) world e = rw (serve_http, e) refl
  read-same q all_jobs world e =
      rw (serve_http, e)
        (list-next q.status q.limit _ world _ refl
          ∙ (get_jobs_by_status-Leaves c r scan scan_reads (asked_status q.status)
                (asked_limit atoi q.limit)).leaves
              world)
  read-same q (job id) world e =
      rw (serve_http, e) (job-next id _ world _ refl ∙ (get_job-Leaves c r id).leaves world)

  read-route :
      (m : Method) (s : String) (path : List String)
      → is_read m ≡ true
      → route m (s ∷ path) ≡ read (resource (s ∷ path))
  read-route get s path h = route-answer get s path
  read-route head s path h = route-answer head s path
  read-route post s path h = absurd (cc h)
  read-route delete s path h = absurd (cc h)
  read-route (other_method m) s path h = absurd (cc h)

  -- A GET or a HEAD request to the dashboard over Redis, whatever its path and its parameters are and
  -- whatever the network does, leaves the store as it is.
  pub serve_http-reads :
      (q : Request) (s : String) (path : List String) (world : World Db)
      → is_read q.method ≡ true
      → q.path ≡ s ∷ path
      → (serve_http admin atoi ui exposed q world).1.db ≡ world.db
  serve_http-reads q s path world h e =
      read-same q (resource (s ∷ path)) world (ap (route q.method) e ∙ read-route q.method s path h)
