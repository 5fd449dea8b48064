-- ===== src/Dashboard.antt =====
-- internal/dashboard: the API's handlers, each a request to the broker and a response, and ServeHTTP.
pub mod Routes
pub mod Replies
pub mod Reading
use mini_sidekiq.Prelude.{
  ℕ, zero, suc, String, List, [], ◌∷◌, Option, none, some, ℤ, pos, negsuc, ◌==◌, if◌then◌else◌,
}
use mini_sidekiq.Exec.{Exec, Error, Result, ok, err, not_found}
use mini_sidekiq.Dashboard.Routes.{
  Method, Endpoint, get_queues, list_jobs, get_job, retry_job, delete_job, metrics, index, handled,
  refused, unmatched, route,
}
use mini_sidekiq.Job.{Job, JobStatus, pending, active, retry, dead, completed, other}
use mini_sidekiq.Broker.Stats.{StatsMap}
use mini_sidekiq.Broker.Interface.{AdminBroker}

-- What the body shows, before it is encoded.
pub data Body : Type 0 where
  error : Error → Body
  job_not_found retried no_content page_not_found method_not_allowed : Body
  one_job : Job → Body
  jobs : List Job → Body
  queues : StatsMap → Body
  exposition page : String → Body

pub record Response : Type 0 where
  pub code : ℕ
  pub body : Body

abbrev pub respond : ℕ → Body → Response
respond code body = record { code = code; body = body }

-- `sidekiq.JobStatus(status)`
abbrev pub status_of : String → JobStatus
status_of s =
    if s == "pending"
    then pending
    else if s == "active"
    then active
    else if s == "retry"
    then retry
    else if s == "dead"
    then dead
    else if s == "completed"
    then completed
    else other s

abbrev pub positive_or : ℕ → Option ℤ → ℕ
positive_or n none = n
positive_or n (some (pos zero)) = n
positive_or n (some (pos (suc m))) = suc m
positive_or n (some (negsuc m)) = n

-- The parameters of the query, which are empty if they are missing; `atoi` is `strconv.Atoi`.
abbrev pub asked_status : String → JobStatus
asked_status s = if s == "" then pending else status_of s

abbrev pub asked_limit : (String → Option ℤ) → String → ℕ
asked_limit atoi raw = if raw == "" then 50 else positive_or 50 (atoi raw)

-- What a request asks for: the path between its slashes, the two parameters of the query, and the time
-- at which it is served.
pub record Request : Type 0 where
  pub method : Method
  pub path : List String
  pub status : String
  pub limit : String
  pub now : ℕ

-- `r.PathValue("id")`
abbrev pub path_value : List String → String
path_value [] = ""
path_value (id ∷ values) = id

-- `ui` is the embedded page, if it can be read.
abbrev pub handle_index : Option String → Response
handle_index none = respond 500 (error not_found)
handle_index (some html) = respond 200 (page html)

module _ (b : AdminBroker) where
  open b use {calls, get_jobs_by_status, get_queue_stats, retry_dead_job}

  abbrev pub Handles : Type 0
  Handles = calls.State → Response × calls.State

  unfoldable pub handle_get_queues : Handles
  handle_get_queues world =
      let (counted, next) = get_queue_stats world in
      elim counted [ err e ↦ (respond 500 (error e), next) | ok l ↦ (respond 200 (queues l), next) ]

  unfoldable pub handle_list_jobs : (String → Option ℤ) → String → String → Handles
  handle_list_jobs atoi status raw world =
      let (found, next) = get_jobs_by_status (asked_status status) (asked_limit atoi raw) world in
      elim found [ err e ↦ (respond 500 (error e), next) | ok l ↦ (respond 200 (jobs l), next) ]

  unfoldable pub handle_get_job : String → Handles
  handle_get_job id world =
      let (found, next) = b.get_job id world in
      elim found [
        | err e ↦ (respond 500 (error e), next)
        | ok o ↦ elim o [
          | none ↦ (respond 404 job_not_found, next)
          | some job ↦ (respond 200 (one_job job), next)
        ]
      ]

  -- `now` is the time that RetryDeadJob reads.
  unfoldable pub handle_retry_job : ℕ → String → Handles
  handle_retry_job now id world =
      let (done, next) = retry_dead_job now id world in
      elim done [ err e ↦ (respond 400 (error e), next) | ok u ↦ (respond 200 retried, next) ]

  unfoldable pub handle_delete_job : String → Handles
  handle_delete_job id world =
      let (done, next) = b.delete_job id world in
      elim done [ err e ↦ (respond 500 (error e), next) | ok u ↦ (respond 204 no_content, next) ]

  -- `exposed` is what the handler of the Prometheus client writes.
  module _ (atoi : String → Option ℤ) (ui : Option String) (exposed : String) where
    abbrev pub dispatch : Request → Endpoint → String → Handles
    dispatch q get_queues id world = handle_get_queues world
    dispatch q list_jobs id world = handle_list_jobs atoi q.status q.limit world
    dispatch q get_job id world = handle_get_job id world
    dispatch q retry_job id world = handle_retry_job q.now id world
    dispatch q delete_job id world = handle_delete_job id world
    dispatch q metrics id world = (respond 200 (exposition exposed), world)
    dispatch q index id world = (handle_index ui, world)

    unfoldable pub serve_http : Request → Handles
    serve_http q world = elim (route q.method q.path) [
      | handled e values ↦ dispatch q e (path_value values) world
      | refused ↦ (respond 405 method_not_allowed, world)
      | unmatched ↦ (respond 404 page_not_found, world)
    ]
