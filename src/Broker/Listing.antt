-- ===== src/Broker/Listing.antt =====
-- internal/broker/redis.go: GetJobsByStatus and collectIDsFromLists. `scan` is the iteration of
-- SCAN over the keys that match a pattern, taken as one request.
pub mod Sound
pub mod ByStatus
use mini_sidekiq.Prelude.{
  ℕ, ◌-◌, String, List, [], ◌∷◌, ◌++◌, Option, none, some, true, false, leb, length,
}
use mini_sidekiq.Exec.{Exec, Error, pure, raise, or_raise, unmarshal, unsupported, ◌>>=◌}
use mini_sidekiq.Job.{Job, JobStatus, pending, active, retry, dead, completed, other}
use mini_sidekiq.Redis.{Redis, call_get, call_lrange, call_zrange}
use mini_sidekiq.Broker.Codec.{Codec}
use mini_sidekiq.Broker.Network.{World, send}
use mini_sidekiq.Broker.Keys.{job_key, active_key}
use mini_sidekiq.Broker.RedisBroker.{Client}

module _ (c : Codec) (r : Redis c.Data) where
  -- The loop of `collectIDsFromLists` over the keys found.
  unfoldable pub collect_ids : ℕ → List String → List String → Client c r (List String)
  collect_ids limit [] ids = pure ids
  collect_ids limit (key ∷ keys) ids = elim (leb limit (length ids)) [
    | true ↦ pure ids
    | false ↦ (do
      vals ← send (call_lrange r key (limit - length ids))
      collect_ids limit keys (ids ++ vals))
  ]

  -- The loop of `GetJobsByStatus`: an id without a record is skipped.
  unfoldable pub load_jobs : List String → List Job → Client c r (List Job)
  load_jobs [] jobs = pure jobs
  load_jobs (id ∷ ids) jobs = do
    found ← send (call_get r (job_key id))
    elim found [
      | none ↦ load_jobs ids jobs
      | some job_data ↦ (do
        job ← or_raise (c.unmarshal job_data) unmarshal
        load_jobs ids (jobs ++ (job ∷ [])))
    ]

  module _ (scan : String → Exec r.Db (List String)) where
    unfoldable pub collect_ids_from_lists : String → ℕ → Client c r (List String)
    collect_ids_from_lists pattern limit = do keys ← send (scan pattern); collect_ids limit keys []

    -- The switch on the status, with the ids loaded. The jobs that come beside an error are left
    -- out.
    unfoldable pub get_jobs_by_status : JobStatus → ℕ → Client c r (List Job)
    get_jobs_by_status dead limit = do
      ids ← collect_ids_from_lists "sidekiq:dead:*" limit
      load_jobs ids []
    get_jobs_by_status retry limit = do
      ids ← collect_ids_from_lists "sidekiq:retry:*" limit
      load_jobs ids []
    get_jobs_by_status pending limit = do
      ids ← collect_ids_from_lists "sidekiq:queue:*" limit
      load_jobs ids []
    get_jobs_by_status active limit = do
      ids ← send (call_zrange r active_key limit)
      load_jobs ids []
    get_jobs_by_status completed limit = pure []
    get_jobs_by_status (other s) limit = raise (unsupported s)
