-- ===== src/Dashboard/Replies.antt =====
-- What the API's replies mean for the jobs on Redis.
use mini_sidekiq.Prelude.{
  ℕ, zero, suc, ◌<◌, String, ◌≡◌, ◌≢◌, refl, ◌⊎◌, inl, inr, List, [], Option, none, some, ℤ, pos,
  negsuc, arith, ◌==◌, Bool-cases,
}
use mini_sidekiq.Exec.{Exec, network}
use mini_sidekiq.Job.{Job, pending, dead}
use mini_sidekiq.Redis.{Redis}
use mini_sidekiq.Broker.Codec.{Codec}
use mini_sidekiq.Broker.Network.{World}
use mini_sidekiq.Broker.Keys.{Place, in_queue, in_dead}
use mini_sidekiq.Broker.Tracking.{Placement, Tracks, put, forget}
use mini_sidekiq.Broker.Tracking.Records.{stored_at}
use mini_sidekiq.Broker.RedisBroker.{reset}
use mini_sidekiq.Broker.Interface.{redis_admin}
use mini_sidekiq.Broker.RedisBroker.Ending.{delete_atomic, retry_dead_atomic}
use mini_sidekiq.Broker.Listing.Sound.{Loaded, Scans}
use mini_sidekiq.Broker.Listing.ByStatus.{IsPlaceOf, get_jobs_by_status-Reads}
use mini_sidekiq.Dashboard.{
  Response, jobs, error, respond, asked_limit, positive_or, handle_list_jobs, handle_retry_job,
  handle_delete_job,
}

positive_or-pos : (n : ℕ) (o : Option ℤ) → 0 < n → 0 < positive_or n o
positive_or-pos n none h = h
positive_or-pos n (some (pos zero)) h = h
positive_or-pos n (some (pos (suc m))) h = omega arith
positive_or-pos n (some (negsuc m)) h = h

asked_limit-pos : (atoi : String → Option ℤ) (raw : String) → 0 < asked_limit atoi raw
asked_limit-pos atoi raw = elim (Bool-cases (raw == "")) [
  | inl h ↦ rw h (omega arith)
  | inr h ↦ rw h (positive_or-pos 50 (atoi raw) (omega arith))
]

module _ (c : Codec) (r : Redis c.Data) where
  open r use {Db}

  -- One code says that the store went from one placement to the other, the other that it has either.
  abbrev pub Replies : ℕ → ℕ → Placement → Placement → Response × World Db → Type 0
  Replies good bad before later (response, next) =
      ((response.code ≡ good) × Tracks c r next.db later)
      ⊎ ((response.code ≡ bad) × (Tracks c r next.db before ⊎ Tracks c r next.db later))

module _ (c : Codec) (r : Redis c.Data) (scan : String → Exec r.Db (List String))
    (world : World r.Db) (w : Placement) (t : Tracks c r world.db w) where
  open r use {Db}

  -- DELETE of a job that stands somewhere, over Redis and whatever the network does to each
  -- command of the pipeline, while no other client changes the store: the reply is 204 and the job
  -- stands nowhere, or it is 500 and the job stands nowhere or where it stood, wherever the
  -- pipeline was cut.
  pub handle_delete_job-Replies :
      (id : String) (p : Place)
      → w id ≡ some p
      → Replies c r 204 500 w (forget id w) (handle_delete_job (redis_admin c r scan) id world)
  unfolding handle_delete_job
  handle_delete_job-Replies id p here = elim (delete_atomic c r world w t id p here) [
    | inl (e, t') ↦ rw (handle_delete_job, e) (inl (refl, t'))
    | inr (e, t') ↦ rw (handle_delete_job, e) (inr (refl, t'))
  ]

  -- POST retry of a dead job: 200 says that it is back in its queue, and 400 that it is perhaps
  -- still dead.
  pub handle_retry_job-Replies :
      (now : ℕ) (id q : String)
      → (here : w id ≡ some (in_dead q)) → (d : c.Data)
      → c.marshal (reset now (stored_at c r world.db w id (in_dead q) t here).job) ≡ some d
      → Replies c r 200 400 w
          (put id (in_queue q) w)
          (handle_retry_job (redis_admin c r scan) now id world)
  unfolding handle_retry_job
  handle_retry_job-Replies now id q here d h =
      elim (retry_dead_atomic c r world w t now id q here d h) [
        | inl (e, t') ↦ rw (handle_retry_job, e) (inl (refl, t'))
        | inr (e, t') ↦ rw (handle_retry_job, e) (inr (refl, t'))
      ]

  -- GET of the jobs, without a status, whatever the limit that is asked for: a positive limit is
  -- used, and the reply is 200 with no more jobs than that, each waiting in its queue, or 500 after
  -- a network fault.
  pub handle_list_jobs-Replies :
      (atoi : String → Option ℤ) (raw : String)
      → Scans c r w (IsPlaceOf pending) scan world "sidekiq:queue:*"
      → Scans c r w (IsPlaceOf dead) scan world "sidekiq:dead:*"
      → let response = (handle_list_jobs (redis_admin c r scan) atoi "" raw world).0 in
        (0 < asked_limit atoi raw)
        × (((l : List Job) × (response ≡ respond 200 (jobs l))
              × Loaded c r w (IsPlaceOf pending) (asked_limit atoi raw) l)
            ⊎ ((response ≡ respond 500 (error network)) × (world.faults ≢ [])))
  unfolding handle_list_jobs
  handle_list_jobs-Replies atoi raw queues deads =
      let limit = asked_limit atoi raw in
      let (found, unchanged, left) =
        (get_jobs_by_status-Reads c r scan w world t limit queues deads).0 in
      (
        asked_limit-pos atoi raw,
        elim found [
          | inl (e, n) ↦ rw (handle_list_jobs, e) (inr (refl, n))
          | inr (l, e, g) ↦ rw (handle_list_jobs, e) (inl (l, refl, g))
        ],
      )
