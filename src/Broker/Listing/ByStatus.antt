-- ===== src/Broker/Listing/ByStatus.antt =====
-- GetJobsByStatus for each status that it looks up in lists, and for the one that it looks up wrongly.
use mini_sidekiq.Prelude.{ℕ, ◌<◌, ◌≡◌, refl, List, [], ◌∷◌, String, lt→leb}
use mini_sidekiq.Exec.{Exec, ok, err, wrong_type}
use mini_sidekiq.Job.{JobStatus, pending, dead, retry}
use mini_sidekiq.Redis.{Redis, call_lrange}
use mini_sidekiq.Redis.Values.{zset}
use mini_sidekiq.Broker.Codec.{Codec}
use mini_sidekiq.Broker.Network.{World, send}
use mini_sidekiq.Broker.Keys.{Place, in_queue, in_dead, retry_key}
use mini_sidekiq.Broker.Tracking.{Placement, Tracks}
use mini_sidekiq.Broker.Listing.{collect_ids, collect_ids_from_lists, get_jobs_by_status}
use mini_sidekiq.Broker.Listing.Sound.{Reads, Loaded, Scans, jobs-Reads}

-- Where the jobs of the status stand.
abbrev pub IsPlaceOf : JobStatus → Place → Type 0
IsPlaceOf pending (in_queue q) = Unit
IsPlaceOf dead (in_dead q) = Unit
IsPlaceOf _ p = ⊥

module _ (c : Codec) (r : Redis c.Data) (scan : String → Exec r.Db (List String)) where
  open r use {Db, value}

  module _ (w : Placement) (start : World Db) (t : Tracks c r start.db w) where
    -- GetJobsByStatus, for pending and for dead jobs, changes nothing. Without a network fault it
    -- returns jobs, no more than the limit, each of which stands in a queue or a dead-letter list,
    -- that of its own Queue field; with a fault it may fail.
    pub get_jobs_by_status-Reads :
        (limit : ℕ)
        → Scans c r w (IsPlaceOf pending) scan start "sidekiq:queue:*"
        → Scans c r w (IsPlaceOf dead) scan start "sidekiq:dead:*"
        → Reads c r w
            (IsPlaceOf pending)
            (Loaded c r w (IsPlaceOf pending) limit)
            start
            (get_jobs_by_status c r scan pending limit start)
          × Reads c r w
              (IsPlaceOf dead)
              (Loaded c r w (IsPlaceOf dead) limit)
              start
              (get_jobs_by_status c r scan dead limit start)
    unfolding get_jobs_by_status
    get_jobs_by_status-Reads limit queues deads = (
      jobs-Reads c r w (IsPlaceOf pending) scan start "sidekiq:queue:*" limit t queues,
      jobs-Reads c r w (IsPlaceOf dead) scan start "sidekiq:dead:*" limit t deads,
    )

  -- GetJobsByStatus for the jobs that wait for a retry, without network faults: with a positive
  -- limit, it fails as soon as the first key that SCAN finds holds a sorted set, which is what
  -- Requeue stores there.
  pub get_jobs_by_status-retry_fails :
      (limit : ℕ) (db : Db) (q : String) (keys : List String) (x : String × ℕ)
      (l : List (String × ℕ))
      → 0 < limit
      → scan "sidekiq:retry:*" db ≡ (ok (retry_key q ∷ keys), db)
      → value db (retry_key q) ≡ zset (x ∷ l)
      → (get_jobs_by_status c r scan retry limit (record { db = db; faults = [] })).0
        ≡ err wrong_type
  unfolding get_jobs_by_status collect_ids_from_lists collect_ids send call_lrange
  get_jobs_by_status-retry_fails limit db q keys x l h found held =
      rw (found, collect_ids, lt→leb 0 limit h, held) refl
