-- ===== src/Broker/Counting.antt =====
-- internal/broker/redis.go: GetQueueStats, scanEach and attributeGlobalSetToQueues. `scan` is the
-- iteration of SCAN over the keys that match a pattern, taken as one request.
pub mod Phases
pub mod Sizes
pub mod Depths
use Prim.Native.Char.{code}
use mini_sidekiq.Prelude.{ℕ, ◌+◌, String, List, [], ◌∷◌, Option, none, some, eqb, if◌then◌else◌}
use mini_sidekiq.Exec.{Exec, pure, or_raise, unmarshal, ◌>>=◌}
use mini_sidekiq.Job.{Job}
use mini_sidekiq.Redis.{Redis, call_get, call_zrange, call_llen, call_zcard}
use mini_sidekiq.Broker.Codec.{Codec}
use mini_sidekiq.Broker.Network.{World, send}
use mini_sidekiq.Broker.Stats.{QueueStats, StatsMap, no_queues, put_stats, entry}
use mini_sidekiq.Broker.Keys.{job_key, active_key, scheduled_key}
use mini_sidekiq.Broker.RedisBroker.{Client}

-- strings.TrimPrefix
unfoldable pub after_prefix : String → String → Option String
after_prefix String.[] s = some s
after_prefix (String.◌∷◌ c p) String.[] = none
after_prefix (String.◌∷◌ c p) (String.◌∷◌ d s) =
    let rest = after_prefix p s in if eqb (code c) (code d) then rest else none

unfoldable pub trim_prefix : String → String → String
trim_prefix s prefix = elim (after_prefix prefix s) [ none ↦ s | some t ↦ t ]

abbrev pub note_enqueued : ℕ → QueueStats → QueueStats
note_enqueued n s = record s { enqueued = n }

abbrev pub note_retry : ℕ → QueueStats → QueueStats
note_retry n s = record s { retry = n }

abbrev pub note_dead : ℕ → QueueStats → QueueStats
note_dead n s = record s { dead = n }

abbrev pub more_scheduled : ℕ → QueueStats → QueueStats
more_scheduled n s = record s { scheduled = s.scheduled + n }

abbrev pub more_active : ℕ → QueueStats → QueueStats
more_active n s = record s { active = s.active + n }

module _ (c : Codec) (r : Redis c.Data) where
  open r use {Db}

  -- The functions that GetQueueStats gives to scanEach: the key's length, noted for its queue.
  unfoldable pub count_key :
      String
      → (String → Exec Db ℕ)
      → (ℕ → QueueStats → QueueStats)
      → String
      → StatsMap
      → Client c r StatsMap
  count_key prefix size note key stats = do
    n ← send (size key)
    pure (put_stats (note n (entry (trim_prefix key prefix) stats)) stats)

  unfoldable pub each_key :
      (String → StatsMap → Client c r StatsMap) → List String → StatsMap → Client c r StatsMap
  each_key fn [] stats = pure stats
  each_key fn (key ∷ keys) stats = do next ← fn key stats; each_key fn keys next

  -- The loop of `attributeGlobalSetToQueues`: an id without a record is skipped.
  unfoldable pub each_id :
      (ℕ → QueueStats → QueueStats) → List String → StatsMap → Client c r StatsMap
  each_id more [] stats = pure stats
  each_id more (id ∷ ids) stats = do
    found ← send (call_get r (job_key id))
    elim found [
      | none ↦ each_id more ids stats
      | some job_data ↦ (do
        job ← or_raise (c.unmarshal job_data) unmarshal
        each_id more ids (put_stats (more 1 (entry job.queue stats)) stats))
    ]

  unfoldable pub attribute_global_set_to_queues :
      String → (ℕ → QueueStats → QueueStats) → StatsMap → Client c r StatsMap
  attribute_global_set_to_queues set_key more stats = do
    ids ← send (call_zrange r set_key 0)
    each_id more ids stats

  module _ (scan : String → Exec Db (List String)) where
    unfoldable pub scan_each :
        String → (String → StatsMap → Client c r StatsMap) → StatsMap → Client c r StatsMap
    scan_each pattern fn stats = do keys ← send (scan pattern); each_key fn keys stats

    unfoldable pub get_queue_stats : Client c r StatsMap
    get_queue_stats = do
      queues ←
          scan_each "sidekiq:queue:*" (count_key "sidekiq:queue:" (call_llen r) note_enqueued)
            no_queues
      retries ←
          scan_each "sidekiq:retry:*" (count_key "sidekiq:retry:" (call_zcard r) note_retry) queues
      deads ← scan_each "sidekiq:dead:*" (count_key "sidekiq:dead:" (call_llen r) note_dead) retries
      scheduled ← attribute_global_set_to_queues scheduled_key more_scheduled deads
      attribute_global_set_to_queues active_key more_active scheduled
