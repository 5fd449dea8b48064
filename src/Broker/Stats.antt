-- ===== src/Broker/Stats.antt =====
-- internal/broker/broker.go: QueueStats.
use mini_sidekiq.Prelude.{ℕ, String, Option, none, some, ◌==◌, if◌then◌else◌}

pub record QueueStats : Type 0 where
  pub queue : String
  pub enqueued : ℕ
  pub retry : ℕ
  pub scheduled : ℕ
  pub active : ℕ
  pub error : ℕ
  pub dead : ℕ

-- The zero value, with its queue.
abbrev pub no_stats : String → QueueStats
no_stats queue = record {
  queue = queue;
  enqueued = 0;
  retry = 0;
  scheduled = 0;
  active = 0;
  error = 0;
  dead = 0;
}

-- map[string]QueueStats
abbrev pub StatsMap : Type 0
StatsMap = String → Option QueueStats

abbrev pub no_queues : StatsMap
no_queues queue = none

abbrev pub put_stats : QueueStats → StatsMap → StatsMap
put_stats s stats queue = if s.queue == queue then some s else stats queue

-- `s := stats[queue]; s.Queue = queue`, where a missing entry is the zero value
abbrev pub or_zero : Option QueueStats → QueueStats
or_zero none = no_stats ""
or_zero (some s) = s

unfoldable pub for_queue : String → QueueStats → QueueStats
for_queue queue s = record s { queue = queue }

abbrev pub entry : String → StatsMap → QueueStats
entry queue stats = for_queue queue (or_zero (stats queue))
