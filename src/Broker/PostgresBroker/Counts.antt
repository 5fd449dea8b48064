-- ===== src/Broker/PostgresBroker/Counts.antt =====
-- GetQueueStats on Postgres: what it counts.
use mini_sidekiq.Prelude.{
  ℕ, ◌+◌, ◌≤◌, String, Bool, true, false, ◌&&◌, ◌||◌, ◌≡◌, refl, sym, ap, ◌∙◌, inl, inr, List, [],
  ◌∷◌, map, Option, none, some, ◌==◌, if◌then◌else◌, leb, ltb, tally, eq_iff, arith, occurs,
  Bool-cases,
}
use mini_sidekiq.Exec.{ok, pure}
use mini_sidekiq.Job.{JobStatus, pending, active, retry, dead, completed, other}
use mini_sidekiq.Broker.Network.{World}
use mini_sidekiq.Broker.Stats.{QueueStats, StatsMap, no_queues, put_stats}
use mini_sidekiq.Broker.Postgres.Table.{Table}
use mini_sidekiq.Broker.Postgres.Statements.{
  same_status, count_rows, group_stats, queue_groups, select_stats,
}
use mini_sidekiq.Broker.Postgres.Server.{PostgresServer, Database}
use mini_sidekiq.Broker.PostgresBroker.{collect_stats, get_queue_stats}
use mini_sidekiq.Broker.PostgresBroker.Outcome.{Ends, sql-Ends}

abbrev pub has_queue : String → Table → Bool
has_queue queue [] = false
has_queue queue (a ∷ rows) = a.queue == queue || has_queue queue rows

occurs-queue_groups :
    (queue : String) (rows : Table) → occurs queue (queue_groups rows) ≡ has_queue queue rows
unfolding queue_groups
occurs-queue_groups queue [] = refl
occurs-queue_groups queue (a ∷ rows) =
    let rest = queue_groups rows in
    elim (Bool-cases (occurs a.queue rest)) [
      | inl h ↦ rw h (ground (arith, h, eq_iff a.queue queue, occurs-queue_groups queue rows))
      | inr h ↦ rw h (
          ground
            (arith, eq_iff a.queue queue, eq_iff queue a.queue, occurs-queue_groups queue rows))
    ]

either :
    (x y : Bool) (a b : Option QueueStats)
    → (if x then a else if y then a else b) ≡ (if y || x then a else b)
either true true a b = refl
either true false a b = refl
either false true a b = refl
either false false a b = refl

module _ (f : String → QueueStats) (own : (queue : String) → (f queue).queue ≡ queue) where
  put_stats-lem :
      (q : String) (stats : StatsMap) (queue : String)
      → put_stats (f q) stats queue ≡ (if q == queue then some (f queue) else stats queue)
  put_stats-lem q stats queue =
      ap (λ k. if k == queue then some (f q) else stats queue) (own q)
      ∙ elim (Bool-cases (q == queue)) [
        | inl e ↦ rw e (ap (λ k. some (f k)) ((eq_iff q queue).0 e))
        | inr e ↦ rw e refl
      ]

  collect_stats-map :
      (queues : List String) (stats : StatsMap) (queue : String)
      → collect_stats (map f queues) stats queue
        ≡ (if occurs queue queues then some (f queue) else stats queue)
  collect_stats-map [] stats queue = refl
  collect_stats-map (q ∷ queues) stats queue =
      collect_stats-map queues (put_stats (f q) stats) queue
      ∙ rw (put_stats-lem q stats queue)
          (either (occurs queue queues) (q == queue) (some (f queue)) (stats queue))

-- A map with the counts of the rows, for the queues that have a row.
abbrev pub IsCount : Database → StatsMap → Type 0
IsCount db stats =
    (queue : String)
    → stats queue
      ≡ (if has_queue queue db.rows then some (group_stats db.now db.rows queue) else none)

-- The rows of a queue.
abbrev pub queue_length : String → Table → ℕ
queue_length queue = count_rows (λ a. a.queue == queue)

at_most_one :
    (status : JobStatus) (x d e : Bool)
    → (d && e) ≡ false
    → (tally (x && same_status pending status && d)
        + tally (x && same_status retry status)
        + tally (x && same_status pending status && e)
        + tally (x && same_status active status)
        + tally (x && same_status dead status))
      ≤ tally x
at_most_one pending x d e h = ground (arith, h)
at_most_one active x d e h = ground arith
at_most_one retry x d e h = ground arith
at_most_one dead x d e h = ground arith
at_most_one completed x d e h = ground arith
at_most_one (other s) x d e h = ground arith

not_both : (m n : ℕ) → (leb m n && ltb n m) ≡ false
not_both m n = ground arith

-- A row counts at most once.
group_stats-le :
    (now : ℕ) (queue : String) (rows : Table)
    → let s = group_stats now rows queue in
      s.enqueued + s.retry + s.scheduled + s.active + s.dead ≤ queue_length queue rows
unfolding group_stats count_rows
group_stats-le now queue [] = omega arith
group_stats-le now queue (a ∷ rows) =
    let one =
      at_most_one a.status (a.queue == queue) (leb a.process_at now) (ltb now a.process_at)
        (not_both a.process_at now) in
    omega (arith, one, group_stats-le now queue rows)

group_stats-queue :
    (now : ℕ) (rows : Table) (queue : String) → (group_stats now rows queue).queue ≡ queue
unfolding group_stats
group_stats-queue now rows queue = refl

pub entry : (b : Bool) {s s' : QueueStats} → (if b then some s' else none) ≡ some s → s ≡ s'
entry true e = ground (arith, e)
entry false e = absurd (cc e)

module _ (pg : PostgresServer) where
  -- GetQueueStats, whatever the network does: it changes nothing, and when it succeeds it has an
  -- entry for the queues that have a row and for no other, with the numbers of their rows that are
  -- pending and due, pending and not due, to be retried, active and dead; together these are no more
  -- than the rows of the queue.
  pub get_queue_stats-IsCount :
      (start : World Database)
      → (stats : StatsMap) × IsCount start.db stats
        × ((queue : String) (s : QueueStats)
            → stats queue ≡ some s
            → s.enqueued + s.retry + s.scheduled + s.active + s.dead
              ≤ queue_length queue start.db.rows)
        × Ends start (ok stats) start.db.rows (get_queue_stats pg start)
  unfolding get_queue_stats select_stats
  get_queue_stats-IsCount start =
      let rows = start.db.rows in
      let f = group_stats start.db.now rows in
      let groups = map f (queue_groups rows) in
      let counts : IsCount start.db (collect_stats groups no_queues) = λ queue.
        collect_stats-map f (group_stats-queue start.db.now rows) (queue_groups rows) no_queues
          queue
        ∙ ap (λ b. if b then some (f queue) else none) (occurs-queue_groups queue rows) in
      (
        collect_stats groups no_queues,
        counts,
        (λ queue s here.
            rw (entry (has_queue queue rows) (sym (counts queue) ∙ here))
              (group_stats-le start.db.now queue rows)),
        sql-Ends (λ now locked. select_stats now) start (λ l. ok (collect_stats l no_queues))
            (λ l. pure (collect_stats l no_queues)) (ok groups) rows (λ v w. refl) refl,
      )
