-- ===== src/Broker/Postgres/Statements.antt =====
-- The statements of internal/broker/postgres.go, as the server runs them: what they return, and the
-- table they leave. A statement that breaks a constraint fails and changes nothing.
use mini_sidekiq.Prelude.{
  ℕ, String, Bool, true, false, List, [], ◌∷◌, ◌++◌, Option, none, some, ◌==◌, ◌&&◌, ◌||◌, not,
  if◌then◌else◌, ltb, leb, eqb, take, tally, ◌+◌, map, occurs,
}
use mini_sidekiq.Exec.{Exec, ok, err, unique_violation}
use mini_sidekiq.Job.{JobStatus, pending, active, retry, dead, completed, other}
use mini_sidekiq.Broker.Stats.{QueueStats}
use mini_sidekiq.Broker.Postgres.Table.{Row, Table, conflicts, find_row, others, replace}

-- INSERT
unfoldable pub insert_row : Row → Exec Table (Unit {0})
insert_row a db = if conflicts a db then (err unique_violation, db) else (ok tt, db ++ (a ∷ []))

-- An UPDATE of one found row, and the number of rows affected.
abbrev pub rewrite_row : (Row → Row) → Option Row → Exec Table (Option Row)
rewrite_row f none db = (ok none, db)
rewrite_row f (some a) db =
    if conflicts (f a) (others a.id db)
    then (err unique_violation, db)
    else (ok (some (f a)), replace a.id (f a) db)

-- UPDATE jobs SET ... WHERE id = $1
unfoldable pub update_row : String → (Row → Row) → Exec Table (Option Row)
update_row id f db = rewrite_row f (find_row id db) db

abbrev pub only_if : (Row → Bool) → Option Row → Option Row
only_if p none = none
only_if p (some a) = if p a then some a else none

-- UPDATE jobs SET ... WHERE id = $1 AND ...
unfoldable pub update_row_if : String → (Row → Bool) → (Row → Row) → Exec Table (Option Row)
update_row_if id p f db = rewrite_row f (only_if p (find_row id db)) db

-- DELETE FROM jobs WHERE id = $1
unfoldable pub delete_row : String → Exec Table (Unit {0})
delete_row id db = (ok tt, others id db)

-- SELECT ... WHERE id = $1
unfoldable pub select_row : String → Exec Table (Option Row)
select_row id db = (ok (find_row id db), db)

-- `status IN ('pending', 'retry')`
abbrev pub is_waiting : JobStatus → Bool
is_waiting pending = true
is_waiting retry = true
is_waiting _ = false

abbrev pub is_due : String → ℕ → Row → Bool
is_due queue now a = a.queue == queue && is_waiting a.status && leb a.process_at now

-- ORDER BY priority ASC, process_at ASC. `tie` is the server's choice between equals.
abbrev pub runs_before : (Row → Row → Bool) → Row → Row → Bool
runs_before tie a b =
    ltb a.priority b.priority
    || (eqb a.priority b.priority
        && (ltb a.process_at b.process_at || (eqb a.process_at b.process_at && tie a b)))

abbrev pub sooner : (Row → Row → Bool) → Row → Option Row → Row
sooner tie a none = a
sooner tie a (some b) = if runs_before tie b a then b else a

-- The subquery of Dequeue: the first due row of the queue that nobody has locked.
unfoldable pub first_due : (Row → Row → Bool) → (String → Bool) → String → ℕ → Table → Option Row
first_due tie locked queue now [] = none
first_due tie locked queue now (a ∷ rows) =
    let rest = first_due tie locked queue now rows in
    if is_due queue now a && not (locked a.id) then some (sooner tie a rest) else rest

-- The UPDATE ... RETURNING of Dequeue.
unfoldable pub claim_row :
    (Row → Row → Bool) → (String → Bool) → String → ℕ → Exec Table (Option Row)
claim_row tie locked queue now db =
    rewrite_row (λ a. record a { status = active; updated_at = now })
      (first_due tie locked queue now db) db

-- ORDER BY updated_at DESC
abbrev pub newer : (Row → Row → Bool) → Row → Row → Bool
newer tie a b = ltb b.updated_at a.updated_at || (eqb a.updated_at b.updated_at && tie a b)

unfoldable pub place_row : (Row → Row → Bool) → Row → Table → Table
place_row tie a [] = a ∷ []
place_row tie a (b ∷ rows) = if newer tie b a then b ∷ place_row tie a rows else a ∷ b ∷ rows

unfoldable pub sort_rows : (Row → Row → Bool) → Table → Table
sort_rows tie [] = []
sort_rows tie (a ∷ rows) = place_row tie a (sort_rows tie rows)

unfoldable pub where_rows : (Row → Bool) → Table → Table
where_rows p [] = []
where_rows p (a ∷ rows) = let rest = where_rows p rows in if p a then a ∷ rest else rest

-- SELECT ... WHERE ... ORDER BY updated_at DESC LIMIT $2
unfoldable pub select_rows : (Row → Row → Bool) → (Row → Bool) → ℕ → Exec Table (List Row)
select_rows tie p limit db = (ok (take limit (sort_rows tie (where_rows p db))), db)

-- COUNT(*) FILTER (WHERE ...)
unfoldable pub count_rows : (Row → Bool) → Table → ℕ
count_rows p [] = 0
count_rows p (a ∷ rows) = tally (p a) + count_rows p rows

abbrev pub same_status : JobStatus → JobStatus → Bool
same_status pending pending = true
same_status active active = true
same_status retry retry = true
same_status dead dead = true
same_status completed completed = true
same_status (other s) (other t) = s == t
same_status _ _ = false

abbrev pub of_queue : String → JobStatus → Row → Bool
of_queue queue status a = a.queue == queue && same_status status a.status

-- The columns of GetQueueStats for the group of a queue.
unfoldable pub group_stats : ℕ → Table → String → QueueStats
group_stats now rows queue = record {
  queue = queue;
  enqueued = count_rows (λ a. of_queue queue pending a && leb a.process_at now) rows;
  retry = count_rows (of_queue queue retry) rows;
  scheduled = count_rows (λ a. of_queue queue pending a && ltb now a.process_at) rows;
  active = count_rows (of_queue queue active) rows;
  error = 0;
  dead = count_rows (of_queue queue dead) rows;
}

-- GROUP BY queue
unfoldable pub queue_groups : Table → List String
queue_groups [] = []
queue_groups (a ∷ rows) =
    let rest = queue_groups rows in if occurs a.queue rest then rest else a.queue ∷ rest

unfoldable pub select_stats : ℕ → Exec Table (List QueueStats)
select_stats now db = (ok (map (group_stats now db) (queue_groups db)), db)
