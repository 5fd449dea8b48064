-- ===== src/Broker/PostgresBroker/Depth.antt =====
-- What the numbers of GetQueueStats on Postgres promise of Dequeue.
use mini_sidekiq.Prelude.{
  String, Bool, true, false, not, ◌&&◌, ◌≡◌, ◌≢◌, refl, sym, ap, ◌∙◌, inl, inr, List, [], ◌∷◌, some,
  ◌==◌, leb, tally, arith, Option-cases, Everyone,
}
use mini_sidekiq.Exec.{ok}
use mini_sidekiq.Job.{Job, JobStatus, pending, active, retry, dead, completed, other}
use mini_sidekiq.Broker.Network.{World}
use mini_sidekiq.Broker.Stats.{QueueStats, StatsMap}
use mini_sidekiq.Broker.Postgres.Table.{Table, IsTable, replace}
use mini_sidekiq.Broker.Postgres.Statements.{
  is_waiting, same_status, count_rows, group_stats, first_due, claim_row,
}
use mini_sidekiq.Broker.Postgres.Server.{PostgresServer, Database}
use mini_sidekiq.Broker.Postgres.Due.{
  is_free, Finds, first_due-Finds, claimed, claim_row_lem, free-waiting,
}
use mini_sidekiq.Broker.PostgresBroker.{scan_job, get_queue_stats, dequeue}
use mini_sidekiq.Broker.PostgresBroker.Outcome.{sql_cases}
use mini_sidekiq.Broker.PostgresBroker.Counts.{entry, has_queue, get_queue_stats-IsCount}

pending-waiting :
    (status : JobStatus) → same_status pending status ≡ true → is_waiting status ≡ true
pending-waiting pending h = refl
pending-waiting active h = cc
pending-waiting retry h = cc
pending-waiting dead h = cc
pending-waiting completed h = cc
pending-waiting (other s) h = cc

not_free :
    (x s w d k : Bool)
    → (s ≡ true → w ≡ true)
    → k ≡ false
    → (x && w && d && not k) ≡ false
    → tally (x && s && d) ≡ 0
not_free x true w d k i free h = ground (arith, i refl, free, h)
not_free x false w d k i free h = ground (arith, h)

ok_injective : {A : Type 0} {x y : A} → ok x ≡ ok y → x ≡ y
ok_injective e = cc

module _ (pg : PostgresServer) where
  open pg use {tie}

  none_enqueued :
      (db : Database) (queue : String) (rows : Table)
      → ((id : String) → db.locked id ≡ false)
      → Everyone (λ a. is_free tie db.locked queue db.now a ≡ false) rows
      → (group_stats db.now rows queue).enqueued ≡ 0
  unfolding group_stats count_rows is_free
  none_enqueued db queue [] free e = refl
  none_enqueued db queue (a ∷ rows) free (h, e) =
      let none_here =
        not_free (a.queue == queue) (same_status pending a.status) (is_waiting a.status)
          (leb a.process_at db.now) (db.locked a.id) (pending-waiting a.status) (free a.id) h in
      omega (arith, none_here, none_enqueued db queue rows free e)

  counted_stats :
      (db : Database) (stats : StatsMap) (queue : String) (s : QueueStats)
      → (get_queue_stats pg (record { db = db; faults = [] })).0 ≡ ok stats
      → stats queue ≡ some s
      → s ≡ group_stats db.now db.rows queue
  counted_stats db stats queue s counted here =
      let (stats', c, n, ends) = get_queue_stats-IsCount pg (record { db = db; faults = [] }) in
      elim ends [
        | inl (e, h) ↦
            entry (has_queue queue db.rows)
              (sym (c queue) ∙ ap (λ m. m queue) (ok_injective (sym e ∙ counted)) ∙ here)
        | inr (e, f, h) ↦ absurd (f refl)
      ]

  -- If GetQueueStats says that a queue has jobs enqueued, then a Dequeue from it at that time, when
  -- no row is locked and the network is sound, hands out a job of that queue.
  pub enqueued-dequeue :
      (db : Database) (t : IsTable db.rows) (stats : StatsMap) (queue : String)
      (later : List String) (s : QueueStats)
      → ((id : String) → db.locked id ≡ false)
      → (get_queue_stats pg (record { db = db; faults = [] })).0 ≡ ok stats
      → stats queue ≡ some s
      → s.enqueued ≢ 0
      → (job : Job) × (job.queue ≡ queue)
        × ((dequeue pg (queue ∷ later) (record { db = db; faults = [] })).0 ≡ ok (some job))
  unfolding dequeue scan_job
  enqueued-dequeue db t stats queue later s free counted here some_there =
      let start : World Database = record { db = db; faults = [] } in
      let found = first_due-Finds tie db.locked queue db.now db.rows t in
      elim (Option-cases (first_due tie db.locked queue db.now db.rows)) [
        | inl e ↦ absurd (
            some_there (
              ap (λ x. x.enqueued) (counted_stats db stats queue s counted here)
              ∙ none_enqueued db queue db.rows free (rw e at found)))
        | inr (a, e) ↦
            let b = claimed db.now a in
            let runs = claim_row_lem tie db.locked queue db.now db.rows (some a) t e in
            let (f, d, m) : Finds tie db.locked queue db.now db.rows (some a) = rw e at found in
            let of_it = (free-waiting tie db.locked queue db.now a d).0 in
            elim (sql_cases (λ now locked. claim_row tie locked queue now) start (ok (some b))
              (replace a.id b db.rows) runs) [
                | inl z ↦ (scan_job b, of_it, rw (dequeue, z) refl)
                | inr (inl (n, z)) ↦ absurd (n refl)
                | inr (inr (n, z)) ↦ absurd (n refl)
              ]
      ]
