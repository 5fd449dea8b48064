-- ===== src/Scheduler/Promoting.antt =====
-- The scheduler over the Redis broker: what a run of it does to the jobs, and what it reports.
use mini_sidekiq.Prelude.{
  ℕ, zero, suc, ◌+◌, ◌≤◌, String, List, [], ◌∷◌, Option, none, some, Bool, true, false, arith,
  Bool-cases, inl, inr,
}
use native.Mathlib.Nat.{add-zero, add-suc}
use mini_sidekiq.Exec.{Error}
use mini_sidekiq.Redis.{Redis}
use mini_sidekiq.Broker.Codec.{Codec}
use mini_sidekiq.Broker.Network.{World}
use mini_sidekiq.Broker.Tracking.{Placement, Tracks}
use mini_sidekiq.Broker.Interface.{redis_broker}
use mini_sidekiq.Broker.RedisBroker.{promote_due_jobs}
use mini_sidekiq.Broker.RedisBroker.Promote.{
  Promotions, no_more, and_then, promote_due_jobs-Promoted,
}
use mini_sidekiq.Scheduler.{
  Event, Note, tick, done, promoted_due_jobs, promote_due_jobs_failed, report, counted, run,
}

pub Promotions-append :
    {queues : List String} {u v w : Placement} {m n : ℕ}
    → Promotions queues u m v
    → Promotions queues v n w
    → Promotions queues u (m + n) w
Promotions-append h no_more = rw add-zero h
Promotions-append h (and_then id q p h' here source) =
    rw add-suc (and_then id q p (Promotions-append h h') here source)

-- The number of jobs that the log says were promoted.
abbrev pub reported : List Note → ℕ
reported [] = 0
reported (promoted_due_jobs n ∷ log) = n + reported log
reported (promote_due_jobs_failed e ∷ log) = reported log

reported-report :
    (closed : Bool) (n : ℕ) (failure : Option Error) (log : List Note)
    → reported (report closed (n, failure) log).1 ≤ reported log + n
reported-report true n (some e) log = omega arith
reported-report false n (some e) log = omega arith
reported-report closed zero none log = omega arith
reported-report closed (suc n) none log = omega arith

module _ (c : Codec) (r : Redis c.Data) (queues : List String) (start : Placement)
    (before : List Note) where
  open r use {Db}

  -- `moved` jobs went from the scheduled set and the retry sets to the queues, nothing else changed,
  -- and the log reports no more than these.
  pub record Promoting (x : List Note × World Db) : Type 0 where
    pub moved : ℕ
    pub final : Placement
    pub promotions : Promotions queues start moved final
    pub tracks : Tracks c r x.1.db final
    pub at_most : reported x.0 ≤ reported before + moved

  run-Promoting_from :
      (events : List Event) (log : List Note) (world : World Db) (m : ℕ) (w : Placement)
      → Promotions queues start m w
      → Tracks c r world.db w
      → reported log ≤ reported before + m
      → Promoting (run (redis_broker c r) queues events log world)
  unfolding run
  run-Promoting_from [] log world m w h t k = record {
    moved = m;
    final = w;
    promotions = h;
    tracks = t;
    at_most = k;
  }
  run-Promoting_from (done ∷ events) log world m w h t k = record {
    moved = m;
    final = w;
    promotions = h;
    tracks = t;
    at_most = k;
  }
  run-Promoting_from (tick now closed ∷ events) log world m w h t k =
      let x = promote_due_jobs-Promoted c r queues w now world t in
      let reply = promote_due_jobs c r now queues world in
      let noted = report closed (counted reply.0) log in
      let h' = Promotions-append h x.promotions in
      let lo : reported noted.1 ≤ reported before + (m + x.moved) =
        rw x.returns
          (omega (arith, k, x.at_least, reported-report closed x.promoted x.failure log)) in
      elim (Bool-cases noted.0) [
        | inl on ↦
            rw (on, run)
              (run-Promoting_from events noted.1 reply.1 (m + x.moved) x.final h' x.tracks lo)
        | inr off ↦
            rw (off, run)
              (record {
                moved = m + x.moved;
                final = x.final;
                promotions = h';
                tracks = x.tracks;
                at_most = lo;
              })
      ]

  -- The scheduler, whatever the ticks and whatever the network does, only moves jobs from the
  -- scheduled set and the retry sets of its queues to the queues, and the numbers that it logs sum
  -- up to no more than the jobs it moved.
  pub run-Promoting :
      (events : List Event) (world : World Db)
      → Tracks c r world.db start
      → Promoting (run (redis_broker c r) queues events before world)
  run-Promoting events world t =
      run-Promoting_from events before world 0 start no_more t (omega arith)
