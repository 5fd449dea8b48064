-- ===== src/Broker/RedisBroker/Promote.antt =====
-- PromoteDueJobs: its loops over the sources and over the ids of each.
use mini_sidekiq.Prelude.{
  occurs, ℕ, suc, String, ◌+◌, ◌≤◌, ◌≡◌, refl, subst, inl, inr, Option, some, none, List, [], ◌∷◌,
  map, arith, eq_refl, true, false,
}
use native.Mathlib.Numerals.{add-one}
use mini_sidekiq.Exec.{Error, Result, ok, network, continue, pure}
use mini_sidekiq.Redis.{Redis, call_zrangebyscore, due_members}
use mini_sidekiq.Redis.Occurrences.{zset_entries, read_zset-like}
use mini_sidekiq.Broker.Codec.{Codec}
use mini_sidekiq.Broker.Network.{World, send_cases}
use mini_sidekiq.Broker.Keys.{
  Place, in_queue, in_retry, in_scheduled, place_key, job_key, retry_key,
}
use mini_sidekiq.Broker.Shapes.{IsZsetPlace, Fits-zset}
use mini_sidekiq.Broker.Scripts.{promote_job}
use mini_sidekiq.Broker.Tracking.{Placement, Tracks, put}
use mini_sidekiq.Broker.Tracking.Records.{place_cases}
use mini_sidekiq.Broker.Tracking.Return.{promote_script, promote_script_late}
use mini_sidekiq.Broker.RedisBroker.Ending.{after_read}
use mini_sidekiq.Broker.RedisBroker.{unix, promote_ids, promote_sources, promote_due_jobs}

-- The sorted sets that a call promotes from.
abbrev pub IsSource : List String → Place → Type 0
IsSource queues in_scheduled = Unit
IsSource queues (in_retry q) = occurs q queues ≡ true
IsSource queues _ = ⊥

IsSource-zset : (queues : List String) (p : Place) → IsSource queues p → IsZsetPlace p
IsSource-zset queues in_scheduled h = tt
IsSource-zset queues (in_retry q) h = tt
IsSource-zset queues _ h = absurd h

-- `n` jobs went, one after the other, from such a set to a queue, and nothing else changed.
pub data Promotions (queues : List String) (w : Placement) : ℕ → Placement → Type 0 where
  no_more : Promotions queues w 0 w
  and_then :
      {n : ℕ} {w' : Placement} (id q : String) (p : Place)
      → Promotions queues w n w'
      → w' id ≡ some p
      → IsSource queues p
      → Promotions queues w (suc n) (put id (in_queue q) w')

module _ (c : Codec) (r : Redis c.Data) (queues : List String) (start : Placement) where
  open r use {Db, value}

  -- The call returns its count and perhaps an error. The count is that of the jobs promoted, but for
  -- one whose reply was lost.
  pub record Promoted (x : Result (ℕ × Option Error) × World Db) : Type 0 where
    pub promoted : ℕ
    pub failure : Option Error
    pub moved : ℕ
    pub final : Placement
    pub returns : x.0 ≡ ok (promoted, failure)
    pub promotions : Promotions queues start moved final
    pub tracks : Tracks c r x.1.db final
    pub exact : failure ≡ none → moved ≡ promoted
    pub at_least : promoted ≤ moved
    pub at_most : moved ≤ promoted + 1

  ends :
      (n : ℕ) (w : Placement) (world : World Db)
      → Promotions queues start n w
      → Tracks c r world.db w
      → Promoted (ok (n, none), world)
  ends n w world h t = record {
    promoted = n;
    failure = none;
    moved = n;
    final = w;
    returns = refl;
    promotions = h;
    tracks = t;
    exact = λ e. refl;
    at_least = omega arith;
    at_most = omega arith;
  }

  breaks :
      (n m : ℕ) (w : Placement) (world : World Db)
      → n ≤ m
      → m ≤ n + 1
      → Promotions queues start m w
      → Tracks c r world.db w
      → Promoted (ok (n, some network), world)
  breaks n m w world lo hi h t = record {
    promoted = n;
    failure = some network;
    moved = m;
    final = w;
    returns = refl;
    promotions = h;
    tracks = t;
    exact = λ e. cc;
    at_least = lo;
    at_most = hi;
  }

  module _ (p : Place) (source : IsSource queues p) where
    promote_ids-Promoted :
        (ids : List String) (n : ℕ) (w : Placement) (world : World Db)
        → Promotions queues start n w
        → Tracks c r world.db w
        → Promoted (promote_ids c r (place_key p) ids n world)
    unfolding promote_ids
    promote_ids-Promoted [] n w world h t = ends n w world h t
    promote_ids-Promoted (id ∷ ids) n w world h t = elim (place_cases (w id) p) [
      | inl here ↦
          let (db', e, t') =
            promote_script c r world.db w t id p (IsSource-zset queues p source) here in
          elim (send_cases (promote_job c r (place_key p) (job_key id) id) world true db' e) [
            | inl s ↦ rw s (
                promote_ids-Promoted ids (n + 1) _ _ (rw add-one (and_then id _ p h here source))
                  t')
            | inr (inl s) ↦ rw s (breaks n n w _ (omega arith) (omega arith) h t)
            | inr (inr s) ↦ rw s (
                breaks n (suc n) _ _ (omega arith) (omega arith) (and_then id _ p h here source) t')
          ]
      | inr away ↦
          let (db', e, t') =
            promote_script_late c r world.db w t id p (IsSource-zset queues p source) away in
          elim (send_cases (promote_job c r (place_key p) (job_key id) id) world false db' e) [
            | inl s ↦ rw s (promote_ids-Promoted ids n w _ h t')
            | inr (inl s) ↦ rw s (breaks n n w _ (omega arith) (omega arith) h t)
            | inr (inr s) ↦ rw s (breaks n n w _ (omega arith) (omega arith) h t')
          ]
    ]

  -- The rest of the loop, after one source.
  AndThen : (ℕ → World Db → Result (ℕ × Option Error) × World Db) → Type 0
  AndThen rest =
      (n : ℕ) (w : Placement) (world : World Db)
      → Promotions queues start n w
      → Tracks c r world.db w
      → Promoted (rest n world)

  module _ (p : Place) (source : IsSource queues p) (now : ℕ) (sources : List String)
      (later : AndThen (promote_sources c r now sources)) where
    after_ids :
        (x : Result (ℕ × Option Error) × World Db) (h : Promoted x) (f : Option Error)
        → h.failure ≡ f
        → Promoted (
            continue x.0
              (λ (n, failed). elim failed [
                | none ↦ promote_sources c r now sources n
                | some e ↦ pure (n, some e)
              ])
              x.1)
    unfolding AndThen
    after_ids x h none e =
        rw (h.returns, e)
          (later h.promoted h.final x.1
            (subst (λ k. Promotions queues start k h.final) (h.exact e) h.promotions) h.tracks)
    after_ids x h (some f) e =
        rw (h.returns, e)
          (record {
            promoted = h.promoted;
            failure = some f;
            moved = h.moved;
            final = h.final;
            returns = refl;
            promotions = h.promotions;
            tracks = h.tracks;
            exact = λ no. cc;
            at_least = h.at_least;
            at_most = h.at_most;
          })

    source-AndThen : AndThen (promote_sources c r now (place_key p ∷ sources))
    unfolding AndThen promote_sources call_zrangebyscore
    source-AndThen n w world h t =
        let z = Fits-zset p _ (IsSource-zset queues p source) (t.shaped p) in
        let ids = due_members now (zset_entries (value world.db (place_key p))) in
        elim (send_cases (call_zrangebyscore r (place_key p) now) world ids world.db
          (rw (read_zset-like _ z))) [
            | inl s ↦ rw s (
                let x = promote_ids-Promoted p source ids n w (after_read world) h t in
                after_ids _ x x.failure refl)
            | inr (inl s) ↦ rw s (breaks n n w _ (omega arith) (omega arith) h t)
            | inr (inr s) ↦ rw s (breaks n n w _ (omega arith) (omega arith) h t)
          ]

  retries-AndThen :
      (now : ℕ) (qs : List String)
      → ((q : String) → occurs q qs ≡ true → occurs q queues ≡ true)
      → AndThen (promote_sources c r now (map retry_key qs))
  unfolding AndThen promote_sources
  retries-AndThen now [] sub = λ n w world h t. ends n w world h t
  retries-AndThen now (q ∷ qs) sub =
      source-AndThen (in_retry q) (sub q (rw (eq_refl q))) now (map retry_key qs)
        (retries-AndThen now qs (λ x h. sub x (ground (arith, h))))

  pub promote_due_jobs-Promoted :
      (now : ℕ) (world : World Db)
      → Tracks c r world.db start
      → Promoted (promote_due_jobs c r now queues world)
  unfolding promote_due_jobs AndThen
  promote_due_jobs-Promoted now world t =
      source-AndThen in_scheduled tt (unix now) (map retry_key queues)
        (retries-AndThen (unix now) queues (λ q h. h)) 0 start world no_more t
