-- ===== src/Broker/Counting/Phases.antt =====
-- The loops of GetQueueStats, without network faults: what becomes of the entry of a queue.
use Prim.Native.String.{◌++◌ as ◌<>◌}
use package.text.Mathlib.TextLemmas.{cons-append, nil-append}
use mini_sidekiq.Prelude.{
  ℕ, ◌+◌, String, ◌≡◌, refl, sym, ap, ◌∙◌, inl, inr, Bool, false, List, [], ◌∷◌, map, Option, none,
  some, ◌==◌, if◌then◌else◌, occurs, tally, eq_iff, arith, Bool-cases, Everyone,
}
use mini_sidekiq.Exec.{Exec, ok}
use mini_sidekiq.Job.{Job}
use mini_sidekiq.Redis.{Redis, call_get}
use mini_sidekiq.Redis.Values.{Value, text}
use mini_sidekiq.Broker.Codec.{Codec}
use mini_sidekiq.Broker.Network.{World, send}
use mini_sidekiq.Broker.Stats.{QueueStats, StatsMap, put_stats, entry, or_zero, for_queue}
use mini_sidekiq.Broker.Keys.{job_key}
use mini_sidekiq.Broker.Counting.{after_prefix, trim_prefix, count_key, each_key, each_id}

after_prefix-append : (p s : String) → after_prefix p (p <> s) ≡ some s
unfolding after_prefix
after_prefix-append String.[] s = ap some (nil-append s)
after_prefix-append (String.◌∷◌ c p) s = rw cons-append (ground (arith, after_prefix-append p s))

pub trim_prefix-append : (p s : String) → trim_prefix (p <> s) p ≡ s
unfolding trim_prefix
trim_prefix-append p s = rw (trim_prefix, after_prefix-append p s) refl

zero_plus : (n : ℕ) → 0 + n ≡ n
zero_plus n = omega arith

for_queue-queue : (q : String) (s : QueueStats) → (for_queue q s).queue ≡ q
unfolding for_queue
for_queue-queue q s = refl

for_queue-for_queue : (q p : String) (s : QueueStats) → for_queue q (for_queue p s) ≡ for_queue q s
unfolding for_queue
for_queue-for_queue q p s = refl

-- A change of the numbers of an entry.
pub record IsNote (note : ℕ → QueueStats → QueueStats) : Type 0 where
  pub keeps_queue : (n : ℕ) (s : QueueStats) → (note n s).queue ≡ s.queue
  pub apart :
      (n : ℕ) (q : String) (s : QueueStats) → for_queue q (note n s) ≡ note n (for_queue q s)

module _ (note : ℕ → QueueStats → QueueStats) (n : String → ℕ) where
  -- The entries after the loop over the keys of the queues.
  abbrev pub noted : List String → StatsMap → StatsMap
  noted [] stats = stats
  noted (q ∷ qs) stats = noted qs (put_stats (note (n q) (entry q stats)) stats)

module _ (note : ℕ → QueueStats → QueueStats) (law : IsNote note) where
  pub entry-note :
      (n : ℕ) (q : String) (stats : StatsMap) (k : String)
      → entry k (put_stats (note n (entry q stats)) stats)
        ≡ (if q == k then note n (entry k stats) else entry k stats)
  entry-note n q stats k =
      let s = note n (entry q stats) in
      let own : s.queue ≡ q =
        law.keeps_queue n (entry q stats) ∙ for_queue-queue q (or_zero (stats q)) in
      ap (λ i. for_queue k (or_zero (if i == k then some s else stats k))) own
      ∙ elim (Bool-cases (q == k)) [
        | inl e ↦ rw e (
            law.apart n k (entry q stats)
            ∙ ap (note n) (for_queue-for_queue k q (or_zero (stats q)))
            ∙ ap (λ i. note n (for_queue k (or_zero (stats i)))) ((eq_iff q k).0 e))
        | inr e ↦ rw e refl
      ]

  module _ (n : String → ℕ) where
    pub entry-noted :
        ((l m : ℕ) (s : QueueStats) → note m (note l s) ≡ note m s)
        → (qs : List String) (stats : StatsMap) (k : String)
        → entry k (noted note n qs stats)
          ≡ (if occurs k qs then note (n k) (entry k stats) else entry k stats)
    entry-noted over [] stats k = refl
    entry-noted over (q ∷ qs) stats k =
        entry-noted over qs (put_stats (note (n q) (entry q stats)) stats) k
        ∙ rw (entry-note (n q) q stats k) (elim (Bool-cases (q == k)) [
          | inl e ↦ elim (Bool-cases (occurs k qs)) [
            | inl o ↦ rw (e, o) (over (n q) (n k) (entry k stats))
            | inr o ↦ rw (e, o) (ap (λ i. note (n i) (entry k stats)) ((eq_iff q k).0 e))
          ]
          | inr e ↦ rw e refl
        ])

module _ (c : Codec) (r : Redis c.Data) (db : r.Db) where
  open r use {Db, value}

  abbrev pub calm : World Db
  calm = record { db = db; faults = [] }

  -- The loop over the keys of queues, whose lengths are `n`.
  pub each_key-noted :
      (note : ℕ → QueueStats → QueueStats) (prefix : String) (size : String → Exec Db ℕ)
      (key : String → String) (n : String → ℕ)
      → ((q : String) → trim_prefix (key q) prefix ≡ q)
      → ((q : String) → size (key q) db ≡ (ok (n q), db))
      → (qs : List String) (stats : StatsMap)
      → each_key c r (count_key c r prefix size note) (map key qs) stats calm
        ≡ (ok (noted note n qs stats), calm)
  unfolding each_key count_key send
  each_key-noted note prefix size key n trims sized [] stats = refl
  each_key-noted note prefix size key n trims sized (q ∷ qs) stats =
      rw (each_key, sized q, trims q)
        (each_key-noted note prefix size key n trims sized qs
          (put_stats (note (n q) (entry q stats)) stats))

  -- The record of the id can be decoded.
  abbrev pub Decodes : String → Type 0
  Decodes id =
      (d : c.Data) × (job : Job) × (value db (job_key id) ≡ text d) × (c.unmarshal d ≡ some job)

  abbrev queue_is : String → Option Job → Bool
  queue_is q none = false
  queue_is q (some job) = job.queue == q

  abbrev decoded : Value c.Data → Option Job
  decoded (text d) = c.unmarshal d
  decoded _ = none

  -- The ids whose record says that they belong to the queue.
  abbrev pub owned : String → List String → ℕ
  owned q [] = 0
  owned q (id ∷ ids) = tally (queue_is q (decoded (value db (job_key id)))) + owned q ids

  -- The loop over ids that can all be decoded.
  pub each_id-owned :
      (more : ℕ → QueueStats → QueueStats)
      → IsNote more
      → ((s : QueueStats) → more 0 s ≡ s)
      → ((l m : ℕ) (s : QueueStats) → more m (more l s) ≡ more (l + m) s)
      → (ids : List String) (stats : StatsMap) → Everyone Decodes ids
      → (stats' : StatsMap) × (each_id c r more ids stats calm ≡ (ok stats', calm))
        × ((k : String) → entry k stats' ≡ more (owned k ids) (entry k stats))
  unfolding each_id send call_get
  each_id-owned more law zero_more more_more [] stats e =
      (stats, refl, λ k. sym (zero_more (entry k stats)))
  each_id-owned more law zero_more more_more (id ∷ ids) stats ((d, job, holds, decodes), e) =
      let next = put_stats (more 1 (entry job.queue stats)) stats in
      let (stats', runs, counts) = each_id-owned more law zero_more more_more ids next e in
      (
        stats',
        rw (each_id, holds, decodes) runs,
        λ k.
            counts k
            ∙ rw (entry-note more law 1 job.queue stats k, holds, decodes)
                (elim (Bool-cases (job.queue == k)) [
                  | inl h ↦ rw h (more_more 1 (owned k ids) (entry k stats))
                  | inr h ↦ rw h (ap (λ i. more i (entry k stats)) (sym (zero_plus (owned k ids))))
                ]),
      )
