-- ===== src/Broker/Counting/Depths.antt =====
-- What GetQueueStats counts.
use mini_sidekiq.Prelude.{
  ℕ, ◌+◌, String, ◌≡◌, refl, ap, ◌∙◌, false, List, map, occurs, Everyone, Everyone-occurs,
  plus_zero, if◌then◌else◌, arith,
}
use mini_sidekiq.Exec.{Exec, ok}
use mini_sidekiq.Redis.{Redis, call_llen, call_zcard, call_zrange}
use mini_sidekiq.Redis.Values.{missing, members}
use mini_sidekiq.Redis.Occurrences.{IsZsetLike, zset_entries, read_zset-like, occurs-zset_entries}
use mini_sidekiq.Broker.Codec.{Codec}
use mini_sidekiq.Broker.Network.{send}
use mini_sidekiq.Broker.Stats.{QueueStats, StatsMap, no_queues, no_stats, entry, for_queue}
use mini_sidekiq.Broker.Keys.{
  Place, in_queue, in_retry, in_dead, in_active, in_scheduled, place_key, queue_key, retry_key,
  dead_key, active_key, scheduled_key,
}
use mini_sidekiq.Broker.Shapes.{occ}
use mini_sidekiq.Broker.Tracking.{Placement, Tracks}
use mini_sidekiq.Broker.Tracking.Records.{at_place_pos, stored_at}
use mini_sidekiq.Broker.Counting.{
  trim_prefix, note_enqueued, note_retry, note_dead, more_scheduled, more_active, count_key,
  attribute_global_set_to_queues, scan_each, get_queue_stats,
}
use mini_sidekiq.Broker.Counting.Phases.{
  IsNote, trim_prefix-append, noted, entry-noted, calm, each_key-noted, Decodes, owned,
  each_id-owned,
}
use mini_sidekiq.Broker.Counting.Sizes.{
  enqueued-IsNote, retry-IsNote, dead-IsNote, scheduled-IsNote, active-IsNote, plus_assoc,
  zero_plus, noted_or_zero, depth, list_size, zset_size,
}

module _ (c : Codec) (r : Redis c.Data) (scan : String → Exec r.Db (List String)) (db : r.Db) where
  open r use {Db, value}

  -- What SCAN documents of a store that nobody changes: a full iteration returns the keys of the
  -- pattern, some of them perhaps more than once, leaves none out that exists, and changes nothing.
  pub record Iterates (pattern : String) (key : String → String) : Type 0 where
    pub queues : List String
    pub found : scan pattern db ≡ (ok (map key queues), db)
    pub complete : (q : String) → occurs q queues ≡ false → value db (key q) ≡ missing

  scan_each-noted :
      (note : ℕ → QueueStats → QueueStats) (prefix pattern : String) (size : String → Exec Db ℕ)
      (key : String → String) (i : Iterates pattern key) (stats : StatsMap)
      → ((q : String) → trim_prefix (key q) prefix ≡ q)
      → ((q : String) → size (key q) db ≡ (ok (depth (value db (key q))), db))
      → scan_each c r scan pattern (count_key c r prefix size note) stats (calm c r db)
        ≡ (ok (noted note (λ q. depth (value db (key q))) i.queues stats), calm c r db)
  unfolding scan_each send
  scan_each-noted note prefix pattern size key i stats trims sized = rw i.found (
      each_key-noted c r db note prefix size key (λ q. depth (value db (key q))) trims sized
        i.queues stats)

  module _ (w : Placement) (t : Tracks c r db w) where
    queue_size :
        (q : String) → call_llen r (queue_key q) db ≡ (ok (depth (value db (queue_key q))), db)
    unfolding call_llen
    queue_size q = ap (λ x. (x, db)) (list_size _ (t.shaped (in_queue q)))

    retry_size :
        (q : String) → call_zcard r (retry_key q) db ≡ (ok (depth (value db (retry_key q))), db)
    unfolding call_zcard
    retry_size q = ap (λ x. (x, db)) (zset_size _ (t.shaped (in_retry q)))

    dead_size :
        (q : String) → call_llen r (dead_key q) db ≡ (ok (depth (value db (dead_key q))), db)
    unfolding call_llen
    dead_size q = ap (λ x. (x, db)) (list_size _ (t.shaped (in_dead q)))

    -- The members of one of the sorted sets that all queues share.
    abbrev pub members_at : String → List String
    members_at key = members (zset_entries (value db key))

    member-Decodes :
        (p : Place)
        → IsZsetLike (value db (place_key p))
        → Everyone (Decodes c r db) (members_at (place_key p))
    unfolding occ
    member-Decodes p z = Everyone-occurs (Decodes c r db) (members_at (place_key p)) (λ a o.
        let here =
          at_place_pos (w a) p (ground (arith, o, occurs-zset_entries a _ z, t.placed a p)) in
        let s = stored_at c r db w a p t here in (s.stored, s.job, s.holds, s.decodes))

    attribute-owned :
        (more : ℕ → QueueStats → QueueStats) (p : Place)
        → IsZsetLike (value db (place_key p))
        → IsNote more
        → ((s : QueueStats) → more 0 s ≡ s)
        → ((l m : ℕ) (s : QueueStats) → more m (more l s) ≡ more (l + m) s)
        → (stats : StatsMap)
        → (stats' : StatsMap) × (attribute_global_set_to_queues c r
              (place_key p)
              more
              stats
              (calm c r db)
            ≡ (ok stats', calm c r db))
          × ((k : String)
              → entry k stats' ≡ more (owned c r db k (members_at (place_key p))) (entry k stats))
    unfolding attribute_global_set_to_queues send call_zrange
    attribute-owned more p z law zero_more more_more stats =
        let (stats', runs, counts) =
          each_id-owned c r db more law zero_more more_more (members_at (place_key p)) stats
            (member-Decodes p z) in
        (stats', rw (read_zset-like _ z) runs, counts)

    -- The numbers of a queue: how many ids its lists and sorted sets hold, and how many of the shared
    -- sorted sets have a record that names it.
    abbrev pub numbers : String → QueueStats
    numbers q = record {
      queue = q;
      enqueued = depth (value db (queue_key q));
      retry = depth (value db (retry_key q));
      scheduled = owned c r db q (members_at scheduled_key);
      active = owned c r db q (members_at active_key);
      error = 0;
      dead = depth (value db (dead_key q));
    }

    after_scans :
        (qs : Iterates "sidekiq:queue:*" queue_key) (rs : Iterates "sidekiq:retry:*" retry_key)
        (ds : Iterates "sidekiq:dead:*" dead_key)
        → StatsMap
    after_scans qs rs ds =
        noted note_dead (λ q. depth (value db (dead_key q))) ds.queues
          (noted note_retry (λ q. depth (value db (retry_key q))) rs.queues
            (noted note_enqueued (λ q. depth (value db (queue_key q))) qs.queues no_queues))

    entry-scanned :
        (note : ℕ → QueueStats → QueueStats) (pattern : String) (key : String → String)
        (i : Iterates pattern key) (stats : StatsMap) (q : String) (s : QueueStats)
        → IsNote note
        → ((l m : ℕ) (x : QueueStats) → note m (note l x) ≡ note m x)
        → entry q stats ≡ s
        → note 0 s ≡ s
        → entry q (noted note (λ k. depth (value db (key k))) i.queues stats)
          ≡ note (depth (value db (key q))) s
    entry-scanned note pattern key i stats q s law over e z =
        let n = λ (k : String). depth (value db (key k)) in
        entry-noted note law n over i.queues stats q
        ∙ ap (λ x. if occurs q i.queues then note (n q) x else x) e
        ∙ noted_or_zero (occurs q i.queues) note (n q) s (λ o. ap depth (i.complete q o)) z

    entry-after_scans :
        (qs : Iterates "sidekiq:queue:*" queue_key) (rs : Iterates "sidekiq:retry:*" retry_key)
        (ds : Iterates "sidekiq:dead:*" dead_key) (q : String)
        → entry q (after_scans qs rs ds) ≡ record (numbers q) { scheduled = 0; active = 0 }
    unfolding after_scans for_queue
    entry-after_scans qs rs ds q =
        entry-scanned note_dead "sidekiq:dead:*" dead_key ds _ q _ dead-IsNote (λ l m x. refl)
          (entry-scanned note_retry "sidekiq:retry:*" retry_key rs _ q _ retry-IsNote
            (λ l m x. refl)
            (entry-scanned note_enqueued "sidekiq:queue:*" queue_key qs no_queues q
              (for_queue q (no_stats "")) enqueued-IsNote (λ l m x. refl) refl refl)
            refl)
          refl

    -- GetQueueStats without network faults, in a store that nobody changes meanwhile, when SCAN leaves
    -- out no key: it succeeds, changes nothing, and has for each queue the numbers of its jobs that
    -- are waiting, to be retried and dead, and the numbers of scheduled and running jobs whose record
    -- names the queue; a queue without an entry has none of these.
    pub get_queue_stats-numbers :
        Iterates "sidekiq:queue:*" queue_key
        → Iterates "sidekiq:retry:*" retry_key
        → Iterates "sidekiq:dead:*" dead_key
        → (stats : StatsMap) × (get_queue_stats c r scan (calm c r db) ≡ (ok stats, calm c r db))
          × ((q : String) → entry q stats ≡ numbers q)
    unfolding get_queue_stats after_scans queue_key retry_key dead_key
    get_queue_stats-numbers qs rs ds =
        let (scheduled, runs, more) =
          attribute-owned more_scheduled in_scheduled (t.shaped in_scheduled) scheduled-IsNote
            (λ s. ap (λ n. record s { scheduled = n }) (plus_zero s.scheduled))
            (λ l m s. ap (λ n. record s { scheduled = n }) (plus_assoc s.scheduled l m))
            (after_scans qs rs ds) in
        let (stats, runs', more') =
          attribute-owned more_active in_active (t.shaped in_active) active-IsNote
            (λ s. ap (λ n. record s { active = n }) (plus_zero s.active))
            (λ l m s. ap (λ n. record s { active = n }) (plus_assoc s.active l m)) scheduled in
        (
          stats,
          rw
              (
                scan_each-noted note_enqueued "sidekiq:queue:" "sidekiq:queue:*" (call_llen r)
                    queue_key qs no_queues (trim_prefix-append "sidekiq:queue:") queue_size,
                scan_each-noted note_retry "sidekiq:retry:" "sidekiq:retry:*" (call_zcard r)
                    retry_key rs _ (trim_prefix-append "sidekiq:retry:") retry_size,
                scan_each-noted note_dead "sidekiq:dead:" "sidekiq:dead:*" (call_llen r) dead_key ds
                    _ (trim_prefix-append "sidekiq:dead:") dead_size,
                runs,
              )
              runs',
          (λ q.
              more' q
              ∙ ap (more_active _) (more q ∙ ap (more_scheduled _) (entry-after_scans qs rs ds q))
              ∙ rw
                  (
                    zero_plus (owned c r db q (members_at scheduled_key)),
                    zero_plus (owned c r db q (members_at active_key)),
                  )
                  refl),
        )
