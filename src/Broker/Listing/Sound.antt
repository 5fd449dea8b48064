-- ===== src/Broker/Listing/Sound.antt =====
-- What GetJobsByStatus returns.
use mini_sidekiq.Prelude.{
  Everyone, Everyone-append, Everyone-take, Everyone-occurs, length-take_le, ℕ, ◌+◌, ◌-◌, ◌≤◌,
  String, ◌≡◌, ◌≢◌, refl, ◌∙◌, ◌⊎◌, inl, inr, List, [], ◌∷◌, ◌++◌, some, leb, length, length-append,
  take, arith, Bool-cases,
}
use mini_sidekiq.Exec.{Exec, Result, ok, err, network, continue}
use mini_sidekiq.Job.{Job}
use mini_sidekiq.Redis.{Redis, call_get, call_lrange}
use mini_sidekiq.Redis.Occurrences.{list_entries, read_list-like, occurs-list_entries}
use mini_sidekiq.Broker.Codec.{Codec}
use mini_sidekiq.Broker.Network.{World, read_cases, later_faults-ne}
use mini_sidekiq.Broker.Keys.{Place, place_key, job_key}
use mini_sidekiq.Broker.Shapes.{IsListPlace, Fits-list, occ}
use mini_sidekiq.Broker.Tracking.{Placement, Tracks, Stored, IsHome}
use mini_sidekiq.Broker.Tracking.Records.{at_place_pos, stored_at}
use mini_sidekiq.Broker.RedisBroker.Ending.{after_read}
use mini_sidekiq.Broker.Listing.{collect_ids, load_jobs, collect_ids_from_lists}

module _ (c : Codec) (r : Redis c.Data) (w : Placement) (Kind : Place → Type 0) where
  open r use {Db, value}

  -- The id stands at a place of the kind.
  abbrev pub StandsAt : String → Type 0
  StandsAt id = (p : Place) × (w id ≡ some p) × Kind p

  -- A call that only reads: it returns what is described, or it fails on the network, which takes a
  -- fault. The faults that are left come last.
  abbrev pub Reads : {A : Type 0} → (A → Type 0) → World Db → Result A × World Db → Type 0
  Reads {A} Good start (result, world) =
      (((result ≡ err network) × (start.faults ≢ [])) ⊎ ((a : A) × (result ≡ ok a) × Good a))
      × (world.db ≡ start.db)
      × (world.faults ≢ [] → start.faults ≢ [])

  -- What a later call returns, it returns from the start.
  Reads-late :
      {A : Type 0} {Good : A → Type 0} (world : World Db) (x : Result A × World Db)
      → Reads Good (after_read world) x
      → Reads Good world x
  Reads-late world x (inl (e, n), same, left) =
      (inl (e, later_faults-ne _ n), same, λ f. later_faults-ne _ (left f))
  Reads-late world x (inr g, same, left) = (inr g, same, λ f. later_faults-ne _ (left f))

  Reads-from :
      {A : Type 0} {Good : A → Type 0} (start world : World Db) (x : Result A × World Db)
      → world.db ≡ start.db
      → (world.faults ≢ [] → start.faults ≢ [])
      → Reads Good world x
      → Reads Good start x
  Reads-from start world x e f (inl (s, n), same, left) = (inl (s, f n), same ∙ e, λ h. f (left h))
  Reads-from start world x e f (inr g, same, left) = (inr g, same ∙ e, λ h. f (left h))

  entries-StandsAt :
      (db : Db) (p : Place)
      → Tracks c r db w
      → IsListPlace p
      → Kind p
      → Everyone StandsAt (list_entries (value db (place_key p)))
  unfolding occ
  entries-StandsAt db p t l kind =
      let z = Fits-list p _ l (t.shaped p) in
      Everyone-occurs StandsAt _ (λ a o. (
        p,
        at_place_pos (w a) p (ground (arith, o, occurs-list_entries a _ z, t.placed a p)),
        kind,
      ))

  -- The ids stand at places of the kind, and are not more than the limit.
  abbrev pub Collected : ℕ → List String → Type 0
  Collected limit ids = Everyone StandsAt ids × (length ids ≤ limit)

  -- Keys of lists of the kind.
  abbrev pub IsListKey : String → Type 0
  IsListKey key = (p : Place) × (key ≡ place_key p) × IsListPlace p × Kind p

  collect_ids-Reads :
      (limit : ℕ) (keys ids : List String) (world : World Db)
      → Tracks c r world.db w
      → Everyone IsListKey keys
      → Collected limit ids
      → Reads (Collected limit) world (collect_ids c r limit keys ids world)
  unfolding collect_ids call_lrange
  collect_ids-Reads limit [] ids world t ks h = (inr (ids, refl, h), refl, λ f. f)
  collect_ids-Reads limit (key ∷ keys) ids world t ((p, e, l, kind), ks) (h, k) =
      elim (Bool-cases (leb limit (length ids))) [
        | inl full ↦ rw (collect_ids, full) (inr (ids, refl, (h, k)), refl, λ f. f)
        | inr room ↦
            let z = Fits-list p _ l (t.shaped p) in
            let found = list_entries (value world.db (place_key p)) in
            let n = limit - length ids in
            let vals = take n found in
            elim (read_cases (call_lrange r (place_key p) n) world vals world.db
              (rw (read_list-like _ z) refl)) [
                | inl s ↦
                    rw (collect_ids, room, e, s)
                      (Reads-late world _ (
                        collect_ids-Reads limit keys (ids ++ vals) (after_read world) t ks (
                          Everyone-append StandsAt ids vals h (
                              Everyone-take StandsAt n found
                                (entries-StandsAt world.db p t l kind)),
                          omega (arith, k, length-append ids vals, length-take_le n found),
                        )))
                | inr (s, n) ↦
                    rw (collect_ids, room, e, s) (inl (refl, n), refl, later_faults-ne world.faults)
              ]
      ]

  -- Jobs that stand at places of the kind, with the right id and queue, no more than the limit.
  abbrev pub JobStands : Job → Type 0
  JobStands job = (p : Place) × (w job.id ≡ some p) × Kind p × IsHome p job.queue

  abbrev pub Loaded : ℕ → List Job → Type 0
  Loaded limit jobs = Everyone JobStands jobs × (length jobs ≤ limit)

  stored-JobStands :
      (db : Db) (id : String) (p : Place) (s : Stored c (value db (job_key id)) id p)
      → w id ≡ some p
      → Kind p
      → JobStands s.job
  stored-JobStands db id p s here kind = (p, rw s.own_id here, kind, s.home)

  load_jobs-Reads :
      (limit : ℕ) (ids : List String) (jobs : List Job) (world : World Db)
      → Tracks c r world.db w
      → Everyone StandsAt ids
      → Everyone JobStands jobs
      → length jobs + length ids ≤ limit
      → Reads (Loaded limit) world (load_jobs c r ids jobs world)
  unfolding load_jobs call_get
  load_jobs-Reads limit [] jobs world t h g k =
      (inr (jobs, refl, (g, omega (arith, k))), refl, λ f. f)
  load_jobs-Reads limit (id ∷ ids) jobs world t ((p, here, kind), h) g k =
      let s = stored_at c r world.db w id p t here in
      let more = s.job ∷ [] in
      elim (read_cases (call_get r (job_key id)) world (some s.stored) world.db (rw s.holds)) [
        | inl e ↦
            rw (load_jobs, e, s.decodes)
              (Reads-late world _ (
                load_jobs-Reads limit ids (jobs ++ more) (after_read world) t h
                  (Everyone-append JobStands jobs more g
                    (stored-JobStands world.db id p s here kind, tt))
                  (omega (arith, k, length-append jobs more))))
        | inr (e, n) ↦ rw (load_jobs, e) (inl (refl, n), refl, later_faults-ne world.faults)
      ]

  load_after-Reads :
      (limit : ℕ) (start : World Db) (x : Result (List String) × World Db)
      → Tracks c r start.db w
      → Reads (Collected limit) start x
      → Reads (Loaded limit) start (continue x.0 (λ ids. load_jobs c r ids []) x.1)
  load_after-Reads limit start x t (inl (e, n), same, left) = rw e (inl (refl, n), same, left)
  load_after-Reads limit start x t (inr (ids, e, (h, k)), same, left) =
      let t' : Tracks c r x.1.db w = rw same t in
      rw e (
        Reads-from start x.1 _ same left
          (load_jobs-Reads limit ids [] x.1 t' h tt (omega (arith, k))))

  module _ (scan : String → Exec Db (List String)) (start : World Db) where
    -- What SCAN documents of a store that nobody changes: the iteration returns keys that exist, of
    -- the kind that the pattern asks for, and changes nothing.
    pub record Scans (pattern : String) : Type 0 where
      pub keys : List String
      pub found : scan pattern start.db ≡ (ok keys, start.db)
      pub kinds : Everyone IsListKey keys

    collect_ids_from_lists-Reads :
        (pattern : String) (limit : ℕ)
        → Tracks c r start.db w
        → Scans pattern
        → Reads (Collected limit) start (collect_ids_from_lists c r scan pattern limit start)
    unfolding collect_ids_from_lists
    collect_ids_from_lists-Reads pattern limit t s =
        elim (read_cases (scan pattern) start s.keys start.db s.found) [
          | inl e ↦ rw e (
              Reads-late start _
                (collect_ids-Reads limit s.keys [] (after_read start) t s.kinds (tt, omega arith)))
          | inr (e, n) ↦ rw e (inl (refl, n), refl, later_faults-ne start.faults)
        ]

    pub jobs-Reads :
        (pattern : String) (limit : ℕ)
        → Tracks c r start.db w
        → Scans pattern
        → Reads (Loaded limit) start (
            let (ids, next) = collect_ids_from_lists c r scan pattern limit start in
            continue ids (λ l. load_jobs c r l []) next)
    jobs-Reads pattern limit t s =
        load_after-Reads limit start (collect_ids_from_lists c r scan pattern limit start) t
          (collect_ids_from_lists-Reads pattern limit t s)
