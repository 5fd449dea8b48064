-- ===== src/Broker/PostgresBroker/Page.antt =====
-- GetJobsByStatus on Postgres.
use mini_sidekiq.Prelude.{
  ℕ, zero, suc, ◌≤◌, Bool, true, false, ◌≡◌, ◌≢◌, refl, ap, inl, inr, List, [], ◌∷◌, ◌++◌, map,
  take, length, arith, Bool-cases, Everyone, Everyone-take, length-take_le,
}
use mathlib.Core.List.{Perm}
use mathlib.Core.List.Perm
use mini_sidekiq.Exec.{ok, pure}
use mini_sidekiq.Job.{Job, JobStatus}
use mini_sidekiq.Broker.Network.{World}
use mini_sidekiq.Broker.Postgres.Table.{Row, Table}
use mini_sidekiq.Broker.Postgres.Statements.{newer, place_row, sort_rows, where_rows, select_rows}
use mini_sidekiq.Broker.Postgres.Server.{PostgresServer, Database}
use mini_sidekiq.Broker.PostgresBroker.{has_status, scan_job, get_jobs_by_status}
use mini_sidekiq.Broker.PostgresBroker.Outcome.{Ends, sql-Ends}

abbrev pub NotOlder : Row → Row → Type 0
NotOlder a b = b.updated_at ≤ a.updated_at

abbrev pub NewestFirst : List Row → Type 0
NewestFirst [] = Unit {0}
NewestFirst (a ∷ l) = Everyone (NotOlder a) l × NewestFirst l

module _ (tie : Row → Row → Bool) where
  newer-NotOlder : (a b : Row) → newer tie a b ≡ true → NotOlder a b
  newer-NotOlder a b h = ground arith

  not_newer-NotOlder : (a b : Row) → newer tie b a ≡ false → NotOlder a b
  not_newer-NotOlder a b h = ground arith

  NotOlder-trans :
      (a b : Row) (l : List Row) → NotOlder a b → Everyone (NotOlder b) l → Everyone (NotOlder a) l
  NotOlder-trans a b [] h e = tt
  NotOlder-trans a b (c ∷ l) h (k, e) = (omega (arith, h, k), NotOlder-trans a b l h e)

  place_row-Perm : (a : Row) (rows : Table) → Perm (place_row tie a rows) (a ∷ rows)
  unfolding place_row
  place_row-Perm a [] = Perm.rfl
  place_row-Perm a (b ∷ rows) = elim (Bool-cases (newer tie b a)) [
    | inl h ↦ rw h (Perm.trans (Perm.cons b (place_row-Perm a rows)) (Perm.swap a b rows))
    | inr h ↦ rw h Perm.rfl
  ]

  sort_rows-Perm : (rows : Table) → Perm (sort_rows tie rows) rows
  unfolding sort_rows
  sort_rows-Perm [] = Perm.rfl
  sort_rows-Perm (a ∷ rows) =
      Perm.trans (place_row-Perm a (sort_rows tie rows)) (Perm.cons a (sort_rows-Perm rows))

  place_row-Everyone :
      (P : Row → Type 0) (a : Row) (rows : Table)
      → P a
      → Everyone P rows
      → Everyone P (place_row tie a rows)
  unfolding place_row
  place_row-Everyone P a [] p e = (p, tt)
  place_row-Everyone P a (b ∷ rows) p (q, e) = elim (Bool-cases (newer tie b a)) [
    | inl h ↦ rw h (q, place_row-Everyone P a rows p e)
    | inr h ↦ rw h (p, (q, e))
  ]

  sort_rows-Everyone :
      (P : Row → Type 0) (rows : Table) → Everyone P rows → Everyone P (sort_rows tie rows)
  unfolding sort_rows
  sort_rows-Everyone P [] e = tt
  sort_rows-Everyone P (a ∷ rows) (p, e) =
      place_row-Everyone P a (sort_rows tie rows) p (sort_rows-Everyone P rows e)

  place_row-NewestFirst :
      (a : Row) (rows : Table) → NewestFirst rows → NewestFirst (place_row tie a rows)
  unfolding place_row
  place_row-NewestFirst a [] s = (tt, tt)
  place_row-NewestFirst a (b ∷ rows) (e, s) = elim (Bool-cases (newer tie b a)) [
    | inl h ↦ rw h (
      place_row-Everyone (NotOlder b) a rows (newer-NotOlder b a h) e,
      place_row-NewestFirst a rows s,
    )
    | inr h ↦
        let first = not_newer-NotOlder a b h in
        rw h ((first, NotOlder-trans a b rows first e), (e, s))
  ]

  sort_rows-NewestFirst : (rows : Table) → NewestFirst (sort_rows tie rows)
  unfolding sort_rows
  sort_rows-NewestFirst [] = tt
  sort_rows-NewestFirst (a ∷ rows) =
      place_row-NewestFirst a (sort_rows tie rows) (sort_rows-NewestFirst rows)

where_rows-Everyone :
    (p : Row → Bool) (rows : Table) → Everyone (λ a. p a ≡ true) (where_rows p rows)
unfolding where_rows
where_rows-Everyone p [] = tt
where_rows-Everyone p (a ∷ rows) = elim (Bool-cases (p a)) [
  | inl h ↦ rw h (h, where_rows-Everyone p rows)
  | inr h ↦ rw h (where_rows-Everyone p rows)
]

-- The first elements, the rest, and when there is a rest.
cut :
    (n : ℕ) (l : List Row)
    → (rest : List Row) × (take n l ++ rest ≡ l) × (rest ≢ [] → length (take n l) ≡ n)
cut zero l = (l, refl, λ h. refl)
cut (suc n) [] = ([], refl, λ h. absurd (h refl))
cut (suc n) (a ∷ l) = let (rest, e, f) = cut n l in (rest, ap (◌∷◌ a) e, λ h. ap suc (f h))

-- The rows of a page among those of the table.
pub record IsPage (status : JobStatus) (limit : ℕ) (rows : Table) (jobs : List Job) : Type 0 where
  pub listed : List Row
  pub rest : List Row
  pub shown : jobs ≡ map scan_job listed
  pub matching : Everyone (λ a. has_status status a ≡ true) listed
  pub all_matching : Perm (listed ++ rest) (where_rows (has_status status) rows)
  pub newest : NewestFirst (listed ++ rest)
  pub bounded : length listed ≤ limit
  pub filled : rest ≢ [] → length listed ≡ limit

module _ (pg : PostgresServer) where
  open pg use {tie}

  page :
      (status : JobStatus) (limit : ℕ) (rows : Table)
      → let sorted = sort_rows tie (where_rows (has_status status) rows) in
        IsPage status limit rows (map scan_job (take limit sorted))
  page status limit rows =
      let p = has_status status in
      let sorted = sort_rows tie (where_rows p rows) in
      let (rest, whole, full) = cut limit sorted in
      record {
        listed = take limit sorted;
        rest = rest;
        shown = refl;
        matching =
            Everyone-take (λ a. p a ≡ true) limit sorted
              (sort_rows-Everyone tie (λ a. p a ≡ true) (where_rows p rows)
                (where_rows-Everyone p rows));
        all_matching = rw whole (sort_rows-Perm tie (where_rows p rows));
        newest = rw whole (sort_rows-NewestFirst tie (where_rows p rows));
        bounded = length-take_le limit sorted;
        filled = full;
      }

  -- GetJobsByStatus, whatever the network does: it changes nothing, and when it succeeds it returns
  -- the jobs of the given status that were updated last, latest first, as many as the limit, or all
  -- if there are fewer.
  pub get_jobs-IsPage :
      (status : JobStatus) (limit : ℕ) (start : World Database)
      → (jobs : List Job) × IsPage status limit start.db.rows jobs
        × Ends start (ok jobs) start.db.rows (get_jobs_by_status pg status limit start)
  unfolding get_jobs_by_status select_rows
  get_jobs-IsPage status limit start =
      let listed = take limit (sort_rows tie (where_rows (has_status status) start.db.rows)) in
      (
        map scan_job listed,
        page status limit start.db.rows,
        sql-Ends (λ now locked. select_rows tie (has_status status) limit) start
            (λ l. ok (map scan_job l)) (λ l. pure (map scan_job l)) (ok listed) start.db.rows
            (λ v w. refl) refl,
      )
