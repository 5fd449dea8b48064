-- ===== src/Broker/PostgresBroker/Reviving.antt =====
-- RetryDeadJob on Postgres: when it succeeds.
use mini_sidekiq.Prelude.{
  ℕ, String, Bool, true, false, ◌≡◌, ◌≢◌, refl, sym, ◌∙◌, inl, inr, [], ◌∷◌, Option, none, some,
  ◌==◌, ◌&&◌, ◌||◌, eq_iff, eq_refl, arith, Bool-cases, ==-false_of_ne,
}
use mini_sidekiq.Exec.{Exec, Result, ok, err, not_dead, unique_violation, pure, raise}
use mini_sidekiq.Job.{dead, pending}
use mini_sidekiq.Broker.Network.{World}
use mini_sidekiq.Broker.Postgres.Table.{
  Row, Table, is_live, same_key, clash, conflicts, IsTable, find_row, others,
}
use mini_sidekiq.Broker.Postgres.Rows.{
  find_row-id, find_row-others, conflicts-clash, others-IsTable, conflicts-find_row, cons-conflicts,
}
use mini_sidekiq.Broker.Postgres.Statements.{update_row_if}
use mini_sidekiq.Broker.Postgres.Server.{PostgresServer, Database}
use mini_sidekiq.Broker.PostgresBroker.{revived_row, has_status, status_text, retry_dead_job}
use mini_sidekiq.Broker.PostgresBroker.Outcome.{Ends, sql-Ends}
use mini_sidekiq.Broker.PostgresBroker.Settling.{changed, IsKept, Rewrites, changed-Rewrites}

found_later :
    (id : String) (a : Row) (rows : Table) {b : Row}
    → conflicts a rows ≡ false
    → find_row id rows ≡ some b
    → find_row id (a ∷ rows) ≡ some b
unfolding find_row
found_later id a rows h f = elim (Bool-cases (a.id == id)) [
  | inl e ↦
      let gone : find_row id rows ≡ none =
        rw (← (eq_iff a.id id).0 e) (conflicts-find_row a rows h) in
      absurd (ground (arith, f, gone))
  | inr e ↦ rw e f
]

found_head : (a : Row) (rows : Table) → find_row a.id (a ∷ rows) ≡ some a
unfolding find_row
found_head a rows = rw (eq_refl a.id) refl

-- A row that clashes with no row of the table fits in.
pub fits_of_find_row :
    (a : Row) (rows : Table)
    → IsTable rows
    → ((b : Row) → find_row b.id rows ≡ some b → clash a b ≡ false)
    → conflicts a rows ≡ false
unfolding conflicts
fits_of_find_row a [] t h = refl
fits_of_find_row a (c ∷ rows) (k, t) h =
    cons-conflicts a c rows (h c (found_head c rows))
      (fits_of_find_row a rows t (λ b f. h b (found_later b.id c rows k f)))

or_true : (x : Bool) → (x || true) ≡ true
or_true true = refl
or_true false = refl

and_false : (x y z : Bool) → (y && z) ≡ false → (x && y && z) ≡ false
and_false x y z h = ground (arith, h)

-- A live row with the same unique key and another id clashes.
pub key-clash :
    (a b : Row) (key : String)
    → is_live a.status ≡ true
    → is_live b.status ≡ true
    → a.unique_key ≡ some key
    → b.unique_key ≡ some key
    → clash a b ≡ true
unfolding clash same_key
key-clash a b key la lb ka kb = rw (la, lb, ka, kb, eq_refl key) (or_true (a.id == b.id))

no-clash :
    (a b : Row)
    → a.id ≢ b.id
    → (is_live b.status ≡ true → same_key a.unique_key b.unique_key ≡ false)
    → clash a b ≡ false
unfolding clash
no-clash a b ne free = elim (Bool-cases (is_live b.status)) [
  | inl l ↦
      rw (==-false_of_ne a.id b.id ne, l, free l) (and_false (is_live a.status) true false refl)
  | inr l ↦
      rw (==-false_of_ne a.id b.id ne, l)
        (and_false (is_live a.status) false (same_key a.unique_key b.unique_key) refl)
]

clash-conflicts :
    (a : Row) (id : String) (rows : Table) {b : Row}
    → find_row id rows ≡ some b
    → clash a b ≡ true
    → conflicts a rows ≡ true
clash-conflicts a id rows f c = elim (Bool-cases (conflicts a rows)) [
  | inl h ↦ h
  | inr h ↦ absurd (ground (arith, c, conflicts-clash a id rows h f))
]

-- A row that is found among the others is another one.
other_row :
    (j id : String) (rows : Table) {b : Row}
    → find_row j (others id rows) ≡ some b
    → (id ≢ j) × (find_row j rows ≡ some b)
other_row j id rows f = elim (Bool-cases (id == j)) [
  | inl e ↦ absurd (ground (arith, f, rw e at (find_row-others j id rows)))
  | inr e ↦ (
    (λ same. absurd (ground (arith, e, eq_iff id j, same))),
    sym (rw e at (find_row-others j id rows)) ∙ f,
  )
]

abbrev pub retry_rest : Option Row → Exec (World Database) (Unit {0})
retry_rest affected = elim affected [ none ↦ raise not_dead | some a ↦ pure tt ]

abbrev retry_finish : Option Row → Result (Unit {0})
retry_finish affected = elim affected [ none ↦ err not_dead | some a ↦ ok tt ]

retry_rest_lem : (o : Option Row) (w : World Database) → retry_rest o w ≡ (retry_finish o, w)
retry_rest_lem none w = refl
retry_rest_lem (some a) w = refl

-- The row is pending and due, has no attempts and no error, and is else as it was.
abbrev pub IsRevived : ℕ → Row → Row → Type 0
IsRevived now a b =
    IsKept a b
    × (b.status ≡ pending)
    × (b.attempts ≡ 0)
    × (b.last_error ≡ "")
    × (b.process_at ≡ now)
    × (b.updated_at ≡ now)

module _ (pg : PostgresServer) (start : World Database) (t : IsTable start.db.rows) (id : String)
    (a : Row) (found : find_row id start.db.rows ≡ some a) where
  open pg use {tie}

  revived : Row
  revived = revived_row start.db.now a

  own : a.id ≡ id
  own = find_row-id id start.db.rows found

  no-clash-others :
      ((b : Row)
        → find_row b.id start.db.rows ≡ some b
        → is_live b.status ≡ true
        → same_key a.unique_key b.unique_key ≡ false)
      → (b : Row) → find_row b.id (others a.id start.db.rows) ≡ some b
      → clash revived b ≡ false
  unfolding revived
  no-clash-others free b there =
      let (ne, stays) = other_row b.id a.id start.db.rows there in
      no-clash revived b ne (free b stays)

  retry_dead-changed :
      a.status ≡ dead
      → ((b : Row)
          → find_row b.id start.db.rows ≡ some b
          → is_live b.status ≡ true
          → same_key a.unique_key b.unique_key ≡ false)
      → Ends start
          (ok tt)
          (changed id (revived_row start.db.now) start.db.rows)
          (retry_dead_job pg id start)
  unfolding retry_dead_job update_row_if revived
  retry_dead-changed is_dead free =
      let statement = λ (now : ℕ) (locked : String → Bool).
        update_row_if id (has_status dead) (revived_row now) in
      let rows = start.db.rows in
      let fits : conflicts revived (others a.id rows) ≡ false =
        fits_of_find_row revived (others a.id rows) (others-IsTable a.id rows t)
          (no-clash-others free) in
      let runs : statement start.db.now start.db.locked rows
          ≡ (ok (some revived), changed id (revived_row start.db.now) rows) =
        rw (changed, found, is_dead, fits) refl in
      sql-Ends statement start retry_finish retry_rest (ok (some revived))
        (changed id (revived_row start.db.now) rows) retry_rest_lem runs

  -- RetryDeadJob on Postgres of a dead job whose unique key no other live row has succeeds: the
  -- row of the job is pending and due now, has no attempts and no error, and is else as it was,
  -- and so are the other rows. Or it fails on the network, with this change made or not.
  pub retry_dead-Ends :
      a.status ≡ dead
      → ((b : Row)
          → find_row b.id start.db.rows ≡ some b
          → is_live b.status ≡ true
          → same_key a.unique_key b.unique_key ≡ false)
      → (rows : Table) × Rewrites (IsRevived start.db.now) id start.db.rows rows
        × Ends start (ok tt) rows (retry_dead_job pg id start)
  retry_dead-Ends is_dead free = (
    changed id (revived_row start.db.now) start.db.rows,
    changed-Rewrites (IsRevived start.db.now) id (revived_row start.db.now) start.db.rows
        (λ b. ((refl, refl, refl, refl, refl, refl, refl, refl), refl, refl, refl, refl, refl))
        (λ b. refl),
    retry_dead-changed is_dead free,
  )

  -- RetryDeadJob of a dead job whose unique key another live job has meanwhile: the constraint
  -- refuses it, and nothing changes.
  pub retry_dead-taken :
      (b : Row) (key : String)
      → a.status ≡ dead
      → find_row b.id start.db.rows ≡ some b
      → a.id ≢ b.id
      → is_live b.status ≡ true
      → a.unique_key ≡ some key
      → b.unique_key ≡ some key
      → Ends start (err unique_violation) start.db.rows (retry_dead_job pg id start)
  unfolding retry_dead_job update_row_if revived is_live
  retry_dead-taken b key is_dead there ne live ka kb =
      let statement = λ (now : ℕ) (locked : String → Bool).
        update_row_if id (has_status dead) (revived_row now) in
      let rows = start.db.rows in
      let stays : find_row b.id (others a.id rows) ≡ some b =
        find_row-others b.id a.id rows ∙ rw (==-false_of_ne a.id b.id ne) there in
      let taken : conflicts revived (others a.id rows) ≡ true =
        clash-conflicts revived b.id (others a.id rows) stays
          (key-clash revived b key refl live ka kb) in
      let runs : statement start.db.now start.db.locked rows ≡ (err unique_violation, rows) =
        rw (found, is_dead, taken) refl in
      sql-Ends statement start retry_finish retry_rest (err unique_violation) rows retry_rest_lem
        runs

  -- RetryDeadJob of a job that is not dead is refused, and nothing changes.
  pub retry_dead-refused :
      (status_text a.status == "dead") ≡ false
      → Ends start (err not_dead) start.db.rows (retry_dead_job pg id start)
  unfolding retry_dead_job update_row_if
  retry_dead-refused alive =
      let statement = λ (now : ℕ) (locked : String → Bool).
        update_row_if id (has_status dead) (revived_row now) in
      let rows = start.db.rows in
      let runs : statement start.db.now start.db.locked rows ≡ (ok none, rows) =
        rw (found, alive) refl in
      sql-Ends statement start retry_finish retry_rest (ok none) rows retry_rest_lem runs
