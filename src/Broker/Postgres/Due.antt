-- ===== src/Broker/Postgres/Due.antt =====
-- The subquery of Dequeue: which row it finds.
use mini_sidekiq.Prelude.{
  ℕ, ◌≤◌, ◌<◌, String, ◌≡◌, refl, subst, ◌∙◌, eq_refl, ◌⊎◌, inl, inr, Bool, true, false, not, ◌&&◌,
  [], ◌∷◌, Option, none, some, ◌==◌, if◌then◌else◌, leb, leb→le, eq_iff, arith, Bool-cases,
  Everyone,
}
use mini_sidekiq.Exec.{ok}
use mini_sidekiq.Job.{JobStatus, pending, active, retry, dead, completed, other}
use mini_sidekiq.Broker.Postgres.Table.{Row, Table, is_live, conflicts, IsTable, find_row, replace}
use mini_sidekiq.Broker.Postgres.Rows.{conflicts-find_row}
use mini_sidekiq.Broker.Postgres.Updates.{Milder, Milder-fits}
use mini_sidekiq.Broker.Postgres.Statements.{
  is_due, is_waiting, runs_before, sooner, first_due, claim_row,
}

-- The first of two rows has the smaller priority, or the same and an earlier time or the same.
abbrev pub NoLater : Row → Row → Type 0
NoLater a b =
    (a.priority < b.priority) ⊎ ((a.priority ≡ b.priority) × (a.process_at ≤ b.process_at))

NoLater-trans : (a b c : Row) → NoLater a b → NoLater b c → NoLater a c
NoLater-trans a b c h k = ground arith

module _ (tie : Row → Row → Bool) where
  before-NoLater : (a b : Row) → runs_before tie a b ≡ true → NoLater a b
  before-NoLater a b h = ground arith

  not_before-NoLater : (a b : Row) → runs_before tie b a ≡ false → NoLater a b
  not_before-NoLater a b h = ground arith

  module _ (locked : String → Bool) (queue : String) (now : ℕ) where
    -- Due, and not locked by another transaction.
    unfoldable pub is_free : Row → Bool
    is_free a = is_due queue now a && not (locked a.id)

    abbrev pub Beaten : Row → Row → Type 0
    Beaten a b = is_free b ≡ true → NoLater a b

    Beaten-trans :
        (a b : Row) (rows : Table)
        → NoLater a b
        → Everyone (Beaten b) rows
        → Everyone (Beaten a) rows
    Beaten-trans a b [] h e = tt
    Beaten-trans a b (c ∷ rows) h (k, e) =
        (λ d. NoLater-trans a b c h (k d), Beaten-trans a b rows h e)

    -- What the subquery finds.
    abbrev pub Finds : Table → Option Row → Type 0
    Finds rows none = Everyone (λ b. is_free b ≡ false) rows
    Finds rows (some a) =
        (find_row a.id rows ≡ some a) × (is_free a ≡ true) × Everyone (Beaten a) rows

    first_due-cons :
        (a : Row) (rows : Table) (free : Bool)
        → is_free a ≡ free
        → let rest = first_due tie locked queue now rows in
          first_due tie locked queue now (a ∷ rows)
          ≡ (if free then some (sooner tie a rest) else rest)
    unfolding first_due is_free
    first_due-cons a rows free e = rw e refl

    find_row-cons :
        (id : String) (a : Row) (rows : Table)
        → find_row id (a ∷ rows) ≡ (if a.id == id then some a else find_row id rows)
    unfolding find_row
    find_row-cons id a rows = refl

    Finds-cons :
        (a b : Row) (rows : Table)
        → conflicts a rows ≡ false
        → find_row b.id rows ≡ some b
        → find_row b.id (a ∷ rows) ≡ some b
    Finds-cons a b rows h f = elim (Bool-cases (a.id == b.id)) [
      | inl e ↦
          let none_there : find_row b.id rows ≡ none =
            rw (← (eq_iff a.id b.id).0 e) (conflicts-find_row a rows h) in
          absurd (ground (arith, f, none_there))
      | inr e ↦ find_row-cons b.id a rows ∙ rw e f
    ]

    free-Beaten :
        (a : Row) (rows : Table) → Everyone (λ b. is_free b ≡ false) rows → Everyone (Beaten a) rows
    free-Beaten a [] e = tt
    free-Beaten a (b ∷ rows) (h, e) = ((λ d. absurd (ground (arith, h, d))), free-Beaten a rows e)

    NoLater-self : (a : Row) → NoLater a a
    NoLater-self a = ground arith

    found_self : (a : Row) (rows : Table) → find_row a.id (a ∷ rows) ≡ some a
    found_self a rows = find_row-cons a.id a rows ∙ rw (eq_refl a.id) refl

    found_first :
        (a : Row) (rows : Table) (o : Option Row)
        → conflicts a rows ≡ false
        → is_free a ≡ true
        → Finds rows o
        → Finds (a ∷ rows) (some (sooner tie a o))
    found_first a rows none h d f =
        (found_self a rows, d, ((λ d'. NoLater-self a), free-Beaten a rows f))
    found_first a rows (some b) h d (found, k, e) = elim (Bool-cases (runs_before tie b a)) [
      | inl s ↦
          let same : b ≡ sooner tie a (some b) = rw s refl in
          subst (λ x. Finds (a ∷ rows) (some x)) same
            (Finds-cons a b rows h found, k, ((λ d'. before-NoLater b a s), e))
      | inr s ↦
          let same : a ≡ sooner tie a (some b) = rw s refl in
          subst (λ x. Finds (a ∷ rows) (some x)) same
            (
              found_self a rows,
              d,
              ((λ d'. NoLater-self a), Beaten-trans a b rows (not_before-NoLater a b s) e),
            )
    ]

    passed_over :
        (a : Row) (rows : Table) (o : Option Row)
        → conflicts a rows ≡ false
        → is_free a ≡ false
        → Finds rows o
        → Finds (a ∷ rows) o
    passed_over a rows none h d f = (d, f)
    passed_over a rows (some b) h d (found, k, e) =
        (Finds-cons a b rows h found, k, ((λ d'. absurd (ground (arith, d, d'))), e))

    -- The row found is free, and no free row comes before it; if none is found, none is free.
    pub first_due-Finds :
        (rows : Table) → IsTable rows → Finds rows (first_due tie locked queue now rows)
    unfolding first_due
    first_due-Finds [] t = tt
    first_due-Finds (a ∷ rows) (h, t) =
        let found = first_due tie locked queue now rows in
        let rest = first_due-Finds rows t in
        elim (Bool-cases (is_free a)) [
          | inl d ↦ rw (first_due-cons a rows true d) (found_first a rows found h d rest)
          | inr d ↦ rw (first_due-cons a rows false d) (passed_over a rows found h d rest)
        ]

-- The row as Dequeue changes it.
abbrev pub claimed : ℕ → Row → Row
claimed now a = record a { status = active; updated_at = now }

all_four :
    (x y z k : Bool)
    → (x && y && z && not k) ≡ true
    → (x ≡ true) × (y ≡ true) × (z ≡ true) × (k ≡ false)
all_four x y z k h = ground (arith, h)

waiting-live : (status : JobStatus) → is_waiting status ≡ true → is_live status ≡ true
unfolding is_live
waiting-live pending h = refl
waiting-live retry h = refl
waiting-live active h = cc
waiting-live dead h = cc
waiting-live completed h = cc
waiting-live (other s) h = cc

module _ (tie : Row → Row → Bool) (locked : String → Bool) (queue : String) (now : ℕ) where
  pub free-waiting :
      (a : Row)
      → is_free tie locked queue now a ≡ true
      → (a.queue ≡ queue)
        × (is_waiting a.status ≡ true)
        × (a.process_at ≤ now)
        × (locked a.id ≡ false)
  unfolding is_free
  free-waiting a h =
      let (x, y, z, k) = all_four (a.queue == queue) _ (leb a.process_at now) _ h in
      ((eq_iff a.queue queue).0 x, y, leb→le a.process_at now z, k)

  pub claimed-Milder : (a : Row) → is_free tie locked queue now a ≡ true → Milder (claimed now a) a
  claimed-Milder a h = record {
    same_id = refl;
    same_key = refl;
    no_livelier = λ l. waiting-live a.status (free-waiting a h).1;
  }

  -- Dequeue's statement never breaks a constraint: it changes the row that the subquery finds, or
  -- nothing if there is none.
  pub claim_row_lem :
      (rows : Table) (o : Option Row)
      → IsTable rows
      → first_due tie locked queue now rows ≡ o
      → claim_row tie locked queue now rows ≡ elim o [
        | none ↦ (ok none, rows)
        | some a ↦ (ok (some (claimed now a)), replace a.id (claimed now a) rows)
      ]
  unfolding claim_row
  claim_row_lem rows none t e = rw e refl
  claim_row_lem rows (some a) t e =
      let (found, free, first) = rw e at (first_due-Finds tie locked queue now rows t) in
      let fits = Milder-fits a.id (claimed now a) rows t found (claimed-Milder a free) in
      rw (e, fits) refl
