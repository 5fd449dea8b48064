-- ===== src/Broker/Postgres/Updates.antt =====
-- An UPDATE of one row, and the constraints of the table.
use mini_sidekiq.Prelude.{
  String, ◌≡◌, refl, ◌∙◌, inl, inr, Bool, true, false, [], ◌∷◌, none, some, ◌==◌, ◌&&◌, ◌||◌,
  eq_iff, arith, Bool-cases,
}
use mini_sidekiq.Broker.Postgres.Table.{
  Row, Table, is_live, same_key, clash, conflicts, IsTable, find_row, others, replace,
}
use mini_sidekiq.Broker.Postgres.Rows.{
  clash_comm, conflicts-cons, cons-conflicts, conflicts-find_row, conflicts-clash,
}

replace_absent : (id : String) (b : Row) (db : Table) → find_row id db ≡ none → replace id b db ≡ db
unfolding find_row replace
replace_absent id b [] h = refl
replace_absent id b (a ∷ db) h = elim (Bool-cases (a.id == id)) [
  | inl e ↦ absurd (cc (rw e at h))
  | inr e ↦ rw (e, replace_absent id b db (rw e at h)) refl
]

others_absent : (id : String) (db : Table) → find_row id db ≡ none → others id db ≡ db
unfolding find_row others
others_absent id [] h = refl
others_absent id (a ∷ db) h = elim (Bool-cases (a.id == id)) [
  | inl e ↦ absurd (cc (rw e at h))
  | inr e ↦ rw (e, others_absent id db (rw e at h)) refl
]

conflicts-replace :
    (c : Row) (id : String) (b : Row) (db : Table)
    → conflicts c db ≡ false
    → clash c b ≡ false
    → conflicts c (replace id b db) ≡ false
unfolding replace
conflicts-replace c id b [] h k = h
conflicts-replace c id b (a ∷ db) h k =
    let (x, y) = conflicts-cons c a db h in
    let rest = conflicts-replace c id b db y k in
    elim (Bool-cases (a.id == id)) [
      | inl e ↦ rw e (cons-conflicts c b (replace id b db) k rest)
      | inr e ↦ rw e (cons-conflicts c a (replace id b db) x rest)
    ]

-- No other row has the key of the first.
unique_head :
    (id : String) (a : Row) (db : Table)
    → conflicts a db ≡ false
    → (a.id == id) ≡ true
    → find_row id db ≡ none
unique_head id a db h e = rw (← (eq_iff a.id id).0 e) (conflicts-find_row a db h)

pub replace-IsTable :
    (id : String) (b : Row) (db : Table)
    → IsTable db
    → conflicts b (others id db) ≡ false
    → IsTable (replace id b db)
unfolding replace others
replace-IsTable id b [] t h = tt
replace-IsTable id b (a ∷ db) (k, t) h = elim (Bool-cases (a.id == id)) [
  | inl e ↦
      let alone = unique_head id a db k e in
      rw (e, replace_absent id b db alone) (rw (others_absent id db alone) at (rw e at h), t)
  | inr e ↦
      let (x, y) = conflicts-cons b a (others id db) (rw e at h) in
      rw e (conflicts-replace a id b db k (clash_comm a b ∙ x), replace-IsTable id b db t y)
]

-- The changed row is no harder to fit in than the old one.
pub record Milder (b a : Row) : Type 0 where
  pub same_id : b.id ≡ a.id
  pub same_key : b.unique_key ≡ a.unique_key
  pub no_livelier : is_live b.status ≡ true → is_live a.status ≡ true

weaker_test :
    (i l l' m k : Bool)
    → (l' ≡ true → l ≡ true)
    → (i || l && m && k) ≡ false
    → (i || l' && m && k) ≡ false
weaker_test i true l' m k w h = ground (arith, h)
weaker_test i false true m k w h = absurd (cc (w refl))
weaker_test i false false m k w h = h

clash-Milder : (b a c : Row) → Milder b a → clash a c ≡ false → clash b c ≡ false
unfolding clash
clash-Milder b a c m h =
    rw (m.same_id, m.same_key)
      (weaker_test (a.id == c.id) (is_live a.status) (is_live b.status) (is_live c.status)
        (same_key a.unique_key c.unique_key) m.no_livelier h)

conflicts-Milder :
    (b a : Row) (db : Table) → Milder b a → conflicts a db ≡ false → conflicts b db ≡ false
unfolding conflicts
conflicts-Milder b a [] m h = refl
conflicts-Milder b a (c ∷ db) m h =
    let (x, y) = conflicts-cons a c db h in
    cons-conflicts b c db (clash-Milder b a c m x) (conflicts-Milder b a db m y)

-- Such a change breaks no constraint.
pub Milder-fits :
    (id : String) (b : Row) (db : Table) {a : Row}
    → IsTable db
    → find_row id db ≡ some a
    → Milder b a
    → conflicts b (others id db) ≡ false
unfolding find_row others
Milder-fits id b [] t f m = cc
Milder-fits id b (c ∷ db) {a} (k, t) f m = elim (Bool-cases (c.id == id)) [
  | inl e ↦
      let same : c ≡ a = ground (arith, rw e at f) in
      rw (e, others_absent id db (unique_head id c db k e)) (conflicts-Milder b c db (rw same m) k)
  | inr e ↦
      let found = rw e at f in
      rw e (
        cons-conflicts b c (others id db)
          (clash-Milder b a c m (clash_comm a c ∙ conflicts-clash c id db k found))
          (Milder-fits id b db t found m))
]
