-- ===== src/Broker/Postgres/Rows.antt =====
-- The table as a map from primary keys to rows, and what its constraints say of it.
use mini_sidekiq.Prelude.{
  String, ◌≡◌, refl, ◌∙◌, inl, inr, false, [], ◌∷◌, ◌++◌, Option, none, some, ◌==◌, if◌then◌else◌,
  eq_iff, eq_refl, arith, Bool-cases,
}
use mini_sidekiq.Broker.Postgres.Table.{
  Row, Table, same_key, clash, conflicts, IsTable, find_row, others, replace,
}

same_key_comm : (k l : Option String) → same_key k l ≡ same_key l k
unfolding same_key
same_key_comm none none = refl
same_key_comm none (some l) = refl
same_key_comm (some k) none = refl
same_key_comm (some k) (some l) = ground (arith, eq_iff k l, eq_iff l k)

pub clash_comm : (a b : Row) → clash a b ≡ clash b a
unfolding clash
clash_comm a b =
    ground (arith, eq_iff a.id b.id, eq_iff b.id a.id, same_key_comm a.unique_key b.unique_key)

clash-id : (a b : Row) → clash a b ≡ false → (a.id == b.id) ≡ false
unfolding clash
clash-id a b h = ground arith

-- A row conflicts with a table if it clashes with the first row or conflicts with the rest.
pub conflicts-cons :
    (a b : Row) (db : Table)
    → conflicts a (b ∷ db) ≡ false
    → (clash a b ≡ false) × (conflicts a db ≡ false)
unfolding conflicts
conflicts-cons a b db h = ground arith

pub cons-conflicts :
    (a b : Row) (db : Table)
    → clash a b ≡ false
    → conflicts a db ≡ false
    → conflicts a (b ∷ db) ≡ false
unfolding conflicts
cons-conflicts a b db h k = rw (h, k) refl

find_row-cons :
    (id : String) (a : Row) (db : Table)
    → find_row id (a ∷ db) ≡ (if a.id == id then some a else find_row id db)
unfolding find_row
find_row-cons id a db = refl

pub find_row-id : (id : String) (db : Table) {a : Row} → find_row id db ≡ some a → a.id ≡ id
unfolding find_row
find_row-id id [] h = cc
find_row-id id (b ∷ db) {a} h = elim (Bool-cases (b.id == id)) [
  | inl e ↦ ground (arith, h, e, eq_iff b.id id)
  | inr e ↦ find_row-id id db (rw e at h)
]

pub find_row-others :
    (j id : String) (db : Table)
    → find_row j (others id db) ≡ (if id == j then none else find_row j db)
unfolding find_row others
find_row-others j id [] = ground arith
find_row-others j id (a ∷ db) =
    ground (arith, eq_iff a.id id, eq_iff a.id j, eq_iff id j, find_row-others j id db)

find_row-replace_ne :
    (j id : String) (b : Row) (db : Table)
    → b.id ≡ id
    → (id == j) ≡ false
    → find_row j (replace id b db) ≡ find_row j db
unfolding find_row replace
find_row-replace_ne j id b [] own ne = refl
find_row-replace_ne j id b (c ∷ db) own ne =
    let rest = find_row-replace_ne j id b db own ne in
    elim (Bool-cases (c.id == id)) [
      | inl e ↦ rw (e, own, ne, rest, (eq_iff c.id id).0 e) (rw ne refl)
      | inr e ↦ rw (e, rest) refl
    ]

find_row-replace_self :
    (id : String) (b : Row) (db : Table) {a : Row}
    → b.id ≡ id
    → find_row id db ≡ some a
    → find_row id (replace id b db) ≡ some b
unfolding find_row replace
find_row-replace_self id b [] own h = cc
find_row-replace_self id b (c ∷ db) own h = elim (Bool-cases (c.id == id)) [
  | inl e ↦ rw (e, own, eq_refl id) refl
  | inr e ↦ rw (e) (rw e (find_row-replace_self id b db own (rw e at h)))
]

pub find_row-replace :
    (j id : String) (b : Row) (db : Table) {a : Row}
    → b.id ≡ id
    → find_row id db ≡ some a
    → find_row j (replace id b db) ≡ (if id == j then some b else find_row j db)
find_row-replace j id b db own h = elim (Bool-cases (id == j)) [
  | inl e ↦ rw (e, ← (eq_iff id j).0 e) (find_row-replace_self id b db own h)
  | inr e ↦ rw e (find_row-replace_ne j id b db own e)
]

pub conflicts-find_row : (a : Row) (db : Table) → conflicts a db ≡ false → find_row a.id db ≡ none
unfolding find_row
conflicts-find_row a [] h = refl
conflicts-find_row a (b ∷ db) h =
    let (x, y) = conflicts-cons a b db h in
    ground (arith, eq_iff a.id b.id, eq_iff b.id a.id, clash-id a b x, conflicts-find_row a db y)

pub find_row-insert :
    (j : String) (a : Row) (db : Table)
    → conflicts a db ≡ false
    → find_row j (db ++ (a ∷ [])) ≡ (if a.id == j then some a else find_row j db)
unfolding find_row
find_row-insert j a [] h = refl
find_row-insert j a (b ∷ db) h =
    let (x, y) = conflicts-cons a b db h in
    ground (
      arith,
      eq_iff a.id b.id,
      eq_iff b.id j,
      eq_iff a.id j,
      clash-id a b x,
      find_row-insert j a db y,
    )

-- A row in the table.
pub conflicts-clash :
    (a : Row) (id : String) (db : Table) {b : Row}
    → conflicts a db ≡ false
    → find_row id db ≡ some b
    → clash a b ≡ false
unfolding find_row
conflicts-clash a id [] h f = cc
conflicts-clash a id (c ∷ db) {b} h f =
    let (x, y) = conflicts-cons a c db h in
    elim (Bool-cases (c.id == id)) [
      | inl e ↦ ground (arith, x, rw e at f)
      | inr e ↦ conflicts-clash a id db y (rw e at f)
    ]

conflicts-others :
    (a : Row) (id : String) (db : Table)
    → conflicts a db ≡ false
    → conflicts a (others id db) ≡ false
unfolding others
conflicts-others a id [] h = h
conflicts-others a id (b ∷ db) h =
    let (x, y) = conflicts-cons a b db h in
    let rest = conflicts-others a id db y in
    elim (Bool-cases (b.id == id)) [
      | inl e ↦ rw e rest
      | inr e ↦ rw e (cons-conflicts a b (others id db) x rest)
    ]

pub others-IsTable : (id : String) (db : Table) → IsTable db → IsTable (others id db)
unfolding others
others-IsTable id [] t = tt
others-IsTable id (a ∷ db) (h, t) = elim (Bool-cases (a.id == id)) [
  | inl e ↦ rw e (others-IsTable id db t)
  | inr e ↦ rw e (conflicts-others a id db h, others-IsTable id db t)
]

conflicts-insert :
    (c a : Row) (db : Table)
    → conflicts c db ≡ false
    → clash c a ≡ false
    → conflicts c (db ++ (a ∷ [])) ≡ false
conflicts-insert c a [] h k = cons-conflicts c a [] k h
conflicts-insert c a (b ∷ db) h k =
    let (x, y) = conflicts-cons c b db h in
    cons-conflicts c b (db ++ (a ∷ [])) x (conflicts-insert c a db y k)

pub insert-IsTable :
    (a : Row) (db : Table) → IsTable db → conflicts a db ≡ false → IsTable (db ++ (a ∷ []))
insert-IsTable a [] t h = (h, tt)
insert-IsTable a (b ∷ db) (k, t) h =
    let (x, y) = conflicts-cons a b db h in
    (conflicts-insert b a db k (clash_comm b a ∙ x), insert-IsTable a db t y)
