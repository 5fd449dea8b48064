-- ===== src/Broker/Postgres/Table.antt =====
-- The constant `schema` of internal/broker/postgres.go.
use mini_sidekiq.Prelude.{
  ℕ, String, ◌≡◌, Bool, true, false, List, [], ◌∷◌, Option, none, some, ◌==◌, ◌&&◌, ◌||◌,
  if◌then◌else◌,
}
use mini_sidekiq.Job.{JobStatus, dead, completed}

-- The columns. Times are nanoseconds since 1970.
pub record Row : Type 0 where
  pub id : String
  pub queue : String
  pub type : String
  pub payload : String
  pub priority : ℕ
  pub status : JobStatus
  pub attempts : ℕ
  pub max_attempts : ℕ
  pub last_error : String
  pub unique_key : Option String
  pub process_at : ℕ
  pub created_at : ℕ
  pub updated_at : ℕ

-- The rows in their physical order, which means nothing.
abbrev pub Table : Type 0
Table = List Row

-- `status NOT IN ('completed', 'dead')`
unfoldable pub is_live : JobStatus → Bool
is_live completed = false
is_live dead = false
is_live _ = true

-- SQL's `=` does not hold of NULL.
unfoldable pub same_key : Option String → Option String → Bool
same_key (some k) (some l) = k == l
same_key _ _ = false

-- Two rows that the primary key or the index idx_jobs_unique_key do not let stand together.
unfoldable pub clash : Row → Row → Bool
clash a b =
    a.id == b.id || (is_live a.status && is_live b.status && same_key a.unique_key b.unique_key)

unfoldable pub conflicts : Row → Table → Bool
conflicts a [] = false
conflicts a (b ∷ rows) = clash a b || conflicts a rows

-- The table keeps its constraints.
abbrev pub IsTable : Table → Type 0
IsTable [] = Unit {0}
IsTable (a ∷ rows) = (conflicts a rows ≡ false) × IsTable rows

-- The row with a primary key.
unfoldable pub find_row : String → Table → Option Row
find_row id [] = none
find_row id (a ∷ rows) = if a.id == id then some a else find_row id rows

-- The rows with another primary key.
unfoldable pub others : String → Table → Table
others id [] = []
others id (a ∷ rows) = let rest = others id rows in if a.id == id then rest else a ∷ rest

unfoldable pub replace : String → Row → Table → Table
replace id b [] = []
replace id b (a ∷ rows) = (if a.id == id then b else a) ∷ replace id b rows
