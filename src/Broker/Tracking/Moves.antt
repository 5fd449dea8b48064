-- ===== src/Broker/Tracking/Moves.antt =====
-- One id leaves a place and comes to another one, in either order.
use mini_sidekiq.Prelude.{ℕ, String, ◌≡◌, ◌≢◌, none, some, false, ◌==◌, arith, eq_iff}
use mini_sidekiq.Redis.{Redis}
use mini_sidekiq.Broker.Keys.{Place, place_key, place_key-injective}
use mini_sidekiq.Broker.Shapes.{occ}
use mini_sidekiq.Broker.Commands.{Shifts}
use mini_sidekiq.Broker.Tracking.{Placement, at_place, put, forget}

-- A change of the occurrences that takes the one occurrence of `id`, or adds it.
abbrev pub Takes : String → (String → ℕ → ℕ) → Type 0
Takes id f = (f id 1 ≡ 0) × ((a : String) (n : ℕ) → (id == a) ≡ false → f a n ≡ n)

abbrev pub Gives : String → (String → ℕ → ℕ) → Type 0
Gives id f = (f id 0 ≡ 1) × ((a : String) (n : ℕ) → (id == a) ≡ false → f a n ≡ n)

module _ {D : Type 0} (r : Redis D) where
  open r use {Db}

  -- The occurrences are those of a placement.
  abbrev pub Places : Db → Placement → Type 0
  Places db w = (a : String) (p : Place) → occ r db a p ≡ at_place (w a) p

  module _ (w : Placement) (id : String) (from to : Place) (apart : place_key from ≢ place_key to)
      (take give : String → ℕ → ℕ) (takes : Takes id take) (gives : Gives id give)
      (here : w id ≡ some from) (db db₁ db₂ : Db) (places : Places db w) where
    pub take-give-Places :
        Shifts r from take db db₁ → Shifts r to give db₁ db₂ → Places db₂ (put id to w)
    take-give-Places e f a p = ground (
      arith,
      e a p,
      e a to,
      f a p,
      places a p,
      places a from,
      places a to,
      takes,
      gives,
      takes.1 a (occ r db a from),
      gives.1 a (occ r db₁ a to),
      eq_iff id a,
      eq_iff (place_key from) (place_key p),
      eq_iff (place_key to) (place_key p),
      eq_iff (place_key from) (place_key to),
      eq_iff (place_key from) (place_key from),
    )

    pub give-take-Places :
        Shifts r to give db db₁ → Shifts r from take db₁ db₂ → Places db₂ (put id to w)
    give-take-Places e f a p = ground (
      arith,
      e a p,
      e a from,
      f a p,
      places a p,
      places a from,
      places a to,
      takes,
      gives,
      takes.1 a (occ r db₁ a from),
      gives.1 a (occ r db a to),
      eq_iff id a,
      eq_iff (place_key from) (place_key p),
      eq_iff (place_key to) (place_key p),
      eq_iff (place_key to) (place_key from),
      eq_iff (place_key from) (place_key from),
    )

  module _ (w : Placement) (id : String) (p : Place) (db db' : Db) (places : Places db w) where
    -- An id that stood nowhere comes to `p`.
    pub give-Places :
        (give : String → ℕ → ℕ)
        → Gives id give
        → w id ≡ none
        → Shifts r p give db db'
        → Places db' (put id p w)
    give-Places give gives new e a q = ground (
      arith,
      e a q,
      places a q,
      places a p,
      gives,
      gives.1 a (occ r db a p),
      eq_iff id a,
      eq_iff (place_key p) (place_key q),
    )

    -- The id leaves `p` for good.
    pub take-Places :
        (take : String → ℕ → ℕ)
        → Takes id take
        → w id ≡ some p
        → Shifts r p take db db'
        → Places db' (forget id w)
    take-Places take takes here e a q = ground (
      arith,
      e a q,
      places a q,
      places a p,
      takes,
      takes.1 a (occ r db a p),
      eq_iff id a,
      eq_iff (place_key p) (place_key q),
      eq_iff (place_key p) (place_key p),
    )

    -- A removal that finds nothing.
    pub miss-Places :
        (change : String → ℕ → ℕ)
        → ((a : String) → change a (occ r db a p) ≡ occ r db a p)
        → Shifts r p change db db'
        → Places db' w
    miss-Places change same e a q = ground (
      arith,
      e a q,
      places a q,
      places a p,
      same a,
      eq_iff (place_key p) (place_key q),
      place_key-injective p q,
    )
