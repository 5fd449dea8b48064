-- ===== src/Broker/Shapes.antt =====
-- The keyspace that the broker keeps: lists at the queue and dead-letter keys, sorted sets at the
-- others, and what each command then does to the number of times an id stands at a place.
use mini_sidekiq.Prelude.{
  ℕ, String, ◌≡◌, false, ◌==◌, eq_iff, Bool-cases, inl, inr, arith, if◌then◌else◌, ==-false_of_ne,
  ap, sym, subst, ◌∙◌, eq_refl,
}
use mini_sidekiq.Redis.{Redis}
use mini_sidekiq.Redis.Values.{Value}
use mini_sidekiq.Redis.Occurrences.{occurrences, IsListLike, IsZsetLike}
use mini_sidekiq.Broker.Keys.{
  Place, in_queue, in_retry, in_dead, in_active, in_scheduled, place_key, job_key,
  place_key-injective, job_key-ne-place_key,
}

abbrev pub IsListPlace : Place → Type 0
IsListPlace (in_queue q) = Unit
IsListPlace (in_dead q) = Unit
IsListPlace _ = ⊥

abbrev pub IsZsetPlace : Place → Type 0
IsZsetPlace (in_queue q) = ⊥
IsZsetPlace (in_dead q) = ⊥
IsZsetPlace _ = Unit

abbrev pub Fits : {D : Type 0} → Place → Value D → Type 0
Fits (in_queue q) v = IsListLike v
Fits (in_dead q) v = IsListLike v
Fits (in_retry q) v = IsZsetLike v
Fits in_active v = IsZsetLike v
Fits in_scheduled v = IsZsetLike v

module _ {D : Type 0} where
  pub Fits-list : (p : Place) (v : Value D) → IsListPlace p → Fits p v → IsListLike v
  Fits-list (in_queue q) v l h = h
  Fits-list (in_dead q) v l h = h
  Fits-list _ v l h = absurd l

  pub Fits-zset : (p : Place) (v : Value D) → IsZsetPlace p → Fits p v → IsZsetLike v
  Fits-zset (in_retry q) v l h = h
  Fits-zset in_active v l h = h
  Fits-zset in_scheduled v l h = h
  Fits-zset _ v l h = absurd l

  pub list-Fits : (p : Place) (v : Value D) → IsListPlace p → IsListLike v → Fits p v
  list-Fits (in_queue q) v l h = h
  list-Fits (in_dead q) v l h = h
  list-Fits _ v l h = absurd l

  pub zset-Fits : (p : Place) (v : Value D) → IsZsetPlace p → IsZsetLike v → Fits p v
  zset-Fits (in_retry q) v l h = h
  zset-Fits in_active v l h = h
  zset-Fits in_scheduled v l h = h
  zset-Fits _ v l h = absurd l

module _ {D : Type 0} (r : Redis D) where
  open r use {Db, value}

  abbrev pub IsShaped : Db → Type 0
  IsShaped db = (p : Place) → Fits p (value db (place_key p))

  -- How often the id stands at the place.
  unfoldable pub occ : Db → String → Place → ℕ
  occ db a p = occurrences a (value db (place_key p))

  -- One key changes, as a function of what it held.
  abbrev pub Changes : String → (Value D → Value D) → Db → Db → Type 0
  Changes k f db db' = (j : String) → value db' j ≡ (if k == j then f (value db k) else value db j)

  module _ (k : String) (f : Value D → Value D) (db db' : Db) (c : Changes k f db db') where
    changed : value db' k ≡ f (value db k)
    changed = c k ∙ rw (eq_refl k)

    pub unchanged : (j : String) → (k == j) ≡ false → value db' j ≡ value db j
    unchanged j e = c j ∙ rw e

  module _ (p : Place) (f : Value D → Value D) (db db' : Db)
      (c : Changes (place_key p) f db db') where
    pub Changes-IsShaped : Fits p (f (value db (place_key p))) → IsShaped db → IsShaped db'
    Changes-IsShaped h s q = elim (Bool-cases (place_key p == place_key q)) [
      | inl e ↦
          subst (λ x. Fits x (value db' (place_key x)))
            (place_key-injective p q ((eq_iff (place_key p) (place_key q)).0 e))
            (subst (Fits p) (sym (changed (place_key p) f db db' c)) h)
      | inr e ↦ subst (Fits q) (sym (unchanged (place_key p) f db db' c (place_key q) e)) (s q)
    ]

    -- The occurrences afterwards, from those that `f` leaves.
    pub Changes-occ :
        (a : String) (n : ℕ) (q : Place)
        → occurrences a (f (value db (place_key p))) ≡ n
        → occ db' a q ≡ (if place_key p == place_key q then n else occ db a q)
    unfolding occ
    Changes-occ a n q h = rw (c (place_key q)) (ground (arith, h))

  -- A record has a key of its own, so writing it changes no place.
  module _ (i : String) (f : Value D → Value D) (db db' : Db)
      (c : Changes (job_key i) f db db') where
    place_unchanged : (q : Place) → value db' (place_key q) ≡ value db (place_key q)
    place_unchanged q =
        unchanged (job_key i) f db db' c (place_key q)
          (==-false_of_ne _ _ (job_key-ne-place_key i q))

    pub record-IsShaped : IsShaped db → IsShaped db'
    record-IsShaped s q = subst (Fits q) (sym (place_unchanged q)) (s q)

    pub record-occ : (a : String) (q : Place) → occ db' a q ≡ occ db a q
    unfolding occ
    record-occ a q = ap (occurrences a) (place_unchanged q)
